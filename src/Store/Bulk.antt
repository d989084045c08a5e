-- ===== src/Store/Bulk.antt =====
-- `shorten` and `shorten_many` of src/store.cpp, the invariant and the log.
use mathlib.Core.Path.{subst}
use shrt_cpp.Prelude.{
  ℕ, ◌^◌, ◌<◌, List, [], ◌∷◌, ◌++◌, Option, none, some, ◌≡◌, refl, sym, ap, ◌∙◌, arith, inl, inr,
  Option-cases, Bytes, length, Int64, from_int,
}
use shrt_cpp.Codec.Line.{row_line}
use shrt_cpp.Codec.Parse.Fields.{IsPlain}
use shrt_cpp.Aof.{nl, push_raw}
use shrt_cpp.Store.State.{Inner, World, entry?}
use shrt_cpp.Store.Create.{
  expires, new_entry, emplace, flush_large, fresh_code, log_created, shorten, shorten_each,
  shorten_many,
}
use shrt_cpp.Store.Views.{View, view, target, view_put, Chunk, Chunk-nil, Chunk-append}
use shrt_cpp.Store.Chunks.{IsCode}
use shrt_cpp.Store.Sound.{IsCalm, IsSound, IsSound-same, emplace-IsSound}
use shrt_cpp.Store.Calm.{logged-flush_large, logged-push_raw}
use shrt_cpp.Store.Fresh.{IsGenerated-IsCode, IsAlnum-IsPlain, alphabet-IsAlnum, fresh_code_sound}
use shrt_cpp.Store.Durable.{
  IsDurable, IsDurable-write, IsDurable-same, log_created-aof, view-log_created, view-links_delta,
  view-emplace, expires-lt,
}
use shrt_cpp.Store.Keeps.{
  IsKept, create-IsKept, own_row-Chunk, links_delta-IsSound, log_created-IsSound, aof-links_delta,
}

fresh-IsCode :
    (fuel : ℕ) (s : Inner) (code : Bytes) (t : Inner)
    → IsSound s
    → fresh_code fuel s ≡ some (code, t)
    → IsCode code
fresh-IsCode fuel s code t k h =
    IsGenerated-IsCode s.prefix code
      (subst IsPlain (sym k.prefix_of_instance)
        (IsAlnum-IsPlain _ (alphabet-IsAlnum s.instance_id k.instance_bound)))
      (fresh_code_sound fuel s code t h).0

view-set_rng : (s : Inner) (r : ℕ) → view (record s { rng = r }) ≡ view s
unfolding entry?
view-set_rng s r = refl

set_rng-IsSound : (s : Inner) (r : ℕ) → IsSound s → IsSound (record s { rng = r })
set_rng-IsSound s r k = IsSound-same {s = s} refl refl refl k

set_rng-IsKept :
    {base : Inner} (s : Inner) (r : ℕ) → IsKept base s → IsKept base (record s { rng = r })
set_rng-IsKept s r k = record {
  sound = set_rng-IsSound s r k.sound;
  durable = IsDurable-same {s = s} refl (view-set_rng s r) k.durable;
}

-- An alias that the handlers admit.
abbrev pub IsAlias : Option Bytes → Type 0
IsAlias none = Unit
IsAlias (some c) = IsCode c

module _ {base : Inner} where
  pub shorten-IsKept :
      (w : World) (fuel : ℕ) (url : Bytes) (alias : Option Bytes) (ttl : Int64) (s : Inner)
      (r : Option Bytes) (t : Inner)
      → IsCalm w
      → IsAlias alias
      → shorten w fuel url alias ttl s ≡ some (r, t)
      → IsKept base s
      → IsKept base t
  unfolding shorten
  shorten-IsKept w fuel url (some c) ttl s r t h ha e k = elim (Option-cases (entry? c s)) [
    | inl p ↦ subst (IsKept base) (ground arith) (create-IsKept w c url ttl s h ha k)
    | inr (f, p) ↦ subst (IsKept base) (ground arith) k
  ]
  shorten-IsKept w fuel url none ttl s r t h ha e k = elim (Option-cases (fresh_code fuel s)) [
    | inl p ↦ cc
    | inr ((c, s'), p) ↦ subst (IsKept base) (ground arith) (
        create-IsKept w c url ttl s' h (fresh-IsCode fuel s c s' k.sound p) (
          subst (IsKept base) (sym (fresh_code_sound fuel s c s' p).2) (set_rng-IsKept s s'.rng k)))
  ]

-- What the loop of `shorten_many` does: its lines change the view as its entries do.
record Grown (s t : Inner) (lines : Bytes) : Type 0 where
  effect : View → View
  chunk : Chunk lines effect
  sees : view t ≡ effect (view s)
  sound : IsSound t
  same_log : t.aof ≡ s.aof

Grown-nil : (s : Inner) → IsSound s → Grown s s []
Grown-nil s k = record {
  effect = λ v. v;
  chunk = Chunk-nil;
  sees = refl;
  sound = k;
  same_log = refl;
}

-- One more row in front: `c` is new, `s` becomes `s'` by drawing it.
Grown-cons :
    (c url : Bytes) (now exp : Int64) (s s' t : Inner) (lines : Bytes)
    → IsSound s
    → IsCode c
    → now < 2 ^ 64
    → exp < 2 ^ 64
    → s' ≡ record s { rng = s'.rng }
    → Grown (emplace c (new_entry url now exp s) s') t lines
    → Grown s t ((row_line c url now exp (from_int s.instance_id) 0 ++ nl ∷ []) ++ lines)
unfolding new_entry
Grown-cons c url now exp s s' t lines k hc hn he e g = record {
  effect = λ v. g.effect (view_put c (record { u = url; a = now; e = exp; i = s.instance_id }) v);
  chunk = Chunk-append {g = g.effect} (own_row-Chunk c url now exp s hc hn he k) g.chunk;
  sees =
      g.sees
      ∙ ap g.effect (
          view-emplace c (new_entry url now exp s) s'
          ∙ ap (view_put c (target (new_entry url now exp s))) (ap view e ∙ view-set_rng s s'.rng));
  sound = g.sound;
  same_log = g.same_log ∙ (unfold emplace in ap (λ (x : Inner). x.aof) e);
}

drawn-IsSound :
    (fuel : ℕ) (url : Bytes) (now exp : Int64) (s : Inner) (c : Bytes) (s' : Inner)
    → now < 2 ^ 64
    → exp < 2 ^ 64
    → IsSound s
    → fresh_code fuel s ≡ some (c, s')
    → IsSound (emplace c (new_entry url now exp s) s')
drawn-IsSound fuel url now exp s c s' hn he k p =
    emplace-IsSound c (new_entry url now exp s) s'
      (unfold new_entry in record { created = hn; expiry = he })
      (subst IsSound (sym (fresh_code_sound fuel s c s' p).2) (set_rng-IsSound s s'.rng k))

shorten_each-Grown :
    (fuel : ℕ) (now exp : Int64) (urls : List Bytes) (s : Inner) (created : List Bytes)
    (lines : Bytes) (t : Inner)
    → now < 2 ^ 64
    → exp < 2 ^ 64
    → shorten_each fuel now exp urls s ≡ some (created, lines, t)
    → IsSound s
    → Grown s t lines
unfolding shorten_each
shorten_each-Grown fuel now exp [] s created lines t hn he h k =
    subst (λ (x : Inner × Bytes). Grown s x.0 x.1) (ground arith) (Grown-nil s k)
shorten_each-Grown fuel now exp (url ∷ urls) s created lines t hn he h k =
    elim (Option-cases (fresh_code fuel s)) [
      | inl p ↦ absurd (ground arith)
      | inr ((c, s'), p) ↦
          let u = emplace c (new_entry url now exp s) s' in
          elim (Option-cases (shorten_each fuel now exp urls u)) [
            | inl q ↦ absurd (ground arith)
            | inr ((cs, ls, t'), q) ↦
                subst (λ (x : Inner × Bytes). Grown s x.0 x.1) (ground arith)
                  (Grown-cons c url now exp s s' t' ls k (fresh-IsCode fuel s c s' k p) hn he
                    (fresh_code_sound fuel s c s' p).2
                    (shorten_each-Grown fuel now exp urls u cs ls t' hn he q
                      (drawn-IsSound fuel url now exp s c s' hn he k p)))
          ]
    ]

log_bulk-IsDurable :
    {base : Inner} (w : World) (s t : Inner) (lines : Bytes)
    → IsCalm w
    → Grown s t lines
    → IsDurable base s
    → IsDurable base (log_created w (push_raw lines) t)
log_bulk-IsDurable w s t lines h g d =
    let fl = logged-flush_large w (push_raw lines d.log) h (unfold push_raw in d.opened) in
    IsDurable-write (flush_large w (push_raw lines d.log)) d g.chunk
      (log_created-aof w (push_raw lines) t d.log (g.same_log ∙ d.has_log)) fl.1
      (fl.0 ∙ logged-push_raw lines d.log) (view-log_created w (push_raw lines) t ∙ g.sees)

pub shorten_many-IsKept :
    {base : Inner} (w : World) (fuel : ℕ) (urls : List Bytes) (ttl : Int64) (s : Inner)
    (created : List Bytes) (t : Inner)
    → IsCalm w
    → shorten_many w fuel urls ttl s ≡ some (created, t)
    → IsKept base s
    → IsKept base t
unfolding shorten_many
shorten_many-IsKept {base} w fuel urls ttl s created t h e k =
    let now = w.now 0 in
    elim (Option-cases (shorten_each fuel now (expires now ttl) urls s)) [
      | inl p ↦ absurd (ground arith)
      | inr ((cs, ls, t'), p) ↦
          let g =
            shorten_each-Grown fuel now (expires now ttl) urls s cs ls t' (h.clock 0)
              (expires-lt now ttl) p k.sound in
          let u = log_created w (push_raw ls) t' in
          subst (IsKept base) (ground arith) (record {
            sound =
                links_delta-IsSound (length cs) u (log_created-IsSound w (push_raw ls) t' g.sound);
            durable =
                IsDurable-same {s = u} (aof-links_delta (length cs) u)
                  (view-links_delta (length cs) u) (log_bulk-IsDurable w s t' ls h g k.durable);
          })
    ]
