-- ===== src/Store/Keeps.antt =====
-- `create`, `update` and `remove` of src/store.cpp, the invariant and the log.
use mathlib.Core.Path.{subst}
use native.Mathlib.Decide.{ℕ_discrete}
use shrt_cpp.Prelude.{
  ◌-◌, ◌^◌, ◌<◌, Bool, [], ◌∷◌, ◌++◌, some, ◌≡◌, refl, ap, ◌∙◌, arith, inl, inr, Option-cases,
  Bytes, erase, Int64, from_int,
}
use shrt_cpp.Codec.Line.{row_line, del_line}
use shrt_cpp.Aof.{Aof, nl, push}
use shrt_cpp.Store.State.{Entry, Inner, World, shard_of, entry?, at_shard}
use shrt_cpp.Store.Apply.{with_entries}
use shrt_cpp.Store.Create.{
  expires, new_entry, emplace, flush_large, log_created, links_delta, create,
}
use shrt_cpp.Store.Access.{log_line, new_expiry, update, remove}
use shrt_cpp.Store.Views.{View, view, view_put, Chunk}
use shrt_cpp.Store.Chunks.{IsCode, row-Chunk, del-Chunk}
use shrt_cpp.Store.Sound.{IsCalm, IsSound, IsSound-same, emplace-IsSound, erase-IsSound}
use shrt_cpp.Store.Calm.{logged-flush_large, logged-push}
use shrt_cpp.Store.Branches.{
  update_missing, update_remote, update_ok, remove_missing, remove_remote, remove_ok,
}
use shrt_cpp.Store.Durable.{
  IsDurable, IsDurable-write, IsDurable-same, log_created-aof, shards-log_created, log_line-aof,
  view-log_line, view-links_delta, view-emplace, view-erase, expires-lt, created_target,
  view-create, int_of_instance, instance-lt,
}

-- Both invariants, over the state that the boot left.
pub record IsKept (base s : Inner) : Type 0 where
  pub sound : IsSound s
  pub durable : IsDurable base s

pub links_delta-IsSound : (n : Int64) (s : Inner) → IsSound s → IsSound (links_delta n s)
unfolding links_delta
links_delta-IsSound n s = IsSound-same {s = s} refl refl refl

pub log_created-IsSound :
    (w : World) (f : Aof → Aof) (s : Inner) → IsSound s → IsSound (log_created w f s)
log_created-IsSound w f s =
    IsSound-same {s = s} (shards-log_created w f s) (unfold log_created in ground arith)
      (unfold log_created in ground arith)

log_line-IsSound : (line : Bytes) (s : Inner) → IsSound s → IsSound (log_line line s)
unfolding log_line
log_line-IsSound line s = IsSound-same {s = s} (ground arith) (ground arith) (ground arith)

create-IsSound :
    (w : World) (c url : Bytes) (ttl : Int64) (s : Inner)
    → IsCalm w
    → IsSound s
    → IsSound (create w c url ttl s)
unfolding create
create-IsSound w c url ttl s h k = links_delta-IsSound 1 _ (
    log_created-IsSound w _ _ (
      emplace-IsSound c (new_entry url (w.now 0) (expires (w.now 0) ttl) s) s
        (unfold new_entry in record { created = h.clock 0; expiry = expires-lt (w.now 0) ttl }) k))

-- A row of this instance, as a change of the view.
pub own_row-Chunk :
    (c url : Bytes) (a e : Int64) (s : Inner)
    → IsCode c
    → a < 2 ^ 64
    → e < 2 ^ 64
    → IsSound s
    → Chunk
        (row_line c url a e (from_int s.instance_id) 0 ++ nl ∷ [])
        (view_put c (record { u = url; a = a; e = e; i = s.instance_id }))
own_row-Chunk c url a e s hc ha he k =
    subst
      (λ i.
        Chunk (row_line c url a e (from_int s.instance_id) 0 ++ nl ∷ [])
          (view_put c (record { u = url; a = a; e = e; i = i })))
      (int_of_instance s k)
      (row-Chunk c url a e (from_int s.instance_id) 0 hc ha he (instance-lt s k) (omega arith))

-- The row that `create` logs.
created-Chunk :
    (w : World) (c url : Bytes) (ttl : Int64) (s : Inner)
    → IsCalm w
    → IsCode c
    → IsSound s
    → Chunk
        (row_line c url (w.now 0) (expires (w.now 0) ttl) (from_int s.instance_id) 0 ++ nl ∷ [])
        (view_put c (created_target w url ttl s))
unfolding created_target
created-Chunk w c url ttl s h hc k =
    own_row-Chunk c url (w.now 0) (expires (w.now 0) ttl) s hc (h.clock 0)
      (expires-lt (w.now 0) ttl) k

new_expiry-lt :
    (w : World) (ttl : Int64) (has_ttl : Bool) (e : Entry)
    → e.e < 2 ^ 64
    → new_expiry w ttl has_ttl e < 2 ^ 64
unfolding new_expiry
new_expiry-lt w ttl has_ttl e h = ground (arith, expires-lt (w.now 0) ttl)

pub aof-links_delta : (n : Int64) (s : Inner) → (links_delta n s).aof ≡ s.aof
unfolding links_delta
aof-links_delta n s = refl

module _ {base : Inner} where
  create-IsDurable :
      (w : World) (c url : Bytes) (ttl : Int64) (s : Inner)
      → IsCalm w
      → IsCode c
      → IsSound s
      → IsDurable base s
      → IsDurable base (create w c url ttl s)
  create-IsDurable w c url ttl s h hc k d =
      let line = row_line c url (w.now 0) (expires (w.now 0) ttl) (from_int s.instance_id) 0 in
      let fl = logged-flush_large w (push line d.log) h (unfold push in d.opened) in
      IsDurable-write (flush_large w (push line d.log)) d (created-Chunk w c url ttl s h hc k)
        (unfold create links_delta in
          log_created-aof w (push line) _ d.log (unfold emplace in d.has_log))
        fl.1 (fl.0 ∙ logged-push line d.log) (view-create w c url ttl s)

  pub create-IsKept :
      (w : World) (c url : Bytes) (ttl : Int64) (s : Inner)
      → IsCalm w
      → IsCode c
      → IsKept base s
      → IsKept base (create w c url ttl s)
  create-IsKept w c url ttl s h hc k = record {
    sound = create-IsSound w c url ttl s h k.sound;
    durable = create-IsDurable w c url ttl s h hc k.sound k.durable;
  }

  -- A command that appends one line in the buffer, behind a change of the index.
  log_line-IsDurable :
      {f : View → View} (line : Bytes) (s t : Inner)
      → Chunk (line ++ nl ∷ []) f
      → t.aof ≡ s.aof
      → view t ≡ f (view s)
      → IsDurable base s
      → IsDurable base (log_line line t)
  log_line-IsDurable line s t c ha hv d =
      IsDurable-write (push line d.log) d c (log_line-aof line t d.log (ha ∙ d.has_log))
        (unfold push in d.opened) (logged-push line d.log) (view-log_line line t ∙ hv)

  updated-IsKept :
      (w : World) (c url : Bytes) (exp : Int64) (e : Entry) (s : Inner)
      → exp < 2 ^ 64
      → IsCode c
      → entry? c s ≡ some e
      → e.i ≡ s.instance_id
      → IsKept base s
      → IsKept base (
          log_line
            (row_line c url e.a exp (from_int s.instance_id) 0)
            (emplace c (record e { u = url; e = exp }) s))
  updated-IsKept w c url exp e s he hc p q k = record {
    sound = log_line-IsSound _ _ (
        emplace-IsSound c (record e { u = url; e = exp }) s
          (record { created = (k.sound.entries c e p).created; expiry = he }) k.sound);
    durable =
        log_line-IsDurable (row_line c url e.a exp (from_int s.instance_id) 0) s _
          (own_row-Chunk c url e.a exp s hc (k.sound.entries c e p).created he k.sound)
          (unfold emplace in refl)
          (view-emplace c (record e { u = url; e = exp }) s
            ∙ ap (λ i. view_put c (record { u = url; a = e.a; e = exp; i = i }) (view s)) q)
          k.durable;
  }

  pub update-IsKept :
      (w : World) (c url : Bytes) (ttl : Int64) (has_ttl : Bool) (s : Inner)
      → IsCode c
      → IsKept base s
      → IsKept base (update w c url ttl has_ttl s).1
  update-IsKept w c url ttl has_ttl s hc k = elim (Option-cases (entry? c s)) [
    | inl p ↦ rw (update_missing w c url ttl has_ttl s p) k
    | inr (e, p) ↦ elim (ℕ_discrete e.i s.instance_id) [
      | yes q ↦ rw (update_ok w c url ttl has_ttl s e p q) (
          updated-IsKept w c url (new_expiry w ttl has_ttl e) e s
            (new_expiry-lt w ttl has_ttl e (k.sound.entries c e p).expiry) hc p q k)
      | no q ↦ rw (update_remote w c url ttl has_ttl s e p q) k
    ]
  ]

  removed-IsKept :
      (c : Bytes) (s : Inner)
      → IsCode c
      → IsKept base s
      → IsKept base (
          links_delta
            (2 ^ 64 - 1)
            (log_line (del_line c) (at_shard (shard_of c) (with_entries (erase c)) s)))
  removed-IsKept c s hc k =
      let t = log_line (del_line c) (at_shard (shard_of c) (with_entries (erase c)) s) in
      record {
        sound = links_delta-IsSound _ _ (log_line-IsSound _ _ (erase-IsSound c s k.sound));
        durable =
            IsDurable-same {s = t} (aof-links_delta (2 ^ 64 - 1) t)
              (view-links_delta (2 ^ 64 - 1) t)
              (log_line-IsDurable (del_line c) s _ (del-Chunk c hc) refl (view-erase c s)
                k.durable);
      }

  pub remove-IsKept :
      (c : Bytes) (s : Inner) → IsCode c → IsKept base s → IsKept base (remove c s).1
  remove-IsKept c s hc k = elim (Option-cases (entry? c s)) [
    | inl p ↦ rw (remove_missing c s p) k
    | inr (e, p) ↦ elim (ℕ_discrete e.i s.instance_id) [
      | yes q ↦ rw (remove_ok c s e p q) (removed-IsKept c s hc k)
      | no q ↦ rw (remove_remote c s e p q) k
    ]
  ]
