-- ===== src/Store/Effects.antt =====
-- What the operations of src/store.cpp do to the entry of every code.
use shrt_cpp.Prelude.{
  ℕ, ◌-◌, ◌^◌, Bool, true, Option, none, some, ◌≡◌, refl, ◌∙◌, arith, inl, inr, Bool-cases,
  Option-cases, Bytes, bytes_eq, Int64, add64, from_int, ◌==◌, ==_iff, if◌then◌else◌, erase,
}
use shrt_cpp.Codec.Line.{row_line, del_line}
use shrt_cpp.Store.State.{ok, Entry, Inner, World, shard_of, entry?, at_shard}
use shrt_cpp.Store.Apply.{with_entries, add_hits}
use shrt_cpp.Store.Create.{
  expires, new_entry, emplace, fresh_code, log_created, links_delta, create, shorten,
}
use shrt_cpp.Store.Access.{
  is_live, mark_dirty, count_hit, resolve, log_line, new_expiry, update, remove,
}
use shrt_cpp.Store.Index.{entry?-emplace, entry?-erase}
use shrt_cpp.Store.Branches.{update_ok, remove_ok, resolve_live}
use shrt_cpp.Store.Fresh.{fresh_code_sound}

entry?-links_delta : (n : Int64) (j : Bytes) (s : Inner) → entry? j (links_delta n s) ≡ entry? j s
unfolding entry? links_delta
entry?-links_delta n j s = refl

entry?-log_created :
    (w : World) (f : _) (j : Bytes) (s : Inner) → entry? j (log_created w f s) ≡ entry? j s
unfolding entry? log_created
entry?-log_created w f j s = ground arith

entry?-log_line : (l : Bytes) (j : Bytes) (s : Inner) → entry? j (log_line l s) ≡ entry? j s
unfolding entry? log_line
entry?-log_line l j s = ground arith

entry?-mark_dirty :
    (c : Bytes) (k : ℕ) (j : Bytes) (s : Inner)
    → entry? j (at_shard k (mark_dirty c) s) ≡ entry? j s
unfolding entry? mark_dirty
entry?-mark_dirty c k j s = ground arith

entry?-set_rng : (r : ℕ) (j : Bytes) (s : Inner) → entry? j (record s { rng = r }) ≡ entry? j s
unfolding entry?
entry?-set_rng r j s = refl

entry?-create :
    (w : World) (c url : Bytes) (ttl : Int64) (j : Bytes) (s : Inner)
    → entry? j (create w c url ttl s) ≡ (
        if bytes_eq c j
        then some (new_entry url (w.now 0) (expires (w.now 0) ttl) s)
        else entry? j s)
unfolding create
entry?-create w c url ttl j s =
    entry?-links_delta 1 j _ ∙ entry?-log_created w _ j _ ∙ entry?-emplace c j _ s

-- When shorten returns a code, no entry stood under it before; after it the code has the url, the
-- clock's time, the expiry from the time to live, no hits and this instance as its owner, and every
-- other code has what it had. This is so for an alias and for a drawn code.
pub shorten_effect :
    (w : World) (fuel : ℕ) (url : Bytes) (alias : Option Bytes) (ttl : Int64) (s : Inner)
    (c : Bytes) (t : Inner) (j : Bytes)
    → shorten w fuel url alias ttl s ≡ some (some c, t)
    → (entry? c s ≡ none)
      × (entry? j t ≡ (
          if bytes_eq c j
          then some (record {
            u = url;
            a = w.now 0;
            e = expires (w.now 0) ttl;
            i = s.instance_id;
            h = 0;
            oh = 0;
          })
          else entry? j s))
unfolding shorten new_entry
shorten_effect w fuel url (some a) ttl s c t j h = elim (Option-cases (entry? a s)) [
  | inl p ↦ ground (arith, entry?-create w a url ttl j s)
  | inr (f, p) ↦ absurd (ground (arith, p, h))
]
shorten_effect w fuel url none ttl s c t j h = elim (Option-cases (fresh_code fuel s)) [
  | inl p ↦ absurd (ground (arith, p, h))
  | inr ((d, s'), p) ↦
      let f = fresh_code_sound fuel s d s' p in
      ground (arith, p, h, f.1, f.2, entry?-create w d url ttl j s', entry?-set_rng s'.rng j s)
]

-- An alias that has an entry is refused, and nothing changes.
pub shorten_taken :
    (w : World) (fuel : ℕ) (url alias : Bytes) (ttl : Int64) (s : Inner) (e : Entry)
    → entry? alias s ≡ some e
    → shorten w fuel url (some alias) ttl s ≡ some (none, s)
unfolding shorten
shorten_taken w fuel url alias ttl s e p = ground arith

-- Resolving a code that is not expired yields its url and, where hits are tracked, adds exactly one
-- to the code's hits and own hits; the entries of all other codes stay as they are.
pub resolve_effect :
    (w : World) (s : Inner) (c : Bytes) (e : Entry) (j : Bytes)
    → entry? c s ≡ some e
    → is_live (w.now 0) e ≡ true
    → ((resolve w c s).0 ≡ some e.u)
      × (entry? j (resolve w c s).1 ≡ (
          if w.track_hits
          then (if bytes_eq c j
              then some (record e { h = add64 e.h 1; oh = add64 e.oh 1 })
              else entry? j s)
          else entry? j s))
unfolding count_hit add_hits
resolve_effect w s c e j p q = ground (
  arith,
  resolve_live w c s e p q,
  entry?-mark_dirty c (shard_of c) j (emplace c (add_hits 1 true e) s),
  entry?-emplace c j (add_hits 1 true e) s,
)

-- An update that succeeds is one of the owner's; it sets the url and, where a time to live is given,
-- the expiry, keeps the creation time and the hits in memory, and leaves all other codes alone.
pub update_effect :
    (w : World) (c url : Bytes) (ttl : Int64) (has_ttl : Bool) (s t : Inner) (j : Bytes)
    → update w c url ttl has_ttl s ≡ (ok, t)
    → (e : Entry) × (entry? c s ≡ some e)
      × (e.i ≡ s.instance_id)
      × (entry? j t ≡ (
          if bytes_eq c j
          then some (record e { u = url; e = if has_ttl then expires (w.now 0) ttl else e.e })
          else entry? j s))
update_effect w c url ttl has_ttl s t j h = elim (Option-cases (entry? c s)) [
  | inl p ↦ absurd (unfold update in ground (arith, p, h))
  | inr (e, p) ↦ elim (Bool-cases (e.i == s.instance_id)) [
    | inl q ↦ (
      e,
      p,
      ground (arith, q),
      unfold new_expiry in
          ground (
            arith,
            h,
            update_ok w c url ttl has_ttl s e p ((==_iff e.i s.instance_id).0 q),
            entry?-log_line
                (row_line c url e.a (new_expiry w ttl has_ttl e) (from_int s.instance_id) 0) j
                (emplace c (record e { u = url; e = new_expiry w ttl has_ttl e }) s),
            entry?-emplace c j (record e { u = url; e = new_expiry w ttl has_ttl e }) s,
          ),
    )
    | inr q ↦ absurd (unfold update in ground (arith, p, q, h))
  ]
]

-- A removal that succeeds is one of the owner's; the code has no entry behind it, and every other code
-- has what it had.
pub remove_effect :
    (c : Bytes) (s t : Inner) (j : Bytes)
    → remove c s ≡ (ok, t)
    → (e : Entry) × (entry? c s ≡ some e)
      × (e.i ≡ s.instance_id)
      × (entry? j t ≡ (if bytes_eq c j then none else entry? j s))
remove_effect c s t j h = elim (Option-cases (entry? c s)) [
  | inl p ↦ absurd (unfold remove in ground (arith, p, h))
  | inr (e, p) ↦ elim (Bool-cases (e.i == s.instance_id)) [
    | inl q ↦ (
      e,
      p,
      ground (arith, q),
      ground (
        arith,
        h,
        remove_ok c s e p ((==_iff e.i s.instance_id).0 q),
        entry?-links_delta (2 ^ 64 - 1) j
            (log_line (del_line c) (at_shard (shard_of c) (with_entries (erase c)) s)),
        entry?-log_line (del_line c) j (at_shard (shard_of c) (with_entries (erase c)) s),
        entry?-erase c j s,
      ),
    )
    | inr q ↦ absurd (unfold remove in ground (arith, p, q, h))
  ]
]
