-- ===== src/Http/Conn/Queue/Interest.antt =====
-- A connection of the kqueue loop is never left without the event that will finish it.
use mathlib.Core.Path.{subst}
use shrt_cpp.Prelude.{
  ℕ, zero, suc, Bool, true, false, ◌&&◌, ◌||◌, not, [], ◌∷◌, ◌++◌, ltb, ◌==◌, ◌≡◌, ◌⊎◌, refl, arith,
  inl, inr, Bool-cases, Bytes, is_empty,
}
use shrt_cpp.App.Route.{Backend, Env, Outcome}
use shrt_cpp.Http.Conn.{Link}
use shrt_cpp.Http.Request.{ReqInfo, size_max, needs_body, body_limit, parse_req}
use shrt_cpp.Http.Conn.Queue.{
  KqConn, accepted, Step, kept, closed, crashed, stuck, Sent, took, again, failed, Event, readable,
  writable, answered, one, requests, arm, disarm, finish, read, written, handle, is_writable,
  on_event,
}

-- Write events are asked for just where output is pending, and a connection that is to be closed has
-- output pending.
pub record Interested (cn : KqConn) : Type 0 where
  pub asks : cn.want_write ≡ not (is_empty cn.wbuf)
  pub closes : cn.close_after ≡ true → is_empty cn.wbuf ≡ false

-- What is kept of a step satisfies `P`.
Kept : {S : Type 0} → (KqConn → Type 0) → Step S → Type 0
Kept P (kept cn s) = P cn
Kept P _ = Unit

-- Behind the requests of an event, before the write event is asked for: `b` is whether it was before.
Holds : Bool → KqConn → Type 0
Holds b cn = (cn.want_write ≡ b) × (b ≡ true → (is_empty cn.wbuf ≡ false) ⊎ (cn.close_after ≡ true))

-- Before the last step of an event.
Settled : KqConn → Type 0
Settled cn =
    (cn.want_write ≡ not (is_empty cn.wbuf)) ⊎ ((cn.close_after && is_empty cn.wbuf) ≡ true)

is_empty-append : (xs ys : Bytes) → is_empty xs ≡ false → is_empty (xs ++ ys) ≡ false
is_empty-append [] ys h = absurd (ground (arith, h))
is_empty-append (x ∷ xs) ys h = refl

module _ {S : Type 0} (st : Backend S) (env : Env) (link : Link) where
  finish-Kept : (p : Step S) → Kept Settled p → Kept Interested (finish st env link p)
  unfolding finish Kept Settled
  finish-Kept (kept cn s) h = elim (Bool-cases (cn.close_after && is_empty cn.wbuf)) [
    | inl e ↦ rw (e, finish, Kept) tt
    | inr e ↦
        rw (e, finish, Kept)
          (record { asks = ground (arith, h, e); closes = λ c. ground (arith, c, e) })
  ]
  finish-Kept (closed s) h = tt
  finish-Kept crashed h = tt
  finish-Kept stuck h = tt

  arm-Kept : (b : Bool) (p : Step S) → Kept (Holds b) p → Kept Settled (arm st env link p)
  unfolding arm Kept Settled Holds
  arm-Kept true (kept cn s) (w, h) = elim (h refl) [
    | inl e ↦ inl (ground (arith, w, e))
    | inr e ↦ elim (Bool-cases (is_empty cn.wbuf)) [
      | inl f ↦ inr (ground (arith, e, f))
      | inr f ↦ inl (ground (arith, w, f))
    ]
  ]
  arm-Kept false (kept cn s) (w, h) = inl (ground (arith, w))
  arm-Kept b (closed s) h = tt
  arm-Kept b crashed h = tt
  arm-Kept b stuck h = tt

  answered-Kept :
      (b : Bool) (rec_ : KqConn → S → Step S) (ri : ReqInfo) (cn : KqConn) (o : Outcome S)
      → ((cn' : KqConn) (s : S) → Holds b cn' → Kept (Holds b) (rec_ cn' s))
      → Holds b cn
      → Kept (Holds b) (answered st env link rec_ ri cn o)
  unfolding answered Kept Holds
  answered-Kept b rec_ ri cn (Outcome.answer r s) k (w, h) = elim (Bool-cases ri.alive) [
    | inl e ↦
        rw (e, answered)
          (k _ s (w, λ t. elim (h t) [ inl f ↦ inl (is_empty-append cn.wbuf _ f) | inr f ↦ inr f ]))
    | inr e ↦ rw (e, answered) (w, λ t. inr refl)
  ]
  answered-Kept b rec_ ri cn Outcome.threw k h = tt
  answered-Kept b rec_ ri cn Outcome.looping k h = tt

  one-Kept :
      (b : Bool) (rec_ : KqConn → S → Step S) (ri : ReqInfo) (cn : KqConn) (s : S)
      → ((cn' : KqConn) (s : S) → Holds b cn' → Kept (Holds b) (rec_ cn' s))
      → Holds b cn
      → Kept (Holds b) (one st env link rec_ ri cn s)
  unfolding one Kept Holds
  one-Kept b rec_ ri cn s k h = elim (Bool-cases (ri.total == 0)) [
    | inl e ↦ rw (e, one) h
    | inr e ↦ elim (Bool-cases (ri.total == size_max)) [
      | inl f ↦ rw (e, f, one) (h.0, λ t. inr refl)
      | inr f ↦ elim (Bool-cases (needs_body ri.method && ltb (body_limit ri.path) ri.body_len)) [
        | inl g ↦ rw (e, f, g, one) (h.0, λ t. inr refl)
        | inr g ↦ rw (e, f, g, one) (answered-Kept b rec_ ri cn _ k h)
      ]
    ]
  ]

  requests-Kept :
      (b : Bool) (fuel : ℕ) (cn : KqConn) (s : S)
      → Holds b cn
      → Kept (Holds b) (requests st env link fuel cn s)
  unfolding requests Kept
  requests-Kept b zero cn s h = h
  requests-Kept b (suc fuel) cn s h =
      one-Kept b (requests st env link fuel) (parse_req cn.rbuf) cn s (requests-Kept b fuel) h

  kept-Settled : (cn : KqConn) (s : S) → Interested cn → Kept Settled (kept cn s)
  unfolding Kept Settled
  kept-Settled cn s i = inl i.asks

  closed-Kept : (s : S) → Kept Interested (closed s)
  unfolding Kept
  closed-Kept s = tt

  kept_is : {cn : KqConn} (s : S) → Kept Interested (kept cn s) → Interested cn
  unfolding Kept
  kept_is s i = i

  written-Kept :
      (w : Sent) (cn : KqConn) (s : S)
      → is_empty cn.wbuf ≡ false
      → Interested cn
      → Kept Settled (written st env link w cn s)
  unfolding written disarm Kept Settled
  written-Kept (took n) cn s e i = inl (ground (arith, e, i.asks))
  written-Kept again cn s e i = inl (ground (arith, e, i.asks))
  written-Kept failed cn s e i = tt

  handle-Kept :
      (e : Event) (cn : KqConn) (s : S) → Interested cn → Kept Settled (handle st env link e cn s)
  unfolding handle read written Holds
  handle-Kept (readable bytes ended) cn s i =
      arm-Kept cn.want_write _
        (requests-Kept cn.want_write _ _ s (refl, λ t. inl (ground (arith, t, i.asks))))
  handle-Kept (writable w) cn s i = elim (Bool-cases (is_empty cn.wbuf)) [
    | inl e ↦ rw (e, handle) (kept-Settled cn s i)
    | inr e ↦ rw (e, handle) (written-Kept w cn s e i)
  ]

  on_event-Kept :
      (gone : Bool) (e : Event) (cn : KqConn) (s : S)
      → Interested cn
      → Kept Interested (on_event st env link gone e cn s)
  unfolding on_event
  on_event-Kept gone e cn s i =
      elim (Bool-cases (gone && (is_writable st env link e || is_empty cn.wbuf))) [
        | inl f ↦ rw (f, on_event) (closed-Kept s)
        | inr f ↦ rw (f, on_event) (finish-Kept _ (handle-Kept e cn s i))
      ]

  -- The states of one connection, from when it was accepted; between two events the other connections may
  -- change the store.
  pub data Open : KqConn → S → Type 0 where
    opened : (s : S) → Open accepted s
    later :
        {cn cn' : KqConn} {s s' : S} (gone : Bool) (e : Event) (t : S)
        → on_event st env link gone e cn t ≡ kept cn' s'
        → Open cn s
        → Open cn' s'

  -- No connection is forgotten: as long as a connection of the kqueue loop is open, whatever has arrived,
  -- whatever was sent and however often, it asks for write events just where it has output pending, and
  -- if it is to be closed, it has output pending, so that a write event will come and close it.
  pub Open-Interested : {cn : KqConn} {s : S} → Open cn s → Interested cn
  Open-Interested (opened s) = record { asks = refl; closes = λ c. ground (arith, c) }
  Open-Interested (later gone e t h o) =
      kept_is _ (subst (Kept Interested) h (on_event-Kept gone e _ t (Open-Interested o)))
