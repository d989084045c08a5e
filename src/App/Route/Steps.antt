-- ===== src/App/Route/Steps.antt =====
-- The requests of `route` in src/app.cpp as steps of the in-process store.
use mathlib.Core.Path.{subst}
use shrt_cpp.Prelude.{
  ℕ, Bool, true, false, [], ◌∷◌, Option, none, some, ◌≡◌, ◌⊎◌, refl, inl, inr, arith, Bool-cases,
  Option-cases, List, Bytes, codes, drop, if◌then◌else◌,
}
use shrt_cpp.Store.State.{Inner, World, MutResult, ok, missing, remote}
use shrt_cpp.Store.Create.{shorten, shorten_many}
use shrt_cpp.Store.Access.{resolve, remove}
use shrt_cpp.Store.Sound.{IsCalm}
use shrt_cpp.Store.Bulk.{IsAlias}
use shrt_cpp.Store.History.{Step, shortened, bulk, resolved, updated, removed}
use shrt_cpp.App.Json.{J, nul, num, str, arr, obj, bool, find_key, jparse}
use shrt_cpp.App.Checks.{code_ok}
use shrt_cpp.App.Checks.Laws.{code_ok-IsCode}
use shrt_cpp.App.Request.{read_alias, read_ttl, read_url, bulk_urls, bulk_cost}
use shrt_cpp.App.Reply.{Reply, mk}
use shrt_cpp.App.Route
use shrt_cpp.App.Route.{
  Backend, Env, Outcome, answer, shorten_one, shorten_bulk, redirect, get_code, get_page,
  get_request, post_limited, post_body, post_request, mut_reply, patch_link, patch_body, admin_code,
  admin_request, route,
}
use shrt_cpp.App.Route.Local.{local_store}

-- The answer leaves the store as it was, or one step behind.
Within : Inner → Outcome Inner → Type 0
Within s (Outcome.answer r t) = (t ≡ s) ⊎ Step s t
Within s Outcome.threw = Unit
Within s Outcome.looping = Unit

same-Within : (s : Inner) (r : Reply) → Within s (Outcome.answer r s)
unfolding Within
same-Within s r = inl refl

threw-Within : (s : Inner) → Within s Outcome.threw
unfolding Within
threw-Within s = tt

if-Within :
    (s : Inner) (b : Bool) (x y : Outcome Inner)
    → Within s x
    → Within s y
    → Within s (if b then x else y)
if-Within s true x y hx hy = hx
if-Within s false x y hx hy = hy

read_alias-IsAlias : (o : Option J) (a : Option Bytes) → read_alias o ≡ some a → IsAlias a
unfolding read_alias
read_alias-IsAlias o none h = tt
read_alias-IsAlias (some (str c)) (some a) h = elim (Bool-cases (code_ok c)) [
  | inl p ↦ subst IsAlias {x = some c} {y = some a} (ground (arith, p, h)) (code_ok-IsCode c p).0
  | inr p ↦ absurd (ground (arith, p, h))
]
read_alias-IsAlias none (some a) h = cc
read_alias-IsAlias (some nul) (some a) h = cc
read_alias-IsAlias (some (num _)) (some a) h = cc
read_alias-IsAlias (some (arr _)) (some a) h = cc
read_alias-IsAlias (some (obj _)) (some a) h = cc
read_alias-IsAlias (some (bool _)) (some a) h = cc

shortened-Within :
    (s : Inner) (o : Option (Option Bytes × Inner))
    → ((r : Option Bytes) (t : Inner) → o ≡ some (r, t) → Step s t)
    → Within s (Route.shortened o)
unfolding Within Route.shortened
shortened-Within s none h = tt
shortened-Within s (some (none, t)) h = inr (h none t refl)
shortened-Within s (some (some c, t)) h = inr (h (some c) t refl)

shortened_many-Within :
    (s : Inner) (o : Option (List Bytes × Inner))
    → ((r : List Bytes) (t : Inner) → o ≡ some (r, t) → Step s t)
    → Within s (Route.shortened_many o)
unfolding Within Route.shortened_many
shortened_many-Within s none h = tt
shortened_many-Within s (some (r, t)) h = inr (h r t refl)

redirect-Within :
    (st : Backend Inner) (env : Env) (s : Inner) (o : Option Bytes × Inner)
    → Step s o.1
    → Within s (redirect st env o)
unfolding Within redirect
redirect-Within st env s (none, t) h = inr h
redirect-Within st env s (some u, t) h = inr h

mut_reply-Within :
    (s : Inner) (r : Reply) (o : MutResult × Inner) → Step s o.1 → Within s (mut_reply r o)
unfolding Within mut_reply
mut_reply-Within s r (ok, t) h = inr h
mut_reply-Within s r (missing, t) h = inr h
mut_reply-Within s r (remote, t) h = inr h

module _ (w : World) (fuel : ℕ) (env : Env) (calm : IsCalm w) where
  shorten_one-Within : (p : J) (s : Inner) → Within s (shorten_one (local_store w fuel) env p s)
  unfolding shorten_one
  shorten_one-Within p s = elim (Option-cases (read_url (find_key (codes "url") p))) [
    | inl e ↦ rw (e, shorten_one) (same-Within s _)
    | inr (u, e) ↦ elim (Option-cases (read_alias (find_key (codes "alias") p))) [
      | inl f ↦ rw (e, f, shorten_one) (same-Within s _)
      | inr (a, f) ↦ elim (Option-cases (read_ttl env.link_ttl_ms (find_key (codes "ttl_ms") p))) [
        | inl g ↦ rw (e, f, g, shorten_one) (same-Within s _)
        | inr (ttl, g) ↦
            rw (e, f, g, shorten_one)
              (shortened-Within s (shorten w fuel u a ttl s)
                λ r t q. shortened w fuel u a ttl r t calm (read_alias-IsAlias _ a f) q)
      ]
    ]
  ]

  shorten_bulk-Within : (p : J) (s : Inner) → Within s (shorten_bulk (local_store w fuel) env p s)
  unfolding shorten_bulk
  shorten_bulk-Within p s = elim (Option-cases (bulk_urls (find_key (codes "urls") p))) [
    | inl e ↦ rw (e, shorten_bulk) (same-Within s _)
    | inr (us, e) ↦
        rw (e, shorten_bulk)
          (shortened_many-Within s (shorten_many w fuel us env.link_ttl_ms s)
            λ r t q. bulk w fuel us env.link_ttl_ms r t calm q)
  ]

  get_code-Within :
      (pathname : Bytes) (s : Inner) → Within s (get_code (local_store w fuel) env pathname s)
  unfolding get_code
  get_code-Within [] s = threw-Within s
  get_code-Within (c ∷ code) s = elim (Bool-cases (code_ok code)) [
    | inl e ↦ rw e (
        redirect-Within (local_store w fuel) env s (resolve w code s)
          (resolved w code calm (code_ok-IsCode code e).0))
    | inr e ↦ rw e (same-Within s _)
  ]

  get_request-Within :
      (pathname query : Bytes) (s : Inner)
      → Within s (get_request (local_store w fuel) env pathname query s)
  unfolding get_request
  get_request-Within pathname query s =
      elim (Option-cases (get_page (local_store w fuel) env pathname query s)) [
        | inl e ↦ rw (e, get_request) (get_code-Within pathname s)
        | inr (r, e) ↦ rw (e, get_request) (same-Within s _)
      ]

  post_limited-Within :
      (one : Bool) (client : Bytes) (p : J) (s : Inner)
      → Within s (post_limited (local_store w fuel) env one client p s)
  unfolding post_limited
  post_limited-Within one client p s =
      if-Within s (env.allow client (if one then 1 else bulk_cost (find_key (codes "urls") p))) _ _
        (if-Within s one _ _ (shorten_one-Within p s) (shorten_bulk-Within p s)) (same-Within s _)

  post_body-Within :
      (one : Bool) (body client : Bytes) (s : Inner)
      → Within s (post_body (local_store w fuel) env one body client s)
  unfolding post_body
  post_body-Within one body client s = elim (Option-cases (jparse env.strtod body)) [
    | inl e ↦ rw (e, post_body) (same-Within s _)
    | inr (p, e) ↦ rw (e, post_body) (post_limited-Within one client p s)
  ]

  post_request-Within :
      (pathname body client : Bytes) (s : Inner)
      → Within s (post_request (local_store w fuel) env pathname body client s)
  unfolding post_request
  post_request-Within pathname body client s =
      if-Within s _ _ _ (post_body-Within _ body client s) (same-Within s _)

  patch_link-Within :
      (code : Bytes) (p : J) (s : Inner)
      → code_ok code ≡ true
      → Within s (patch_link (local_store w fuel) env code p s)
  unfolding patch_link
  patch_link-Within code p s h = elim (Option-cases (find_key (codes "url") p)) [
    | inl e ↦ rw (e, patch_link) (same-Within s _)
    | inr (u, e) ↦ elim (Option-cases (read_url (some u))) [
      | inl f ↦ rw (e, f, patch_link) (same-Within s _)
      | inr (url, f) ↦
          rw (e, f, patch_link)
            (mut_reply-Within s _ _ (updated w code url _ _ calm (code_ok-IsCode code h).0))
    ]
  ]

  patch_body-Within :
      (code body : Bytes) (s : Inner)
      → code_ok code ≡ true
      → Within s (patch_body (local_store w fuel) env code body s)
  unfolding patch_body
  patch_body-Within code body s h = elim (Option-cases (jparse env.strtod body)) [
    | inl e ↦ rw (e, patch_body) (same-Within s _)
    | inr (p, e) ↦ rw (e, patch_body) (patch_link-Within code p s h)
  ]

  admin_code-Within :
      (d : Bool) (code body : Bytes) (s : Inner)
      → Within s (admin_code (local_store w fuel) env d code body s)
  unfolding admin_code
  admin_code-Within d code body s = elim (Bool-cases (code_ok code)) [
    | inl e ↦ rw e (
        if-Within s d _ _
          (mut_reply-Within s (mk 204 []) (remove code s) (removed code (code_ok-IsCode code e).0))
          (patch_body-Within code body s e))
    | inr e ↦ rw e (same-Within s _)
  ]

  admin_request-Within :
      (d : Bool) (pathname body token : Bytes) (s : Inner)
      → Within s (admin_request (local_store w fuel) env d pathname body token s)
  unfolding admin_request
  admin_request-Within d pathname body token s =
      if-Within s _ _ _ (admin_code-Within d (drop 11 pathname) body s) (same-Within s _)

  route-Within :
      (method path body token client : Bytes) (s : Inner)
      → Within s (route (local_store w fuel) env method path body token client s)
  unfolding route
  route-Within method path body token client s = if-Within s _ _ _ (same-Within s _) (
      if-Within s _ _ _ (get_request-Within _ _ s) (
        if-Within s _ _ _ (post_request-Within _ body client s) (
          if-Within s _ _ _ (admin_request-Within false _ body token s)
            (if-Within s _ _ _ (admin_request-Within true _ body token s) (same-Within s _)))))

  pub route_step :
      (method path body token client : Bytes) (s : Inner) (r : Reply) (t : Inner)
      → route (local_store w fuel) env method path body token client s ≡ Outcome.answer r t
      → (t ≡ s) ⊎ Step s t
  unfolding Within
  route_step method path body token client s r t e =
      subst (Within s) e (route-Within method path body token client s)
