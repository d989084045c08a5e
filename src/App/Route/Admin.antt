-- ===== src/App/Route/Admin.antt =====
-- The PATCH and DELETE requests of `route` in src/app.cpp.
use shrt_cpp.Prelude.{
  Bool, true, false, [], ◌∷◌, Option, none, some, ◌≡◌, ◌≢◌, refl, sym, ap, arith, inl, inr,
  Bool-cases, Bytes, codes, bytes_eq, bytes_eq_iff, if◌then◌else◌,
}
use shrt_cpp.App.Checks.{admin_ok}
use shrt_cpp.App.Reply.{not_found}
use shrt_cpp.App.Route.{Backend, Env, Outcome, admin_request, route}

-- The token of a request is the setting ADMIN_TOKEN, and not empty.
unfoldable pub IsAdmin : Option Bytes → Bytes → Type 0
IsAdmin setting token = (setting ≡ some token) × (token ≢ [])

admin_ok-denied :
    (setting : Option Bytes) (token : Bytes)
    → ¬ IsAdmin setting token
    → admin_ok setting token ≡ false
unfolding admin_ok IsAdmin
admin_ok-denied none token h = refl
admin_ok-denied (some []) token h = refl
admin_ok-denied (some (b ∷ want)) token h = elim (Bool-cases (bytes_eq token (b ∷ want))) [
  | inl e ↦
      let p = (bytes_eq_iff token (b ∷ want)).0 e in
      absurd (h (ap some (sym p), λ q. ground (arith, p, q)))
  | inr e ↦ ground (arith, e)
]

module _ {S : Type 0} (st : Backend S) (env : Env) where
  admin_request_denied :
      (d : Bool) (pathname body token : Bytes) (s : S)
      → admin_ok env.admin_token token ≡ false
      → admin_request st env d pathname body token s ≡ Outcome.answer not_found s
  unfolding admin_request
  admin_request_denied d pathname body token s h = rw (h) (ground arith)

  -- A PATCH or DELETE request whose token is not the one of the setting gets the answer 404 and changes
  -- nothing, whatever the store, the path and the body are. With no token set, or an empty one, no token
  -- is that of the setting, not even the empty one.
  pub route_denied :
      (is_delete : Bool) (path body token client : Bytes) (s : S)
      → ¬ IsAdmin env.admin_token token
      → route st env (if is_delete then codes "DELETE" else codes "PATCH") path body token client s
        ≡ Outcome.answer not_found s
  unfolding route bytes_eq
  route_denied true path body token client s h =
      admin_request_denied true _ body token s (admin_ok-denied env.admin_token token h)
  route_denied false path body token client s h =
      admin_request_denied false _ body token s (admin_ok-denied env.admin_token token h)
