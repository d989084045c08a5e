-- ===== src/App/Route.antt =====
-- `route`, `handle`, `shorten_one` and `shorten_bulk` of src/app.cpp, over the operations that the
-- class `Store` of src/store.hpp passes on to its back end.
pub mod Local
pub mod Admin
pub mod Steps
pub mod Served
use shrt_cpp.Prelude.{
  ℕ, Bool, true, false, ◌&&◌, ◌||◌, List, [], ◌∷◌, Option, none, some, Bytes, codes, Int64, min64,
  find, is_empty, drop, bytes_eq, starts_with, split_at, if◌then◌else◌,
}
use shrt_cpp.Store.State.{Link, MutResult, ok, missing, remote}
use shrt_cpp.App.Json.{Strtod, J, num, find_key, jparse}
use shrt_cpp.App.Checks.{code_ok, parse_query, admin_ok}
use shrt_cpp.App.Request.{
  bulk_msg, read_alias, read_ttl, read_url, bulk_urls, bulk_cost, param_is_hits, param_text,
  list_limit, list_offset,
}
use shrt_cpp.App.Reply.{
  Reply, mk, bad, json_error, not_found, link_json, links_json, created_json, bulk_json,
}

-- The operations of a store with state `S`. `shorten` and `shorten_many` look for a free code in a
-- loop; their outer none is a loop that has not ended.
pub record Backend (S : Type 0) : Type 0 where
  pub healthy : S → Bool
  pub resolve : Bytes → S → Option Bytes × S
  pub shorten : Bytes → Option Bytes → Int64 → S → Option (Option Bytes × S)
  pub shorten_many : List Bytes → Int64 → S → Option (List Bytes × S)
  pub update : Bytes → Bytes → Int64 → Bool → S → MutResult × S
  pub remove : Bytes → S → MutResult × S
  pub list : ℕ → ℕ → Bool → Bytes → S → List Link × ℕ
  pub stats : Bytes → S → Option Link

-- LINK_TTL_MS and ADMIN_TOKEN, the page and the reports of the other files, and the answer of the
-- rate limiter to a client and a cost.
pub record Env : Type 0 where
  pub link_ttl_ms : Int64
  pub admin_token : Option Bytes
  pub ui_html : Bytes
  pub metrics_json : Bytes
  pub prometheus : Bytes
  pub allow : Bytes → ℕ → Bool
  pub strtod : Strtod

-- What a handler comes to: an answer and the store behind it, the exception that a substr behind the
-- end of the path throws, or a loop that has not ended.
pub data Outcome (S : Type 0) : Type 0 where
  answer : Reply → S → Outcome S
  threw : Outcome S
  looping : Outcome S

module _ {S : Type 0} where
  unfoldable pub shortened : Option (Option Bytes × S) → Outcome S
  shortened none = Outcome.looping
  shortened (some (none, s)) = Outcome.answer (mk 409 (json_error (codes "alias taken"))) s
  shortened (some (some code, s)) = Outcome.answer (mk 201 (created_json code)) s

  unfoldable pub shortened_many : Option (List Bytes × S) → Outcome S
  shortened_many none = Outcome.looping
  shortened_many (some (xs, s)) = Outcome.answer (mk 201 (bulk_json xs)) s

  unfoldable pub mut_reply : Reply → MutResult × S → Outcome S
  mut_reply done (ok, s) = Outcome.answer done s
  mut_reply done (missing, s) = Outcome.answer not_found s
  mut_reply done (remote, s) =
      Outcome.answer (mk 409 (json_error (codes "owned by another instance"))) s

module _ {S : Type 0} (st : Backend S) (env : Env) where
  unfoldable pub shorten_one : J → S → Outcome S
  shorten_one p s = elim (read_url (find_key (codes "url") p)) [
    | none ↦ Outcome.answer (bad (codes "invalid url")) s
    | some u ↦ elim (read_alias (find_key (codes "alias") p)) [
      | none ↦ Outcome.answer (bad (codes "invalid alias")) s
      | some alias ↦ elim (read_ttl env.link_ttl_ms (find_key (codes "ttl_ms") p)) [
        | none ↦ Outcome.answer (bad (codes "invalid ttl_ms")) s
        | some ttl ↦ shortened (st.shorten u alias ttl s)
      ]
    ]
  ]

  unfoldable pub shorten_bulk : J → S → Outcome S
  shorten_bulk p s = elim (bulk_urls (find_key (codes "urls") p)) [
    | none ↦ Outcome.answer (bad bulk_msg) s
    | some us ↦ shortened_many (st.shorten_many us env.link_ttl_ms s)
  ]

  unfoldable pub list_links : Bytes → S → Reply
  list_links query s =
      let p = parse_query query in
      let by_hits = param_is_hits (find (codes "sort") p) in
      let q = param_text (find (codes "q") p) in
      let (links, total) = st.list (list_limit p) (list_offset p) by_hits q s in
      mk 200 (links_json links total)

  unfoldable pub redirect : Option Bytes × S → Outcome S
  redirect (none, s) = Outcome.answer not_found s
  redirect (some target, s) =
      Outcome.answer (record { status = 302; location = some target; body = []; ctype = none }) s

  unfoldable pub get_code : Bytes → S → Outcome S
  get_code [] s = Outcome.threw
  get_code (c ∷ code) s =
      if code_ok code then redirect (st.resolve code s) else Outcome.answer not_found s

  unfoldable pub get_page : Bytes → Bytes → S → Option Reply
  get_page pathname query s =
      if bytes_eq pathname (codes "/api/health")
      then some
          (if st.healthy s then mk 200 (codes "{\"ok\":true}") else mk 503 (codes "{\"ok\":false}"))
      else if bytes_eq pathname (codes "/api/metrics")
      then some (mk 200 env.metrics_json)
      else if bytes_eq pathname (codes "/metrics")
      then some (record {
        status = 200;
        location = none;
        body = env.prometheus;
        ctype = some (codes "text/plain; version=0.0.4");
      })
      else if bytes_eq pathname (codes "/")
      then some (
          if is_empty env.ui_html then not_found else record {
            status = 200;
            location = none;
            body = env.ui_html;
            ctype = some (codes "text/html; charset=utf-8");
          })
      else if bytes_eq pathname (codes "/api/links")
      then some (list_links query s)
      else if starts_with pathname (codes "/api/stats/")
      then some (elim (st.stats (drop 11 pathname) s) [
        | none ↦ not_found
        | some l ↦ mk 200 (link_json l)
      ])
      else none

  unfoldable pub get_request : Bytes → Bytes → S → Outcome S
  get_request pathname query s = elim (get_page pathname query s) [
    | some r ↦ Outcome.answer r s
    | none ↦ get_code pathname s
  ]

  -- `one` tells the single from the bulk request.
  unfoldable pub post_limited : Bool → Bytes → J → S → Outcome S
  post_limited one client p s =
      if env.allow client (if one then 1 else bulk_cost (find_key (codes "urls") p))
      then if one then shorten_one p s else shorten_bulk p s
      else Outcome.answer (mk 429 (json_error (codes "rate limited"))) s

  unfoldable pub post_body : Bool → Bytes → Bytes → S → Outcome S
  post_body one body client s = elim (jparse env.strtod body) [
    | none ↦ Outcome.answer (bad (codes "invalid json")) s
    | some p ↦ post_limited one client p s
  ]

  unfoldable pub post_request : Bytes → Bytes → Bytes → S → Outcome S
  post_request pathname body client s =
      let one = bytes_eq pathname (codes "/api/shorten") in
      if one || bytes_eq pathname (codes "/api/shorten/bulk")
      then post_body one body client s
      else Outcome.answer not_found s

  -- The new time to live and whether one was given; it is not checked to be positive here.
  unfoldable pub patch_ttl : Option J → Int64 × Bool
  patch_ttl (some (num n)) = (min64 n.to_int64 env.link_ttl_ms, true)
  patch_ttl _ = (0, false)

  unfoldable pub patch_link : Bytes → J → S → Outcome S
  patch_link code p s = elim (find_key (codes "url") p) [
    | none ↦ Outcome.answer (bad (codes "nothing to update")) s
    | some u ↦ elim (read_url (some u)) [
      | none ↦ Outcome.answer (bad (codes "invalid url")) s
      | some url ↦
          (let (ttl, has_ttl) = patch_ttl (find_key (codes "ttl_ms") p) in
            mut_reply (mk 200 (codes "{\"ok\":true}")) (st.update code url ttl has_ttl s))
    ]
  ]

  unfoldable pub patch_body : Bytes → Bytes → S → Outcome S
  patch_body code body s = elim (jparse env.strtod body) [
    | none ↦ Outcome.answer (bad (codes "invalid json")) s
    | some p ↦ patch_link code p s
  ]

  unfoldable pub admin_code : Bool → Bytes → Bytes → S → Outcome S
  admin_code is_delete code body s =
      if code_ok code
      then if is_delete then mut_reply (mk 204 []) (st.remove code s) else patch_body code body s
      else Outcome.answer (bad (codes "invalid code")) s

  unfoldable pub admin_request : Bool → Bytes → Bytes → Bytes → S → Outcome S
  admin_request is_delete pathname body token s =
      if starts_with pathname (codes "/api/links/") && admin_ok env.admin_token token
      then admin_code is_delete (drop 11 pathname) body s
      else Outcome.answer not_found s

  unfoldable pub split_path : Bytes → Bytes × Bytes
  split_path path = elim (split_at b'?' path) [ none ↦ (path, []) | some xy ↦ xy ]

  -- `handle` counts the status in the metrics and is otherwise the same.
  unfoldable pub route : Bytes → Bytes → Bytes → Bytes → Bytes → S → Outcome S
  route method path body token client s =
      let (pathname, query) = split_path path in
      if bytes_eq method (codes "OPTIONS")
      then Outcome.answer (mk 204 []) s
      else if bytes_eq method (codes "GET")
      then get_request pathname query s
      else if bytes_eq method (codes "POST")
      then post_request pathname body client s
      else if bytes_eq method (codes "PATCH")
      then admin_request false pathname body token s
      else if bytes_eq method (codes "DELETE")
      then admin_request true pathname body token s
      else Outcome.answer not_found s
