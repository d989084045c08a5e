-- ===== src/Examples/Requests.antt =====
-- Concrete runs of the theorems on requests and bodies.
use shrt_cpp.Prelude.{
  List, ◌≤◌, true, [], none, some, ◌≡◌, ◌≢◌, refl, arith, Bytes, codes, bytes_eq, starts_with,
  split_at, length, if◌then◌else◌,
}
use shrt_cpp.Store.State.{Inner}
use shrt_cpp.Store.Persist.{flush_locked, open_dir}
use shrt_cpp.Store.Views.{view}
use shrt_cpp.Store.Chunks.{IsCode}
use shrt_cpp.Store.Recovery.{log_file}
use shrt_cpp.App.Json.{
  Strtod, out_of_fuel, Mode, parse, parse_fuel, jparse, J, str, obj, member, no_members, whole,
  parse_step, read_value, ws, open_obj, read_member, read_str, str_body, out_before, after_key,
  add_member, push_member, after_member, as_str, find_key, find_member,
}
use shrt_cpp.App.Json.Fuel.{parse_fuel_enough}
use shrt_cpp.App.Checks
use shrt_cpp.App.Checks.{code_ok}
use shrt_cpp.App.Checks.Laws.{code_ok-IsCode}
use shrt_cpp.App.Request.{read_url, read_alias, read_ttl}
use shrt_cpp.App.Reply.{mk, not_found, created_json}
use shrt_cpp.App.Route
use shrt_cpp.App.Route.{Env, Outcome, route}
use shrt_cpp.App.Route.Local.{local_store}
use shrt_cpp.App.Route.Admin.{IsAdmin, route_denied}
use shrt_cpp.App.Route.Served.{started, answered, answers-survive}
use shrt_cpp.Examples.{
  calm_world, calm_world-IsCalm, abc, some_url, empty_store, one_link, abc_created,
}

-- No number stands in the bodies below.
abbrev no_number : Strtod
no_number = λ s. none

abbrev pub settings : Env
settings = record {
  link_ttl_ms = 0;
  admin_token = some (codes "s");
  ui_html = [];
  metrics_json = [];
  prometheus = [];
  allow = λ c n. true;
  strtod = no_number;
}

abbrev post_body_text : Bytes
post_body_text = codes "{\"url\":\"http://x\",\"alias\":\"abc\"}"

abbrev post_json : J
post_json = obj (member (codes "url") (str some_url) (member (codes "alias") (str abc) no_members))

body_parsed : jparse no_number post_body_text ≡ some post_json
unfolding jparse whole parse parse_step read_value ws open_obj read_member read_str str_body
    out_before after_key add_member push_member after_member as_str
body_parsed = refl

json_url_ok : read_url (find_key (codes "url") post_json) ≡ some some_url
unfolding read_url find_key find_member bytes_eq Checks.is_valid_url Checks.scheme starts_with
    Checks.host_ok Checks.host_of Checks.all_bytes
json_url_ok = refl

json_alias_ok : read_alias (find_key (codes "alias") post_json) ≡ some (some abc)
unfolding read_alias find_key find_member bytes_eq code_ok Checks.all_bytes
json_alias_ok = refl

json_ttl_ok : read_ttl 0 (find_key (codes "ttl_ms") post_json) ≡ some 0
unfolding read_ttl find_key find_member bytes_eq
json_ttl_ok = refl

one_shortened :
    Route.shorten_one (local_store calm_world 1) settings post_json empty_store
    ≡ Outcome.answer (mk 201 (created_json abc)) one_link
unfolding Route.shorten_one Route.shortened
one_shortened = rw (json_url_ok, json_alias_ok, json_ttl_ok, abc_created, Route.shorten_one) refl

post_answered :
    Route.post_body (local_store calm_world 1) settings true post_body_text [] empty_store
    ≡ Outcome.answer (mk 201 (created_json abc)) one_link
unfolding Route.post_body Route.post_limited
post_answered = rw (body_parsed, Route.post_body) one_shortened

posted :
    route
      (local_store calm_world 1)
      settings
      (codes "POST")
      (codes "/api/shorten")
      post_body_text
      []
      []
      empty_store
    ≡ Outcome.answer (mk 201 (created_json abc)) one_link
unfolding Route.route Route.split_path split_at bytes_eq Route.post_request
posted = post_answered

answers-survive_example :
    (t : Inner) × (open_dir calm_world 0 9 (log_file (flush_locked calm_world one_link)) []
      ≡ some t)
    × (view t ≡ view one_link)
answers-survive_example =
    answers-survive 0 5 9 calm_world calm_world one_link (omega arith) calm_world-IsCalm
      calm_world-IsCalm
      (answered calm_world 1 settings (codes "POST") (codes "/api/shorten") post_body_text [] []
        (mk 201 (created_json abc)) started calm_world-IsCalm posted)

parse_fuel_enough_example :
    parse no_number (parse_fuel post_body_text) Mode.value post_body_text ≢ out_of_fuel
parse_fuel_enough_example = parse_fuel_enough no_number post_body_text λ s n r e. cc

code_ok-IsCode_example : IsCode (codes "a_1-Z") × (length (codes "a_1-Z") ≤ 64)
code_ok-IsCode_example = code_ok-IsCode (codes "a_1-Z") (unfold code_ok Checks.all_bytes in refl)

-- A server on which no token is set.
abbrev no_token : Env
no_token = record settings { admin_token = none }

-- A request without a token is denied where none is set.
route_denied_example :
    route
      (local_store calm_world 1)
      no_token
      (if true then codes "DELETE" else codes "PATCH")
      (codes "/api/links/abc")
      []
      []
      []
      one_link
    ≡ Outcome.answer not_found one_link
route_denied_example =
    route_denied (local_store calm_world 1) no_token true (codes "/api/links/abc") [] [] [] one_link
      (unfold IsAdmin in λ h. ground (arith, h.0))
