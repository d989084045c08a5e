-- ===== src/Examples.antt =====
-- Concrete runs of the theorems: a store with one link, log lines, buffers and requests.
pub mod Requests
pub mod Engines
pub mod Servers
pub mod Texts
use shrt_cpp.Prelude.{
  ◌^◌, ◌<◌, true, false, [], none, some, ◌≡◌, refl, arith, Bytes, codes, from_int, bytes_eq, add64,
  find, if◌then◌else◌, length, sym, ap,
}
use shrt_cpp.Codec.Line.{Op}
use shrt_cpp.Codec.Parse.{no_op}
use shrt_cpp.Aof.{Aof, push}
use shrt_cpp.Store.Tally.{tally, apply_tally, tally-apply}
use shrt_cpp.Store.State.{max_stray_hits, ok, Entry, Inner, World, entry?}
use shrt_cpp.Store.Apply.{apply, apply_line}
use shrt_cpp.Store.Create.{
  expires, emplace, links_delta, log_created, create, shorten, fresh_code, gen_code,
}
use shrt_cpp.Store.Access.{count_hit, resolve, update, remove}
use shrt_cpp.Store.Persist.{flush_locked, open_dir, fresh}
use shrt_cpp.Store.Views.{view}
use shrt_cpp.Store.Chunks.{IsCode}
use shrt_cpp.Store.Sound.{IsCalm}
use shrt_cpp.Store.Branches.{resolve_live, update_ok, remove_ok}
use shrt_cpp.Store.History.{shortened, Reach, here, next, new_store}
use shrt_cpp.Store.Recovery.{log_file, restart-recovers}
use shrt_cpp.Store.Effects.{shorten_effect, resolve_effect, update_effect, remove_effect}
use shrt_cpp.Store.Forgets.{update_forgets}
use shrt_cpp.Store.Fresh.{IsGenerated, fresh_code_sound, fresh_code_total}

abbrev pub calm_world : World
calm_world = record {
  now = λ k. 1000;
  track_hits = true;
  accept = λ k. 7;
  files = λ f. [];
  listing = [];
}

pub calm_world-IsCalm : IsCalm calm_world
calm_world-IsCalm = record {
  writes = λ k. omega arith;
  clock = λ k. omega arith;
  alone = λ f. refl;
}

abbrev pub abc : Bytes
abc = codes "abc"

abbrev pub some_url : Bytes
some_url = codes "http://x"

abbrev pub other_url : Bytes
other_url = codes "http://y"

abbrev pub empty_store : Inner
empty_store = new_store 0 5

abbrev pub one_link : Inner
one_link = create calm_world abc some_url 0 empty_store

abc-IsCode : IsCode abc
abc-IsCode = record { filled = cc; plain = ground arith }

pub abc_created : shorten calm_world 1 some_url (some abc) 0 empty_store ≡ some (some abc, one_link)
unfolding shorten entry? find fresh
abc_created = refl

abbrev the_entry : Entry
the_entry = record { u = some_url; a = 1000; e = 0; i = 0; h = 0; oh = 0 }

abc_entry : entry? abc one_link ≡ some the_entry
unfolding bytes_eq expires fresh
abc_entry =
    (shorten_effect calm_world 1 some_url (some abc) 0 empty_store abc one_link abc abc_created).1

abc_reached : Reach empty_store one_link
abc_reached = next here (
    shortened calm_world 1 some_url (some abc) 0 (some abc) one_link calm_world-IsCalm abc-IsCode
      abc_created)

restart-recovers_example :
    (t : Inner) × (open_dir calm_world 0 9 (log_file (flush_locked calm_world one_link)) []
      ≡ some t)
    × (view t ≡ view one_link)
restart-recovers_example =
    restart-recovers 0 5 9 calm_world calm_world one_link (omega arith) calm_world-IsCalm
      calm_world-IsCalm abc_reached

shorten_effect_example :
    (entry? abc empty_store ≡ none)
    × (entry? abc one_link ≡ (
        if bytes_eq abc abc
        then some (record {
          u = some_url;
          a = 1000;
          e = expires 1000 0;
          i = empty_store.instance_id;
          h = 0;
          oh = 0;
        })
        else entry? abc empty_store))
shorten_effect_example =
    shorten_effect calm_world 1 some_url (some abc) 0 empty_store abc one_link abc abc_created

resolve_effect_example :
    ((resolve calm_world abc one_link).0 ≡ some some_url)
    × (entry? abc (resolve calm_world abc one_link).1 ≡ (
        if bytes_eq abc abc
        then some (record the_entry { h = add64 0 1; oh = add64 0 1 })
        else entry? abc one_link))
resolve_effect_example = resolve_effect calm_world one_link abc the_entry abc abc_entry refl

one_link_owner : 0 ≡ one_link.instance_id
unfolding create fresh links_delta log_created emplace
one_link_owner = refl

abc_updated :
    update calm_world abc other_url 0 false one_link
    ≡ (ok, (update calm_world abc other_url 0 false one_link).1)
abc_updated =
    rw (update_ok calm_world abc other_url 0 false one_link the_entry abc_entry one_link_owner) refl

abc_removed : remove abc one_link ≡ (ok, (remove abc one_link).1)
abc_removed = rw (remove_ok abc one_link the_entry abc_entry one_link_owner) refl

update_effect_example :
    (e : Entry) × (entry? abc one_link ≡ some e)
    × (e.i ≡ one_link.instance_id)
    × (entry? abc (update calm_world abc other_url 0 false one_link).1 ≡ (
        if bytes_eq abc abc
        then some (record e { u = other_url; e = if false then expires 1000 0 else e.e })
        else entry? abc one_link))
update_effect_example =
    update_effect calm_world abc other_url 0 false one_link
      (update calm_world abc other_url 0 false one_link).1 abc abc_updated

remove_effect_example :
    (e : Entry) × (entry? abc one_link ≡ some e)
    × (e.i ≡ one_link.instance_id)
    × (entry? abc (remove abc one_link).1
        ≡ (if bytes_eq abc abc then none else entry? abc one_link))
remove_effect_example = remove_effect abc one_link (remove abc one_link).1 abc abc_removed

-- The link after one hit.
abbrev hit_link : Inner
hit_link = (resolve calm_world abc one_link).1

abbrev hit_entry : Entry
hit_entry = record { u = some_url; a = 1000; e = 0; i = 0; h = 1; oh = 1 }

abc_hit : entry? abc hit_link ≡ some hit_entry
unfolding bytes_eq
abc_hit = (resolve_effect calm_world one_link abc the_entry abc abc_entry refl).1

hit_link-eq : hit_link ≡ count_hit calm_world abc the_entry one_link
hit_link-eq = ap (λ r. r.1) (resolve_live calm_world abc one_link the_entry abc_entry refl)

hit_link_owner : 0 ≡ hit_link.instance_id
unfolding count_hit emplace create fresh links_delta log_created
hit_link_owner = sym (ap (λ s. s.instance_id) hit_link-eq)

hit_link_log : (a : Aof) × (hit_link.aof ≡ some a)
unfolding count_hit emplace create fresh links_delta log_created
hit_link_log = (_, ap (λ s. s.aof) hit_link-eq)

abc_hit_updated :
    update calm_world abc other_url 0 false hit_link
    ≡ (ok, (update calm_world abc other_url 0 false hit_link).1)
abc_hit_updated =
    rw (update_ok calm_world abc other_url 0 false hit_link hit_entry abc_hit hit_link_owner) refl

owner-lt : from_int hit_link.instance_id < 2 ^ 64
owner-lt = ground (arith, hit_link_owner)

-- The one hit of the updated link is lost at a replay into an empty store.
update_forgets_example :
    (f g : Entry) × (line : Bytes) × (entry? abc
        (update calm_world abc other_url 0 false hit_link).1
      ≡ some f)
    × (f.h ≡ 1)
    × ((update calm_world abc other_url 0 false hit_link).1.aof ≡ some (push line hit_link_log.0))
    × (entry? abc (apply_line line empty_store) ≡ some g)
    × (g.h ≡ 0)
update_forgets_example =
    update_forgets calm_world abc other_url 0 false hit_link
      (update calm_world abc other_url 0 false hit_link).1 empty_store hit_entry hit_link_log.0
      abc_hit_updated abc_hit hit_link_log.1 abc-IsCode (omega arith) (omega arith) owner-lt
      (unfold find fresh in refl)

-- Three hits that the instance has written for a link that is there.
abbrev three_hits : Op
three_hits = record no_op { h = abc; d = 3; i = 0 }

one_link_room : length one_link.tail.stray < max_stray_hits
unfolding create fresh links_delta log_created emplace
one_link_room = omega arith

tally-apply_example :
    tally (apply three_hits one_link) ≡ apply_tally one_link.instance_id three_hits (tally one_link)
tally-apply_example = tally-apply three_hits one_link one_link_room

fresh_code_sound_example :
    IsGenerated empty_store.prefix (gen_code empty_store).0
    × (entry? (gen_code empty_store).0 empty_store ≡ none)
    × ((gen_code empty_store).1 ≡ record empty_store { rng = (gen_code empty_store).1.rng })
fresh_code_sound_example =
    fresh_code_sound 1 empty_store (gen_code empty_store).0 (gen_code empty_store).1
      (unfold fresh_code entry? find gen_code fresh in refl)

fresh_code_total_example : (r : Bytes × Inner) × (fresh_code 1 empty_store ≡ some r)
fresh_code_total_example =
    fresh_code_total 1 0 empty_store (omega arith) (unfold entry? find fresh in refl)
