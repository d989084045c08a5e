-- ===== src/Store/History.antt =====
-- The histories of a store of src/store.cpp that runs alone.
use shrt_cpp.Prelude.{ℕ, ◌<◌, Bool, true, List, [], Option, some, ◌≡◌, refl, Bytes, Int64, find}
use shrt_cpp.Aof.{scan_lines, replay_file}
use shrt_cpp.Store.State.{Inner, World, max_instances, entry?}
use shrt_cpp.Store.Apply.{apply_lines}
use shrt_cpp.Store.Create.{shorten, shorten_many}
use shrt_cpp.Store.Access.{resolve, update, remove}
use shrt_cpp.Store.Persist.{flush_locked, fresh}
use shrt_cpp.Store.Chunks.{IsCode}
use shrt_cpp.Store.Sound.{IsCalm}
use shrt_cpp.Store.Keeps.{IsKept, update-IsKept, remove-IsKept}
use shrt_cpp.Store.Reads.{resolve-IsKept, flush-IsKept}
use shrt_cpp.Store.Bulk.{IsAlias, shorten-IsKept, shorten_many-IsKept}

-- One call on a store that runs alone, while no other call runs. A call that tries too few codes makes no step.
pub data Step : Inner → Inner → Type 0 where
  shortened :
      {s : Inner} (w : World) (fuel : ℕ) (url : Bytes) (alias : Option Bytes) (ttl : Int64)
      (r : Option Bytes) (t : Inner)
      → IsCalm w
      → IsAlias alias
      → shorten w fuel url alias ttl s ≡ some (r, t)
      → Step s t
  bulk :
      {s : Inner} (w : World) (fuel : ℕ) (urls : List Bytes) (ttl : Int64) (r : List Bytes)
      (t : Inner)
      → IsCalm w
      → shorten_many w fuel urls ttl s ≡ some (r, t)
      → Step s t
  resolved : {s : Inner} (w : World) (c : Bytes) → IsCalm w → IsCode c → Step s (resolve w c s).1
  updated :
      {s : Inner} (w : World) (c url : Bytes) (ttl : Int64) (has_ttl : Bool)
      → IsCalm w
      → IsCode c
      → Step s (update w c url ttl has_ttl s).1
  removed : {s : Inner} (c : Bytes) → IsCode c → Step s (remove c s).1
  flushed : {s : Inner} (w : World) → IsCalm w → Step s (flush_locked w s)

pub data Reach (s : Inner) : Inner → Type 0 where
  here : Reach s s
  next : {t u : Inner} → Reach s t → Step t u → Reach s u

Step-IsKept : {base s t : Inner} → Step s t → IsKept base s → IsKept base t
Step-IsKept {s = s} (shortened w fuel url alias ttl r t h ha e) k =
    shorten-IsKept w fuel url alias ttl s r t h ha e k
Step-IsKept {s = s} (bulk w fuel urls ttl r t h e) k =
    shorten_many-IsKept w fuel urls ttl s r t h e k
Step-IsKept {s = s} (resolved w c h hc) k = resolve-IsKept w c s h hc k
Step-IsKept {s = s} (updated w c url ttl has_ttl h hc) k = update-IsKept w c url ttl has_ttl s hc k
Step-IsKept {s = s} (removed c hc) k = remove-IsKept c s hc k
Step-IsKept {s = s} (flushed w h) k = flush-IsKept w s h k

pub Reach-IsKept : {base s t : Inner} → Reach s t → IsKept base s → IsKept base t
Reach-IsKept here k = k
Reach-IsKept (next r st) k = Step-IsKept st (Reach-IsKept r k)

-- The store that a new, empty directory gives.
abbrev pub new_store : ℕ → ℕ → Inner
new_store id rng = fresh id rng [] []

pub new_store-IsKept :
    (id rng : ℕ) → id < max_instances → IsKept (new_store id rng) (new_store id rng)
unfolding fresh
new_store-IsKept id rng h = record {
  sound = record {
    instance_bound = h;
    prefix_of_instance = refl;
    entries = λ j e p. unfold entry? find in cc p;
    dirty = λ k. tt;
  };
  durable = record {
    log = record { buf = []; is_open = true; file = [] };
    has_log = refl;
    opened = refl;
    whole = unfold scan_lines in refl;
    agrees = unfold replay_file scan_lines apply_lines in refl;
  };
}
