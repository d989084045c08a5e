-- ===== src/App/Route/Local.antt =====
-- The back end that src/store.cpp gives the class `Store`: the in-process store.
use shrt_cpp.Prelude.{ℕ, true}
use shrt_cpp.Store.State.{Inner, World}
use shrt_cpp.Store.Create.{shorten, shorten_many}
use shrt_cpp.Store.Access.{resolve, update, remove, stats}
use shrt_cpp.Store.Listing.{list}
use shrt_cpp.App.Route.{Backend}

-- `fuel` bounds the codes that one call tries.
abbrev pub local_store : World → ℕ → Backend Inner
local_store w fuel = record {
  healthy = λ s. true;
  resolve = resolve w;
  shorten = shorten w fuel;
  shorten_many = shorten_many w fuel;
  update = update w;
  remove = remove;
  list = list;
  stats = stats;
}
