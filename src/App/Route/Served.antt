-- ===== src/App/Route/Served.antt =====
-- A server over the in-process store that handles one request after the other, as `serve_kq` of
-- src/server.cpp does: the requests that it answers and the flushes between them.
use shrt_cpp.Prelude.{ℕ, ◌<◌, [], some, ◌≡◌, sym, inl, inr, Bytes}
use mathlib.Core.Path.{subst}
use shrt_cpp.Store.State.{Inner, World, max_instances}
use shrt_cpp.Store.Persist.{flush_locked, open_dir}
use shrt_cpp.Store.Views.{view}
use shrt_cpp.Store.Sound.{IsCalm}
use shrt_cpp.Store.History.{flushed, Reach, here, next, new_store}
use shrt_cpp.Store.Recovery.{log_file, restart-recovers}
use shrt_cpp.App.Reply.{Reply}
use shrt_cpp.App.Route.{Env, Outcome, route}
use shrt_cpp.App.Route.Local.{local_store}
use shrt_cpp.App.Route.Steps.{route_step}

-- The states that answered requests, with any settings, and flushes lead to.
pub data Served (s : Inner) : Inner → Type 0 where
  started : Served s s
  answered :
      {t u : Inner} (w : World) (fuel : ℕ) (env : Env) (method path body token client : Bytes)
      (r : Reply)
      → Served s t
      → IsCalm w
      → route (local_store w fuel) env method path body token client t ≡ Outcome.answer r u
      → Served s u
  ticked : {t : Inner} (w : World) → Served s t → IsCalm w → Served s (flush_locked w t)

Served-Reach : {s t : Inner} → Served s t → Reach s t
Served-Reach started = here
Served-Reach (answered {t} {u} w fuel env method path body token client r h calm e) =
    elim (route_step w fuel env calm method path body token client t r u e) [
      | inl p ↦ subst (Reach _) (sym p) (Served-Reach h)
      | inr p ↦ next (Served-Reach h) p
    ]
Served-Reach (ticked w h calm) = next (Served-Reach h) (flushed w calm)

-- A server starts on a new directory with an instance id below 62, answers any requests one after the
-- other, none during another as in the single thread of the kqueue server, and flushes between them in
-- calm worlds (writes make progress, the clock is in range, no other instance has written), flushes a
-- last time and stops. A start on the log that it leaves succeeds, and the new store has under every code
-- the url, times and owner that the old one had. The hit counts are not compared.
pub answers-survive :
    (id rng rng' : ℕ) (w w' : World) (s : Inner)
    → id < max_instances
    → IsCalm w
    → IsCalm w'
    → Served (new_store id rng) s
    → (t : Inner) × (open_dir w' id rng' (log_file (flush_locked w s)) [] ≡ some t)
      × (view t ≡ view s)
answers-survive id rng rng' w w' s h calm calm' r =
    restart-recovers id rng rng' w w' s h calm calm' (Served-Reach r)
