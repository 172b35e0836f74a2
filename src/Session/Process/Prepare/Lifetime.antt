-- ===== src/Session/Process/Prepare/Lifetime.antt =====
-- The lifetime of a session: its begin, whatever its processes export, and its end.
use wsmr.Base.{Option, List, ◌≡◌}
use wsmr.Base.Text.{Text}
use wsmr.Base.Maps.{Map}
use wsmr.Base.Sets.{text_key}
use wsmr.Util.{Host}
use wsmr.Env.Delta.{compute_changes}
use wsmr.Env.Files.{entry_key}
use wsmr.Env.Files.Snapshot.{IsEnvMap}
use wsmr.Session.State.{World, System}
use wsmr.Session.Steps.{BusOps}
use wsmr.Session.Process.{sync_delta, finalize}
use wsmr.Session.Process.Prepare.{apply_changes}

-- What is done between the begin of a session and its end: the delta of `prepare_env`, `finalize`, the
-- update of `readiness_watch`, and any call that changes no variable. The maps are those that the
-- program has: of names that are kept, in their order. Each step may fail in any of its calls.
pub data After {B : Type 0} (ops : BusOps B) (sys : System) (view : B → Text → Option Text)
    (w : World B) : World B → Type 0 where
  here : After ops sys view w w
  prepared :
      {v : World B} (pre post : Map Text)
      → IsEnvMap pre
      → IsEnvMap post
      → After ops sys view w v
      → After ops sys view w ((apply_changes ops sys (compute_changes pre post) v).0)
  finalized :
      {v : World B} (host : Host) (extra : List Text)
      → After ops sys view w v
      → After ops sys view w ((finalize ops sys host extra v).0)
  synced :
      {v : World B} (delta : Map Text)
      → IsEnvMap delta
      → After ops sys view w v
      → After ops sys view w ((sync_delta ops sys delta v).0)
  called_other :
      {v : World B} (b : B)
      → ((k : Text) → view b k ≡ view v.bus k)
      → After ops sys view w v
      → After ops sys view w (record v { bus = b })
