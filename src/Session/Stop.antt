-- ===== src/Session/Stop.antt =====
-- src/session/stop.rs: whether a session is active, and its end. The disk is the directory of the units.
use wsmr.Base.{
  Bool, true, false, not, Option, none, some, List, [], ◌∷◌, ◌++◌, if◌then◌else◌, is_empty, map,
  keep, first,
}
use wsmr.Base.Text.{Text, codes, split, trim}
use wsmr.Error.{Result, ok, ◌>>=◌}
use wsmr.Disk.{Device}
use wsmr.Units.Escape.{simple_systemd_escape}
use wsmr.Units.Plan.{RemovalPlan, plan_remove_all}
use wsmr.Units.Generate.{GenOutcome, apply_removal}
use wsmr.Sysd.{UnitQuery, running_states}
use wsmr.Session.State.{World, Outcome}
use wsmr.Session.Steps.{BusOps, ◌then◌, asked, called}

abbrev pub generic_active_patterns : List Text
generic_active_patterns =
    codes "graphical-session-pre.target"
    ∷ codes "wayland-session-pre@*.target"
    ∷ codes "graphical-session.target"
    ∷ codes "wayland-session@*.target"
    ∷ codes "wayland-wm@*.service"
    ∷ []

unfoldable pub compositor_unit_name : Text → Text
unfolding simple_systemd_escape
compositor_unit_name id =
    codes "wayland-wm@" ++ (simple_systemd_escape id false ++ codes ".service")

active_patterns : Option Text → List Text
unfolding compositor_unit_name
active_patterns none = generic_active_patterns
active_patterns (some id) = compositor_unit_name id ∷ []

unfoldable pub is_active_for : {B : Type 0} → UnitQuery B → Option Text → B → Result Bool
unfolding active_patterns
is_active_for query wm_id b =
    query running_states (active_patterns wm_id) b >>= λ units. ok (not (is_empty units))

unfoldable pub is_active : {B : Type 0} → UnitQuery B → B → Result Bool
unfolding is_active_for
is_active query b = is_active_for query none b

some_marks : List Text → Option (List Text)
some_marks [] = none
some_marks (m ∷ ms) = some (m ∷ ms)

unfoldable pub parse_marks : Text → Option (List Text)
unfolding some_marks split trim
parse_marks raw = some_marks (keep (λ s. not (is_empty s)) (map trim (split b',' raw)))

pub record StopOpts : Type 0 where
  pub dry_run : Bool
  pub remove : Option Text

-- `waited` is the result of `wait_for_job` for a job.
module _ {B : Type 0} (ops : BusOps B) (waited : Text → Result (Unit {0})) where
  stop_first : Bool → Option Text → World B → Outcome B Bool
  stop_first dry_run none w = (w, ok false)
  stop_first true (some unit) w = (w, ok true)
  stop_first false (some unit) w =
      called (ops.stop_unit unit w.bus) w then λ job. asked (waited job >>= λ _. ok true)

  unfoldable pub stop_wm : Bool → World B → Outcome B Bool
  unfolding stop_first
  stop_wm dry_run w =
      asked (ops.list_units running_states (codes "wayland-wm@*.service" ∷ []) w.bus) w
      then λ units. stop_first dry_run (first units)

  reload_if : Bool → World B → Outcome B (Unit {0})
  reload_if true w = called (ops.reload w.bus) w
  reload_if false w = (w, ok tt)

  removed_by : Device → RemovalPlan → World B → Outcome B GenOutcome
  unfolding apply_removal
  removed_by dev plan w =
      let done = apply_removal dev w.disk plan in (record w { disk = done.0 }, done.1)

  remove_units : Device → Bool → RemovalPlan → World B → Outcome B (Unit {0})
  unfolding removed_by reload_if
  remove_units dev true plan w = (w, ok tt)
  remove_units dev false plan w = removed_by dev plan w then λ out. reload_if out.changed

  -- `dir` is the answer of `rung_dir`.
  remove_marked : Device → Result Text → Bool → Option Text → World B → Outcome B (Unit {0})
  unfolding remove_units parse_marks plan_remove_all
  remove_marked dev dir dry_run none w = (w, ok tt)
  remove_marked dev dir dry_run (some raw) w =
      asked (dir >>= λ _. plan_remove_all w.disk (parse_marks raw)) w then remove_units dev dry_run

  unfoldable pub run_stop : Device → Result Text → StopOpts → World B → Outcome B (Unit {0})
  unfolding stop_wm remove_marked
  run_stop dev dir opts w =
      stop_wm opts.dry_run w then λ _. remove_marked dev dir opts.dry_run opts.remove
