-- ===== src/Session/Start.antt =====
-- src/session/start.rs: the part of a start that comes before the process is replaced, on the disk of
-- the directory of the units, and that
-- directory (src/units/generate.rs).
pub mod DryRun
use wsmr.Base.{
  ℕ, Bool, true, false, not, ◌&&◌, Option, none, some, List, [], ◌∷◌, ◌++◌, if◌then◌else◌, is_empty,
}
use wsmr.Base.Text.{Text, codes}
use wsmr.Base.Maps.{Map}
use wsmr.Error.{Error, resolve, generation_conflict, Result, ok, err, ◌>>=◌}
use wsmr.Disk.{Device}
use wsmr.Util.{Host, join_path}
use wsmr.Util.Xdg.{runtime_dir, config_home}
use wsmr.Comp.{CompGlobals}
use wsmr.Units.Templates.{RenderCtx}
use wsmr.Units.Templates.Dropins.{DropinInput}
use wsmr.Units.Plan.{GenerationPlan, plan_generate}
use wsmr.Units.Generate.{GenOutcome, apply_generate}
use wsmr.Session.State.{World, Outcome}
use wsmr.Session.Steps.{BusOps, ◌then◌, asked, called}
use wsmr.Session.Stop.{is_active}

pub data Rung : Type 0 where
  runtime home : Rung

below_systemd : Text → Text
unfolding join_path
below_systemd base = join_path (join_path base (codes "systemd")) (codes "user")

rung_base : Host → Rung → Result Text
unfolding runtime_dir config_home
rung_base host runtime = runtime_dir host
rung_base host home = config_home host

unfoldable pub rung_dir : Host → Rung → Result Text
unfolding rung_base below_systemd
rung_dir host rung = rung_base host rung >>= λ base. ok (below_systemd base)

-- The gate on the system's `graphical.target`, with its time in seconds.
pub data GstGate : Type 0 where
  disabled : GstGate
  warn abort : ℕ → GstGate

after_wait : Bool → Bool → Result (Unit {0})
after_wait reached fatal = if reached then ok tt else if fatal then err resolve else ok tt

-- `reached` connects to the system bus and waits for the unit.
unfoldable pub gst_gate : (ℕ → Result Bool) → GstGate → Result (Unit {0})
unfolding after_wait
gst_gate reached disabled = ok tt
gst_gate reached (warn t) = reached t >>= λ r. after_wait r false
gst_gate reached (abort t) = reached t >>= λ r. after_wait r true

pub refuse_if_active : Bool → Result (Unit {0})
refuse_if_active true = err resolve
refuse_if_active false = ok tt

rest_of : List Text → List Text
rest_of [] = []
rest_of (c ∷ cs) = cs

unfoldable pub build_dropins : CompGlobals → Text → DropinInput
unfolding rest_of
build_dropins comp bin_path = record {
  id = comp.id;
  id_unit_string = comp.id_unit_string;
  bin_path = bin_path;
  bin_name = comp.bin_name;
  name = comp.name;
  description = comp.description;
  desktop_names = comp.desktop_names;
  cli_desktop_names = comp.cli_desktop_names;
  cli_desktop_names_exclusive = comp.cli_desktop_names_exclusive;
  cmdline = comp.cmdline;
  cli_args = rest_of comp.cmdline;
}

pub record StartOpts : Type 0 where
  pub only_generate : Bool
  pub dry_run : Bool
  pub rung : Rung
  pub gst_gate : GstGate
  pub tweaks : Bool
  pub bin_path : Text

pub render_ctx : StartOpts → RenderCtx
render_ctx opts = record {
  bin_name = codes "wsmr";
  bin_path = opts.bin_path;
  waitpid_bin = codes "waitpid";
}

-- How the part ends: a dry run and a generation have printed their report; a start goes on to bind
-- the session and to replace the process.
pub data Started : Type 0 where
  would_start : Started
  generated : GenOutcome → Started
  goes_on : GenOutcome → Started

module _ {B : Type 0} (ops : BusOps B) (dev : Device) (host : Host) where
  -- What is asked before anything is changed.
  pub eligible : CompGlobals → StartOpts → World B → Result GenerationPlan
  unfolding is_active refuse_if_active rung_dir plan_generate render_ctx build_dropins
  eligible comp opts w = is_active ops.list_units w.bus >>= λ active.
      refuse_if_active active >>= λ _. rung_dir host opts.rung >>= λ _.
      plan_generate w.disk (render_ctx opts) (build_dropins comp opts.bin_path) opts.tweaks true

  pub generate_units : GenerationPlan → World B → Outcome B GenOutcome
  unfolding apply_generate
  generate_units plan w =
      let done = apply_generate dev w.disk plan in (record w { disk = done.0 }, done.1)

  pub reload_if_changed : GenOutcome → World B → Outcome B GenOutcome
  reload_if_changed out w =
      if out.changed then (called (ops.reload w.bus) w then λ _ v. (v, ok out)) else (w, ok out)

  pub report_or_go_on : Bool → GenOutcome → Started
  report_or_go_on true out = generated out
  report_or_go_on false out = goes_on out

  pub apply_for_real : StartOpts → GenerationPlan → World B → Outcome B Started
  unfolding generate_units reload_if_changed report_or_go_on
  apply_for_real opts plan w = generate_units plan w then reload_if_changed then λ out v.
      (v, ok (report_or_go_on opts.only_generate out))

  pub with_plan : StartOpts → GenerationPlan → World B → Outcome B Started
  unfolding apply_for_real
  with_plan opts plan w =
      let applied = apply_for_real opts plan w in
      if not (is_empty plan.conflicts)
      then (w, err generation_conflict)
      else if opts.dry_run
      then (w, ok would_start)
      else applied

  unfoldable pub run_with : CompGlobals → StartOpts → World B → Outcome B Started
  unfolding eligible with_plan
  run_with comp opts w = asked (eligible comp opts w) w then with_plan opts

  -- `reached` is the answer to `wait_for_unit` on the system bus.
  unfoldable pub run : (ℕ → Result Bool) → CompGlobals → StartOpts → World B → Outcome B Started
  unfolding gst_gate run_with
  run reached comp opts w =
      if not opts.only_generate && not opts.dry_run
      then (asked (gst_gate reached opts.gst_gate) w then λ _. run_with comp opts)
      else run_with comp opts w
