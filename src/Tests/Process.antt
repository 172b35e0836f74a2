-- ===== src/Tests/Process.antt =====
-- src/session and src/sysd: the loops that wait, the updates of two environments, a dry run, and a
-- process that exports variables.
use wsmr.Base.{
  inl, ℕ, ◌*◌, true, false, Bool, Option, none, some, List, [], ◌∷◌, ◌≡◌, refl, arith,
  if◌then◌else◌, map, keep,
}
use wsmr.Base.Text.{Text, codes, text_eq}
use wsmr.Base.Maps.{Map}
use wsmr.Base.Sets.{extend, text_key}
use wsmr.Error.{resolve, Result, ok, err}
use wsmr.Disk.{can_write, missing}
use wsmr.Util.{Host}
use wsmr.Comp.{CompGlobals}
use wsmr.Env.Filter.{keep_name}
use wsmr.Sysd.Poll.{
  Ends, job_gone, state_among, all_there, wait_for_job, wait_for_unit, waitenv, rounds, waits-Ends,
}
use wsmr.Sysd.Update.{EnvUpdateOps, assignment, set_systemd_vars_with, unset_systemd_vars_with}
use wsmr.Sysd.Update.Refines.{
  Views, IsBus, SetStep, UnsetStep, set_all, unset_all, apply_assignments, updates-Step,
}
use wsmr.Session.Steps.{BusOps}
use wsmr.Session.Start.{StartOpts, runtime, abort, run}
use wsmr.Session.Start.DryRun.{dry, gate, PredictsRun, run-dry}
use wsmr.Session.Process.{finalize}
use wsmr.Session.Process.Recorded.{SetsOnly, IsCovered, finalize-IsCovered}
use wsmr.Tests.Session.{
  able, system, manager, view, world, lookup-append, on_record, listed, tagged,
}

abbrev queued : ℕ → Result (List Text)
queued _ = ok (codes "/job/1" ∷ [])

abbrev state : ℕ → Result (Option Text)
state _ = ok (some (codes "active"))

abbrev vars : ℕ → Result (Map Text)
vars _ = ok ((codes "WAYLAND_DISPLAY", codes "wayland-1") ∷ [])

abbrev active : List Text
active = codes "active" ∷ []

abbrev names : List Text
names = codes "WAYLAND_DISPLAY" ∷ []

abbrev time : ℕ → ℕ
time k = k * 500

waits-Ends_example :
    ((r : Result (Unit {0})) × (wait_for_job queued time (codes "/job/1") 1200 (rounds 100 1200)
        ≡ some r)
      × Ends (λ k. job_gone (queued k) (codes "/job/1")) time 1200 (err resolve) r)
    × ((r : Result Bool) × (wait_for_unit state time active 1200 (rounds 500 1200) ≡ some r)
        × Ends (λ k. state_among (state k) active) time 1200 (ok false) r)
    × ((r : Result (Unit {0})) × (waitenv vars time names 1200 (rounds 500 1200) ≡ some r)
        × Ends
            (λ k. all_there (extend [] (keep keep_name names)) (vars k))
            time
            1200
            (err resolve)
            r)
waits-Ends_example =
    waits-Ends queued state vars time time (codes "/job/1") active names 1200 (λ k. omega arith)
      (λ k. omega arith)

abbrev bus : EnvUpdateOps Views
bus = record {
  set_environment =
      λ list b. (record { systemd = apply_assignments list b.systemd; daemon = b.daemon }, ok tt);
  unset_environment =
      λ ns b. (record { systemd = unset_all ns b.systemd; daemon = b.daemon }, ok tt);
  is_dbus_broker = λ _. ok false;
  update_activation_environment =
      λ m b. (record { systemd = b.systemd; daemon = set_all m b.daemon }, ok tt);
}

abbrev itself : Views → Views
itself b = b

bus-IsBus : IsBus bus itself
bus-IsBus = record {
  set_effect = λ list b. inl (refl, refl);
  unset_effect = λ ns b. inl (refl, refl);
  update_effect = λ m b. inl (refl, refl);
}

abbrev empty_views : Views
empty_views = record { systemd = λ _. none; daemon = λ _. none }

abbrev display : Map Text
display = (codes "DISPLAY", codes ":1=") ∷ []

updates-Step_example :
    SetStep display empty_views
      (itself ((set_systemd_vars_with bus display empty_views).0))
      (bus.is_dbus_broker ((bus.set_environment (map assignment display) empty_views).0))
      ((set_systemd_vars_with bus display empty_views).1)
    × UnsetStep names empty_views
        (itself ((unset_systemd_vars_with bus names empty_views).0))
        (bus.is_dbus_broker empty_views)
        ((unset_systemd_vars_with bus names empty_views).1)
updates-Step_example = updates-Step bus itself bus-IsBus display names empty_views (omega arith)

abbrev pub bus_ops : BusOps (Map Text)
bus_ops = record {
  state_ops = manager;
  list_units = λ _ _ _. ok [];
  reload = λ b. (b, ok tt);
  stop_unit = λ u b. (b, ok (codes "/job/1"));
  notify_access = λ _ _. ok (codes "all");
  timeout_start_usec = λ _ _. ok 90_000_000;
}

abbrev pub host : Host
host = record {
  env_var = λ k.
      if text_eq k (codes "WAYLAND_DISPLAY")
      then some (codes "wayland-1")
      else if text_eq k (codes "XDG_RUNTIME_DIR")
      then some (codes "/run/user/1000")
      else none;
  is_executable = λ _. true;
  is_dir = λ _. true;
  files = λ _. missing;
}

only_named : SetsOnly manager view
only_named m b k kept h = ground (arith, lookup-append m b k, h)

finalize-IsCovered_example :
    IsCovered view
      (codes "00ff")
      (codes "WAYLAND_DISPLAY")
      world
      ((finalize bus_ops system host [] world).0)
finalize-IsCovered_example =
    finalize-IsCovered bus_ops system view only_named host [] (codes "00ff")
      (codes "WAYLAND_DISPLAY") [] world refl (unfold can_write in refl)
      (record { on_record = on_record; listed = listed; writable = tt; tagged = tagged })

abbrev comp : CompGlobals
comp = record {
  cmdline = codes "sway" ∷ [];
  id = codes "sway";
  id_unit_string = codes "sway";
  bin_name = codes "sway";
  bin_id = codes "sway";
  desktop_names = codes "sway" ∷ [];
  name = none;
  description = none;
  cli_desktop_names = [];
  cli_desktop_names_exclusive = false;
}

abbrev start_opts : StartOpts
start_opts = record {
  only_generate = false;
  dry_run = true;
  rung = runtime;
  gst_gate = abort 60;
  tweaks = true;
  bin_path = codes "/usr/bin/wsmr";
}

run-dry_example :
    ((run bus_ops able host (λ _. ok true) comp (dry start_opts) world).0 ≡ world)
    × PredictsRun bus_ops able host
        (λ _. ok true)
        comp
        start_opts
        world
        ((run bus_ops able host (λ _. ok true) comp (dry start_opts) world).1)
        (gate bus_ops able host (λ _. ok true) start_opts)
run-dry_example = run-dry bus_ops able host (λ _. ok true) comp start_opts world
