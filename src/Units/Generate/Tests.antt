-- ===== src/Units/Generate/Tests.antt =====
-- The plan applied: by a device that does all, and by one that refuses the second unit file.
use mathlib.Core.Path.{subst}
use wsmr.Base.{sym, true, false, not, none, List, [], ◌∷◌, ◌++◌, ◌≡◌, refl, inr}
use wsmr.Base.Text.{Text, codes, text_eq}
use wsmr.Base.Sets.{member, text_key}
use wsmr.Error.{io}
use wsmr.Disk.{Disk, Device, can_write, atomic_write}
use wsmr.Units.Manifest.{Manifest}
use wsmr.Units.Plan.{PlannedWrite}
use wsmr.Units.Plan.Tests.{
  foreign_path, foreign_text, sample_disk, sample_ctx, sample_plan, planned, rest, write_of,
  sample_writes, nothing_reclaimed, no_manifest, foreign_there, foreign_unknown, kept_path,
  kept_entries, kept_disk, kept_drifted, removal_plan, removal_planned, removal_loaded,
}
use wsmr.Units.Templates.Graph.{wayland_session_envelope_target, wayland_session_pre_target}
use wsmr.Units.Templates.Dropins.Tests.{plain_dropins}
use wsmr.Units.Generate.{
  Progress, done, failed, run_plan, apply_generate, apply_removal, apply_writes, apply_removes,
  write_step, initial, and_then,
}
use wsmr.Units.Generate.Rollback.{IsSteady}
use wsmr.Units.Generate.Ownership.{generate-keeps-foreign, generate_rollback, removal-keeps-foreign}

abbrev able : Device
able = record {
  parent = λ _. codes "/run/user";
  temp_path = λ p. codes "." ++ p ++ codes ".wsmr-tmp";
  can_create_parent = λ _. true;
  can_write_temp = λ _. true;
  can_rename = λ _. true;
  can_remove = λ _. true;
}

generate-keeps-foreign_example :
    (apply_generate able sample_disk sample_plan).0 foreign_path ≡ sample_disk foreign_path
generate-keeps-foreign_example =
    generate-keeps-foreign able sample_disk sample_ctx plain_dropins true false foreign_path
      foreign_text {plan = sample_plan} {m = []} planned no_manifest foreign_there foreign_unknown
      (rw nothing_reclaimed (unfold member in refl)) (unfold text_eq in refl)

-- It refuses one path, to write and to remove.
abbrev refusing : Device
refusing = record {
  parent = λ _. codes "/run/user";
  temp_path = λ p. codes "." ++ p ++ codes ".wsmr-tmp";
  can_create_parent = λ _. true;
  can_write_temp = λ _. true;
  can_rename = λ p. not (text_eq (codes "wayland-session-pre@.target") p);
  can_remove = λ p. not (text_eq (codes "wayland-session-pre@.target") p);
}

refusing-IsSteady : IsSteady refusing
refusing-IsSteady p = unfold can_write in refl

disk_of : Progress → Disk
disk_of (done b) = b.disk
disk_of (failed d e) = d

pre_path : Text
pre_path = codes "wayland-session-pre@.target"

IsFailed : Progress → Text → Type 0
IsFailed r p = r ≡ failed (disk_of r) (io p)

two_writes :
    (m : Manifest) (rs : List Text) (ws : List PlannedWrite)
    → IsFailed
        (and_then
          (apply_writes refusing
            (initial sample_disk m)
            (write_of wayland_session_envelope_target ∷ write_of wayland_session_pre_target ∷ ws))
          (λ b. apply_removes refusing b rs))
        pre_path
unfolding IsFailed disk_of apply_writes write_step atomic_write text_eq
    wayland_session_envelope_target wayland_session_pre_target pre_path
two_writes m rs ws = refl

run_fails : IsFailed (run_plan refusing sample_disk sample_plan) pre_path
unfolding run_plan
run_fails =
    subst
      (λ (ws : List PlannedWrite).
        IsFailed
          (and_then (apply_writes refusing (initial sample_disk sample_plan.manifest) ws)
            (λ b. apply_removes refusing b sample_plan.removes))
          pre_path)
      (sym sample_writes) (two_writes sample_plan.manifest sample_plan.removes rest)

failed_disk : Disk
unfolding disk_of run_plan
failed_disk = disk_of (run_plan refusing sample_disk sample_plan)

failing :
    run_plan refusing sample_disk sample_plan
    ≡ failed failed_disk (io (codes "wayland-session-pre@.target"))
unfolding failed_disk IsFailed pre_path run_plan disk_of
failing = run_fails

generate_rollback_example :
    failed_disk (codes "wayland-session-envelope@.target")
    ≡ sample_disk (codes "wayland-session-envelope@.target")
generate_rollback_example =
    generate_rollback refusing sample_disk sample_ctx plain_dropins true false
      (codes "wayland-session-envelope@.target") {plan = sample_plan} {d' = failed_disk}
      {e = io (codes "wayland-session-pre@.target")} refusing-IsSteady planned failing

removal-keeps-foreign_example :
    (apply_removal able kept_disk removal_plan).0 kept_path ≡ kept_disk kept_path
removal-keeps-foreign_example =
    removal-keeps-foreign able kept_disk none kept_path (codes "mine") {plan = removal_plan}
      {m = kept_entries} removal_planned removal_loaded (unfold text_eq in refl)
      (inr (inr kept_drifted)) (unfold text_eq in refl)
