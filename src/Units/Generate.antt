-- ===== src/Units/Generate.antt =====
-- src/units/generate.rs: applying a plan, with a rollback where a step fails.
pub mod Untouched
pub mod Rollback
pub mod Ownership
pub mod Tests
use mathlib.Core.List.{reverse}
use wsmr.Base.{
  Bool, true, false, not, ◌||◌, Option, none, some, List, [], ◌∷◌, ◌++◌, if◌then◌else◌, is_empty,
}
use wsmr.Base.Text.{Text}
use wsmr.Error.{Error, io, generation_conflict, Result, ok, err}
use wsmr.Disk.{
  File, missing, unreadable, content, Disk, Device, atomic_write, Removal, removed, not_found,
  refused, remove_file,
}
use wsmr.Units.Manifest
use wsmr.Units.Manifest.{Manifest, record_content, forget}
use wsmr.Units.Plan.{PlannedWrite, Conflict, GenerationPlan, RemovalPlan}

pub record GenOutcome : Type 0 where
  pub changed : Bool
  pub written : List Text
  pub removed : List Text

pub record Applied : Type 0 where
  pub relname : Text
  pub previous : Option Text

-- `read_to_string(path).ok()`
abbrev pub readable : File → Option Text
readable (content c) = some c
readable missing = none
readable unreadable = none

keep_written : Disk → Result Disk → Disk
keep_written d (ok d') = d'
keep_written d (err e) = d

keep_removed : Disk → Removal → Disk
keep_removed d (removed d') = d'
keep_removed d not_found = d
keep_removed d refused = d

restore_to : Device → Text → Option Text → Disk → Disk
unfolding keep_written keep_removed
restore_to dev relname (some c) d = keep_written d (atomic_write dev relname c d)
restore_to dev relname none d = keep_removed d (remove_file dev relname d)

-- One round of `rollback`; a failure is ignored.
pub restore : Device → Applied → Disk → Disk
unfolding restore_to
restore dev a d = restore_to dev a.relname a.previous d

pub restore_all : Device → Disk → List Applied → Disk
restore_all dev d [] = d
restore_all dev d (a ∷ rest) = restore_all dev (restore dev a d) rest

pub rollback : Device → Disk → List Applied → Disk
unfolding restore_all restore
rollback dev d applied = restore_all dev d (reverse applied)

-- The variables of the two loops.
pub record Batch : Type 0 where
  pub disk : Disk
  pub manifest : Manifest
  pub applied : List Applied
  pub out : GenOutcome

pub data Progress : Type 0 where
  done : Batch → Progress
  failed : Disk → Error → Progress

-- After the write of `relname`, over the disk `d`.
abbrev pub after_write : Batch → Text → Text → Disk → Batch
after_write b relname text d = record {
  disk = d;
  manifest = record_content relname text b.manifest;
  applied = b.applied ++ record { relname = relname; previous = readable (b.disk relname) } ∷ [];
  out = record { changed = true; written = b.out.written ++ relname ∷ []; removed = b.out.removed };
}

abbrev pub after_remove : Batch → Text → Disk → Batch
after_remove b relname d = record {
  disk = d;
  manifest = forget relname b.manifest;
  applied = b.applied ++ record { relname = relname; previous = readable (b.disk relname) } ∷ [];
  out = record { changed = true; written = b.out.written; removed = b.out.removed ++ relname ∷ [] };
}

pub write_step : Device → Batch → PlannedWrite → Progress
write_step dev b w = elim (atomic_write dev w.relname w.text b.disk) [
  | err e ↦ failed (rollback dev b.disk b.applied) e
  | ok d ↦ done (after_write b w.relname w.text d)
]

pub remove_step : Device → Batch → Text → Progress
remove_step dev b relname = elim (remove_file dev relname b.disk) [
  | removed d ↦ done (after_remove b relname d)
  | not_found ↦ done (after_remove b relname b.disk)
  | refused ↦ failed (rollback dev b.disk b.applied) (io relname)
]

abbrev pub and_then : Progress → (Batch → Progress) → Progress
and_then (done b) k = k b
and_then (failed d e) k = failed d e

pub apply_writes : Device → Batch → List PlannedWrite → Progress
apply_writes dev b [] = done b
apply_writes dev b (w ∷ ws) = and_then (write_step dev b w) (λ b'. apply_writes dev b' ws)

pub apply_removes : Device → Batch → List Text → Progress
apply_removes dev b [] = done b
apply_removes dev b (r ∷ rs) = and_then (remove_step dev b r) (λ b'. apply_removes dev b' rs)

abbrev pub initial : Disk → Manifest → Batch
initial d m = record {
  disk = d;
  manifest = m;
  applied = [];
  out = record { changed = false; written = []; removed = [] };
}

-- The end of both functions: the manifest is saved if anything has changed.
saved : Batch → Result Disk → Disk × Result GenOutcome
saved b (ok d) = (d, ok b.out)
saved b (err e) = (b.disk, err e)

pub finish : Device → Bool → Manifest → Batch → Disk × Result GenOutcome
unfolding saved
finish dev needed m b = if needed then saved b (Manifest.save dev m b.disk) else (b.disk, ok b.out)

abbrev pub conclude : Progress → (Batch → Disk × Result GenOutcome) → Disk × Result GenOutcome
conclude (done b) k = k b
conclude (failed d e) k = (d, err e)

unfoldable pub run_plan : Device → Disk → GenerationPlan → Progress
run_plan dev d plan =
    and_then (apply_writes dev (initial d plan.manifest) plan.writes)
      (λ b. apply_removes dev b plan.removes)

unfoldable pub apply_generate : Device → Disk → GenerationPlan → Disk × Result GenOutcome
unfolding run_plan finish
apply_generate dev d plan =
    if not (is_empty plan.conflicts)
    then (d, err generation_conflict)
    else conclude (run_plan dev d plan) (λ b. finish dev b.out.changed b.manifest b)

pub forget_skipped : Manifest → List Conflict → Manifest
forget_skipped m [] = m
forget_skipped m (c ∷ cs) = forget_skipped (forget c.relname m) cs

unfoldable pub apply_removal : Device → Disk → RemovalPlan → Disk × Result GenOutcome
unfolding apply_removes finish forget_skipped
apply_removal dev d plan = conclude (apply_removes dev (initial d plan.manifest) plan.removes) (λ b.
    finish dev (b.out.changed || not (is_empty plan.skipped))
      (forget_skipped b.manifest plan.skipped) b)
