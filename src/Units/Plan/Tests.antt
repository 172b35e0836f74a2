-- ===== src/Units/Plan/Tests.antt =====
-- A plan for a directory in which someone else's drop-in stands in a place of the program's.
use wsmr.Base.{
  keep, All, arith, true, false, Option, none, List, [], ◌∷◌, ◌≡◌, refl, ◌∙◌, ap, if◌then◌else◌,
}
use wsmr.Base.Text.{Text, codes, text_eq, text_lt, ends_with, strip_suffix, starts_with}
use wsmr.Base.Maps.{lookup}
use wsmr.Error.{Result, ok, err, ◌>>=◌}
use wsmr.Disk.{missing, content, Disk}
use wsmr.Units.Manifest
use wsmr.Units.Manifest.{Manifest, manifest_name, verify, load, fingerprint, tracked}
use wsmr.Units.Manifest.RoundTrip.{IsPrintable, parse-render}
use wsmr.Base.Maps.Order.{IsOrdered}
use wsmr.Units.Plan.Removal.{MayRemove, plan_remove_all-MayRemove}
use wsmr.Units.Templates.{RenderCtx, render}
use wsmr.Units.Templates.Body.{UnitTemplate}
use wsmr.Units.Templates.Graph.{graph, wayland_session_envelope_target, wayland_session_pre_target}
use wsmr.Units.Templates.Tweaks.{tweaks}
use wsmr.Units.Templates.Dropins.{preloader_dropin, service_dropin}
use wsmr.Units.Templates.Dropins.Tests.{plain_dropins, no_preloader, no_service}
use wsmr.Units.Plan.Write.{IsSafe, plan_generate-IsSafe}
use wsmr.Units.Plan.{
  PlannedWrite, RemovalPlan, drifted, plan_remove_all, classify_removals, is_selected,
  is_removable_dropin, is_tweak, is_compositor_dropin, GenerationPlan, plan_generate,
  classify_graph, classify_tweaks, classify_dropin, classify_write, decide_dropin, empty_plan,
  preloader_name, service_name,
}

abbrev pub foreign_path : Text
foreign_path = codes "wayland-wm-env@sway.service.d/50_custom.conf"

abbrev pub foreign_text : Text
foreign_text = codes "[Service]"

abbrev pub sample_disk : Disk
sample_disk p = if text_eq foreign_path p then content foreign_text else missing

abbrev pub sample_ctx : RenderCtx
sample_ctx = record {
  bin_name = codes "wsmr";
  bin_path = codes "/usr/bin/wsmr";
  waitpid_bin = codes "waitpid";
}

plan_with : Option Text → Option Text → Result GenerationPlan
unfolding load
plan_with preloader service = Manifest.load sample_disk >>= λ manifest.
    classify_graph sample_disk sample_ctx graph (empty_plan manifest) >>= λ p.
    classify_tweaks sample_disk sample_ctx true false tweaks p >>= λ p'.
    classify_dropin sample_disk (preloader_name (codes "sway")) preloader false p' >>= λ p''.
    classify_dropin sample_disk (service_name (codes "sway")) service false p''

plan_of : Result GenerationPlan → GenerationPlan
plan_of (ok plan) = plan
plan_of (err e) = empty_plan []

pub sample_plan : GenerationPlan
unfolding plan_of plan_with
sample_plan = plan_of (plan_with none none)

as_plan_with :
    plan_generate sample_disk sample_ctx plain_dropins true false
    ≡ plan_with (preloader_dropin plain_dropins) (service_dropin plain_dropins)
unfolding plan_generate plan_with
as_plan_with = refl

planned_none : plan_with none none ≡ ok sample_plan
unfolding sample_plan plan_of plan_with load classify_graph classify_tweaks classify_dropin
    classify_write decide_dropin verify text_eq graph tweaks lookup
planned_none = refl

pub planned : plan_generate sample_disk sample_ctx plain_dropins true false ≡ ok sample_plan
planned =
    as_plan_with
    ∙ ap (λ (o : Option Text). plan_with o (service_dropin plain_dropins)) no_preloader
    ∙ ap (λ (o : Option Text). plan_with none o) no_service
    ∙ planned_none

drop_two : List PlannedWrite → List PlannedWrite
drop_two (a ∷ b ∷ rest) = rest
drop_two _ = []

pub rest : List PlannedWrite
unfolding sample_plan plan_of plan_with drop_two
rest = drop_two sample_plan.writes

abbrev pub write_of : UnitTemplate → PlannedWrite
write_of u = record { relname = u.name; text = render u.body sample_ctx }

pub sample_writes :
    sample_plan.writes
    ≡ write_of wayland_session_envelope_target ∷ write_of wayland_session_pre_target ∷ rest
unfolding rest drop_two sample_plan plan_of plan_with load classify_graph classify_tweaks
    classify_dropin classify_write decide_dropin verify text_eq graph tweaks lookup
sample_writes = refl

pub nothing_reclaimed : sample_plan.reclaimed ≡ []
unfolding sample_plan plan_of plan_with load classify_graph classify_tweaks classify_dropin
    classify_write decide_dropin verify text_eq graph tweaks lookup
nothing_reclaimed = refl

-- The plan is safe.
plan_generate-IsSafe_example :
    (m : Manifest) × (Manifest.load sample_disk ≡ ok m) × IsSafe sample_disk m sample_plan
plan_generate-IsSafe_example =
    plan_generate-IsSafe sample_disk sample_ctx plain_dropins true false {plan = sample_plan}
      planned

pub no_manifest : Manifest.load sample_disk ≡ ok []
unfolding load text_eq
no_manifest = refl

pub foreign_there : sample_disk foreign_path ≡ content foreign_text
unfolding text_eq
foreign_there = refl

pub foreign_unknown : verify [] foreign_path foreign_text ≡ false
unfolding verify lookup
foreign_unknown = refl

-- A drop-in that the program wrote, as its manifest has it, and that someone has changed since.
abbrev pub kept_path : Text
kept_path = codes "wayland-wm@sway.service.d/50_custom.conf"

abbrev pub kept_entries : Manifest
kept_entries = (foreign_path, 9) ∷ (kept_path, 7) ∷ []

abbrev pub kept_disk : Disk
kept_disk p =
    if text_eq manifest_name p
    then content (Manifest.render kept_entries)
    else if text_eq kept_path p
    then content (codes "mine")
    else missing

pub removal_loaded : Manifest.load kept_disk ≡ ok kept_entries
unfolding load text_eq
removal_loaded = ap (λ (m : Manifest). ok m) (parse-render kept_entries ordered printable)
  where
    ordered : IsOrdered kept_entries
    ordered = unfold text_lt in ((refl, tt), (tt, tt))

    printable : IsPrintable kept_entries
    printable = (
      refl,
      omega arith,
      omega arith,
      omega arith,
      (refl, omega arith, omega arith, omega arith, tt),
    )

pub kept_drifted : verify kept_entries kept_path (codes "mine") ≡ false
unfolding verify lookup text_eq fingerprint
kept_drifted = refl

abbrev pub removal_plan : RemovalPlan
removal_plan = record {
  removes = foreign_path ∷ [];
  skipped = record { relname = kept_path; reason = drifted } ∷ [];
  manifest = kept_entries;
}

after_load : Option (List Text) → Manifest → Result RemovalPlan
unfolding is_selected
after_load marks m =
    classify_removals kept_disk (keep (is_selected marks) (keep is_removable_dropin (tracked m)))
      (record { removes = []; skipped = []; manifest = m })

classified : after_load none kept_entries ≡ ok removal_plan
unfolding after_load classify_removals is_selected is_removable_dropin is_tweak is_compositor_dropin
    ends_with strip_suffix starts_with text_eq tweaks verify lookup fingerprint
classified = refl

pub removal_planned : plan_remove_all kept_disk none ≡ ok removal_plan
unfolding plan_remove_all after_load
removal_planned = ap (λ (r : Result Manifest). r >>= after_load none) removal_loaded ∙ classified

plan_remove_all-MayRemove_example :
    (m : Manifest) × (Manifest.load kept_disk ≡ ok m)
    × All (MayRemove kept_disk m none) removal_plan.removes
plan_remove_all-MayRemove_example =
    plan_remove_all-MayRemove kept_disk none {plan = removal_plan} removal_planned
