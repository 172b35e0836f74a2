-- ===== src/Units/Plan.antt =====
-- src/units/plan.rs: what generation and removal intend to change, and what they refuse to touch.
pub mod Write
pub mod Removal
pub mod Tests
use wsmr.Base.{
  Bool, true, false, not, ◌&&◌, ◌||◌, Option, none, some, List, [], ◌∷◌, ◌++◌, if◌then◌else◌,
  is_empty, any, keep,
}
use wsmr.Base.Text.{Text, codes, text_eq, starts_with, ends_with, strip_prefix, strip_suffix}
use wsmr.Error.{Error, io, Result, ok, err, ◌>>=◌}
use wsmr.Disk.{File, missing, unreadable, content, Disk}
use wsmr.Units.Manifest
use wsmr.Units.Manifest.{Manifest, verify, tracked}
use wsmr.Units.Templates.{RenderCtx, render}
use wsmr.Units.Templates.Body.{UnitTemplate}
use wsmr.Units.Templates.Graph.{graph}
use wsmr.Units.Templates.Tweaks.{tweaks}
use wsmr.Units.Templates.Dropins.{DropinInput, preloader_dropin, service_dropin}

pub record PlannedWrite : Type 0 where
  pub relname : Text
  pub text : Text

pub data Reason : Type 0 where
  foreign_file foreign_dropin drifted : Reason

pub record Conflict : Type 0 where
  pub relname : Text
  pub reason : Reason

-- A planned removal is its relative name.
pub record GenerationPlan : Type 0 where
  pub writes : List PlannedWrite
  pub removes : List Text
  pub conflicts : List Conflict
  pub reclaimed : List Text
  pub manifest : Manifest

-- The method `is_empty`.
unfoldable pub changes_nothing : GenerationPlan → Bool
changes_nothing plan = is_empty plan.writes && is_empty plan.removes

pub record RemovalPlan : Type 0 where
  pub removes : List Text
  pub skipped : List Conflict
  pub manifest : Manifest

abbrev pub push_write : Text → Text → GenerationPlan → GenerationPlan
push_write relname text plan = record plan {
  writes = plan.writes ++ record { relname = relname; text = text } ∷ [];
}

abbrev pub push_conflict : Text → Reason → GenerationPlan → GenerationPlan
push_conflict relname reason plan = record plan {
  conflicts = plan.conflicts ++ record { relname = relname; reason = reason } ∷ [];
}

abbrev pub push_remove : Text → GenerationPlan → GenerationPlan
push_remove relname plan = record plan { removes = plan.removes ++ relname ∷ [] }

abbrev pub push_reclaimed : Text → GenerationPlan → GenerationPlan
push_reclaimed relname plan = record plan { reclaimed = plan.reclaimed ++ relname ∷ [] }

pub classify_write : Disk → Text → Text → GenerationPlan → Result GenerationPlan
classify_write d relname text plan = elim (d relname) [
  | missing ↦ ok (push_write relname text plan)
  | unreadable ↦ err (io relname)
  | content existing ↦
      if text_eq existing text
      then ok plan
      else if verify plan.manifest relname existing
      then ok (push_write relname text plan)
      else ok (push_conflict relname foreign_file plan)
]

-- The match on what exists and what is wanted.
pub decide_dropin : Text → Bool → Option Text → Option Text → GenerationPlan → GenerationPlan
decide_dropin relname reclaim_stale none (some text) plan = push_write relname text plan
decide_dropin relname reclaim_stale none none plan = plan
decide_dropin relname reclaim_stale (some existing) (some text) plan =
    if text_eq existing text
    then plan
    else if verify plan.manifest relname existing
    then push_write relname text plan
    else if reclaim_stale
    then push_write relname text (push_reclaimed relname plan)
    else push_conflict relname foreign_dropin plan
decide_dropin relname reclaim_stale (some existing) none plan =
    if verify plan.manifest relname existing then push_remove relname plan else plan

pub classify_dropin : Disk → Text → Option Text → Bool → GenerationPlan → Result GenerationPlan
unfolding decide_dropin
classify_dropin d relname wanted reclaim_stale plan = elim (d relname) [
  | missing ↦ ok (decide_dropin relname reclaim_stale none wanted plan)
  | unreadable ↦ err (io relname)
  | content existing ↦ ok (decide_dropin relname reclaim_stale (some existing) wanted plan)
]

pub classify_graph : Disk → RenderCtx → List UnitTemplate → GenerationPlan → Result GenerationPlan
classify_graph d ctx [] plan = ok plan
classify_graph d ctx (unit ∷ units) plan =
    classify_write d unit.name (render unit.body ctx) plan >>= classify_graph d ctx units

pub classify_tweaks :
    Disk → RenderCtx → Bool → Bool → List UnitTemplate → GenerationPlan → Result GenerationPlan
classify_tweaks d ctx enabled reclaim_stale [] plan = ok plan
classify_tweaks d ctx enabled reclaim_stale (tweak ∷ rest) plan =
    classify_dropin d tweak.name (if enabled then some (render tweak.body ctx) else none)
      reclaim_stale plan
    >>= classify_tweaks d ctx enabled reclaim_stale rest

abbrev pub preloader_name : Text → Text
preloader_name id = codes "wayland-wm-env@" ++ (id ++ codes ".service.d/50_custom.conf")

abbrev pub service_name : Text → Text
service_name id = codes "wayland-wm@" ++ (id ++ codes ".service.d/50_custom.conf")

abbrev pub empty_plan : Manifest → GenerationPlan
empty_plan m = record { writes = []; removes = []; conflicts = []; reclaimed = []; manifest = m }

unfoldable pub plan_generate : Disk → RenderCtx → DropinInput → Bool → Bool → Result GenerationPlan
plan_generate d ctx dropins tweaks_enabled reclaim_stale = do
  manifest ← Manifest.load d
  plan ← classify_graph d ctx graph (empty_plan manifest)
  plan' ← classify_tweaks d ctx tweaks_enabled reclaim_stale tweaks plan
  plan'' ←
      classify_dropin d (preloader_name dropins.id_unit_string) (preloader_dropin dropins)
        reclaim_stale plan'
  classify_dropin d (service_name dropins.id_unit_string) (service_dropin dropins) reclaim_stale
      plan''

unfoldable pub is_tweak : Text → Bool
unfolding tweaks
is_tweak relname = any (λ t. text_eq t.name relname) tweaks

unfoldable pub is_compositor_dropin : Text → Bool
unfolding ends_with starts_with
is_compositor_dropin relname =
    ends_with (codes ".service.d/50_custom.conf") relname
    && (starts_with (codes "wayland-wm@") relname || starts_with (codes "wayland-wm-env@") relname)

unfoldable pub is_removable_dropin : Text → Bool
unfolding is_tweak is_compositor_dropin
is_removable_dropin relname = is_tweak relname || is_compositor_dropin relname

strip_mark : Text → Text → Option Text
unfolding strip_prefix strip_suffix
strip_mark prefix relname = elim (strip_prefix prefix relname) [
  | none ↦ none
  | some rest ↦ strip_suffix (codes ".service.d/50_custom.conf") rest
]

or_else : Option Text → Option Text → Option Text
or_else none b = b
or_else (some a) b = some a

unfoldable pub mark_of : Text → Option Text
unfolding is_tweak strip_mark or_else
mark_of relname =
    if is_tweak relname
    then some (codes "tweaks")
    else or_else (strip_mark (codes "wayland-wm-env@") relname)
        (strip_mark (codes "wayland-wm@") relname)

is_marked : Option Text → List Text → Bool
is_marked none marks = false
is_marked (some m) marks = any (λ x. text_eq x m) marks

pub is_selected : Option (List Text) → Text → Bool
unfolding is_marked mark_of
is_selected none relname = true
is_selected (some marks) relname = is_marked (mark_of relname) marks

abbrev pub push_removal : Text → RemovalPlan → RemovalPlan
push_removal relname plan = record plan { removes = plan.removes ++ relname ∷ [] }

abbrev pub push_skipped : Text → RemovalPlan → RemovalPlan
push_skipped relname plan = record plan {
  skipped = plan.skipped ++ record { relname = relname; reason = drifted } ∷ [];
}

pub classify_removals : Disk → List Text → RemovalPlan → Result RemovalPlan
classify_removals d [] plan = ok plan
classify_removals d (relname ∷ rest) plan =
    let later = λ (p : RemovalPlan). classify_removals d rest p in
    elim (d relname) [
      | content existing ↦
          if verify plan.manifest relname existing
          then later (push_removal relname plan)
          else later (push_skipped relname plan)
      | missing ↦ later (push_removal relname plan)
      | unreadable ↦ err (io relname)
    ]

unfoldable pub plan_remove_all : Disk → Option (List Text) → Result RemovalPlan
unfolding is_selected
plan_remove_all d marks = do
  manifest ← Manifest.load d
  classify_removals d (keep (is_selected marks) (keep is_removable_dropin (tracked manifest)))
      (record { removes = []; skipped = []; manifest = manifest })
