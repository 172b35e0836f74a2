-- ===== src/Units/Generate/Untouched.antt =====
-- A path that no planned write or removal names is left alone, also by a rollback.
use mathlib.Core.List.{reverse}
use mathlib.Core.Path.{subst}
use wsmr.Base.{
  Bool, true, false, not, Option, none, some, List, [], ◌∷◌, ◌≡◌, refl, ◌∙◌, All, All-append,
  All-reverse, inl, inr, is_empty, Bool-cases,
}
use wsmr.Base.Text.{Text, text_eq}
use wsmr.Error.{Result}
use wsmr.Disk.{File, missing, content, Disk, Device}
use wsmr.Disk.Laws.{put_other, atomic_write_cases, remove_file_cases, gone, done, denied}
use wsmr.Units.Manifest
use wsmr.Units.Manifest.{Manifest, manifest_name}
use wsmr.Units.Plan.{PlannedWrite, GenerationPlan, RemovalPlan}
use wsmr.Units.Generate.{
  GenOutcome, Applied, keep_written, keep_removed, restore_to, restore, restore_all, rollback,
  Batch, Progress, failed, write_step, remove_step, and_then, apply_writes, apply_removes, initial,
  finish, saved, conclude, run_plan, apply_generate, apply_removal,
}

module _ (dev : Device) (p : Text) where
  restore_to_other :
      (q : Text) (o : Option Text) (d : Disk) → text_eq q p ≡ false → restore_to dev q o d p ≡ d p
  unfolding restore_to keep_written keep_removed
  restore_to_other q (some c) d ne = elim (atomic_write_cases dev q c d) [
    | inl (w, e) ↦ rw e (put_other p q (content c) d ne)
    | inr (x, e) ↦ rw e refl
  ]
  restore_to_other q none d ne = elim (remove_file_cases dev q d) [
    | gone m e ↦ rw e refl
    | done r e ↦ rw e (put_other p q missing d ne)
    | denied no' e ↦ rw e refl
  ]

  -- None of the steps that would be rolled back is about `p`.
  abbrev pub Elsewhere : List Applied → Type 0
  Elsewhere applied = All (λ a. text_eq a.relname p ≡ false) applied

  restore_all_other :
      (d : Disk) (applied : List Applied) → Elsewhere applied → restore_all dev d applied p ≡ d p
  unfolding restore_all restore
  restore_all_other d [] h = refl
  restore_all_other d (a ∷ rest) (h, hs) =
      restore_all_other (restore_to dev a.relname a.previous d) rest hs
      ∙ restore_to_other a.relname a.previous d h

  rollback_other :
      (d : Disk) (applied : List Applied) → Elsewhere applied → rollback dev d applied p ≡ d p
  unfolding rollback
  rollback_other d applied h =
      restore_all_other d (reverse applied)
        (All-reverse (λ (a : Applied). text_eq a.relname p ≡ false) applied h)

  -- `p` still holds `f`, and no step so far was about it.
  abbrev pub Leaves : File → Progress → Type 0
  Leaves f (Progress.done b) = (b.disk p ≡ f) × Elsewhere b.applied
  Leaves f (failed d e) = d p ≡ f

  write_step-Leaves :
      (b : Batch) (w : PlannedWrite)
      → text_eq w.relname p ≡ false
      → Elsewhere b.applied
      → Leaves (b.disk p) (write_step dev b w)
  unfolding write_step
  write_step-Leaves b w ne h = elim (atomic_write_cases dev w.relname w.text b.disk) [
    | inl (can, e) ↦
        rw (e, Leaves)
          (
            put_other p w.relname (content w.text) b.disk ne,
            All-append (λ (a : Applied). text_eq a.relname p ≡ false) b.applied _ h (ne, tt),
          )
    | inr (x, e) ↦ rw (e, Leaves) (rollback_other b.disk b.applied h)
  ]

  remove_step-Leaves :
      (b : Batch) (r : Text)
      → text_eq r p ≡ false
      → Elsewhere b.applied
      → Leaves (b.disk p) (remove_step dev b r)
  unfolding remove_step
  remove_step-Leaves b r ne h = elim (remove_file_cases dev r b.disk) [
    | gone m e ↦
        rw (e, Leaves)
          (refl, All-append (λ (a : Applied). text_eq a.relname p ≡ false) b.applied _ h (ne, tt))
    | done can e ↦
        rw (e, Leaves)
          (
            put_other p r missing b.disk ne,
            All-append (λ (a : Applied). text_eq a.relname p ≡ false) b.applied _ h (ne, tt),
          )
    | denied no' e ↦ rw (e, Leaves) (rollback_other b.disk b.applied h)
  ]

  and_then-Leaves :
      (f : File) (r : Progress) (k : Batch → Progress)
      → Leaves f r
      → ((b : Batch) → b.disk p ≡ f → Elsewhere b.applied → Leaves f (k b))
      → Leaves f (and_then r k)
  and_then-Leaves f (Progress.done b) k (e, h) next = next b e h
  and_then-Leaves f (failed d e) k h next = h

  pub apply_writes-Leaves :
      (f : File) (b : Batch) (ws : List PlannedWrite)
      → b.disk p ≡ f
      → All (λ w. text_eq w.relname p ≡ false) ws
      → Elsewhere b.applied
      → Leaves f (apply_writes dev b ws)
  unfolding apply_writes
  apply_writes-Leaves f b [] e h a = (e, a)
  apply_writes-Leaves f b (w ∷ ws) e (h, hs) a =
      and_then-Leaves f (write_step dev b w) _
        (subst (λ g. Leaves g (write_step dev b w)) e (write_step-Leaves b w h a))
        (λ b' e' a'. apply_writes-Leaves f b' ws e' hs a')

  pub apply_removes-Leaves :
      (f : File) (b : Batch) (rs : List Text)
      → b.disk p ≡ f
      → All (λ r. text_eq r p ≡ false) rs
      → Elsewhere b.applied
      → Leaves f (apply_removes dev b rs)
  unfolding apply_removes
  apply_removes-Leaves f b [] e h a = (e, a)
  apply_removes-Leaves f b (r ∷ rs) e (h, hs) a =
      and_then-Leaves f (remove_step dev b r) _
        (subst (λ g. Leaves g (remove_step dev b r)) e (remove_step-Leaves b r h a))
        (λ b' e' a'. apply_removes-Leaves f b' rs e' hs a')

  finish_other :
      (needed : Bool) (m : Manifest) (b : Batch)
      → text_eq manifest_name p ≡ false
      → (finish dev needed m b).0 p ≡ b.disk p
  unfolding finish saved Manifest.save
  finish_other false m b ne = refl
  finish_other true m b ne =
      elim (atomic_write_cases dev manifest_name (Manifest.render m) b.disk) [
        | inl (can, e) ↦ rw e (put_other p manifest_name _ b.disk ne)
        | inr (x, e) ↦ rw e refl
      ]

  conclude_other :
      (f : File) (r : Progress) (k : Batch → Disk × Result GenOutcome)
      → Leaves f r
      → ((b : Batch) → (k b).0 p ≡ b.disk p)
      → (conclude r k).0 p ≡ f
  conclude_other f (Progress.done b) k (e, h) same = same b ∙ e
  conclude_other f (failed d e) k h same = h

  -- A path that the plan does not name, and that is not the manifest's, is left as it was, whatever
  -- step fails.
  pub apply_generate-untouched :
      (d : Disk) (plan : GenerationPlan)
      → text_eq manifest_name p ≡ false
      → All (λ w. text_eq w.relname p ≡ false) plan.writes
      → All (λ r. text_eq r p ≡ false) plan.removes
      → (apply_generate dev d plan).0 p ≡ d p
  unfolding apply_generate run_plan
  apply_generate-untouched d plan ne ws rs = elim (Bool-cases (not (is_empty plan.conflicts))) [
    | inl blocked ↦ rw blocked refl
    | inr free ↦ rw free (
        conclude_other (d p) _ _
          (and_then-Leaves (d p) (apply_writes dev (initial d plan.manifest) plan.writes) _
            (apply_writes-Leaves (d p) (initial d plan.manifest) plan.writes refl ws tt)
            (λ b e a. apply_removes-Leaves (d p) b plan.removes e rs a))
          (λ b. finish_other b.out.changed b.manifest b ne))
  ]

  pub apply_removal-untouched :
      (d : Disk) (plan : RemovalPlan)
      → text_eq manifest_name p ≡ false
      → All (λ r. text_eq r p ≡ false) plan.removes
      → (apply_removal dev d plan).0 p ≡ d p
  unfolding apply_removal
  apply_removal-untouched d plan ne rs =
      conclude_other (d p) _ _
        (apply_removes-Leaves (d p) (initial d plan.manifest) plan.removes refl rs tt)
        (λ b. finish_other _ _ b ne)
