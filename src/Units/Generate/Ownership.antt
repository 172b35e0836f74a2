-- ===== src/Units/Generate/Ownership.antt =====
-- Generation as a whole: a plan that was made for a disk and is applied to it.
use wsmr.Base.{
  Bool, true, false, Option, List, [], ◌∷◌, ◌≡◌, refl, ap, All, ◌⊎◌, inl, inr, Bool-cases,
}
use wsmr.Base.Text.{Text, text_eq, text_eq_iff}
use wsmr.Base.Sets.{member, text_key}
use wsmr.Error.{Error, ok}
use wsmr.Disk.{File, missing, unreadable, content, IsReadable, Disk, Device}
use wsmr.Units.Manifest
use wsmr.Units.Manifest.{Manifest, verify, manifest_name}
use wsmr.Units.Templates.{RenderCtx}
use wsmr.Units.Templates.Dropins.{DropinInput}
use wsmr.Units.Plan.{
  PlannedWrite, GenerationPlan, RemovalPlan, is_removable_dropin, is_selected, plan_generate,
  plan_remove_all,
}
use wsmr.Units.Plan.Removal.{MayRemove, plan_remove_all-MayRemove}
use wsmr.Units.Plan.Write.{IsOwned, MayWrite, plan_generate-IsSafe}
use wsmr.Units.Generate.{failed, run_plan, apply_generate, apply_removal}
use wsmr.Units.Generate.Untouched.{apply_generate-untouched, apply_removal-untouched}
use wsmr.Units.Generate.Rollback.{IsSteady, run_plan-rollback}

module _ (d : Disk) (m : Manifest) where
  -- A path with content that the manifest does not have is named by no step of a safe plan.
  unnamed :
      (p c q : Text) (reclaimed : List Text)
      → d p ≡ content c
      → verify m p c ≡ false
      → member p reclaimed ≡ false
      → MayWrite d m reclaimed q
      → text_eq q p ≡ false
  unnamed p c q reclaimed e foreign kept may = elim (Bool-cases (text_eq q p)) [
    | inr other ↦ other
    | inl same ↦ absurd (refute may ((text_eq_iff q p).0 same))
  ]
    where
      refute : MayWrite d m reclaimed q → q ≡ p → ⊥
      refute (inl free) s = cc (ap d s)
      refute (inr (inl own)) s = cc (rw (s, e) at own)
      refute (inr (inr (r, k))) s = cc (rw s at k)

  writes_unnamed :
      (p c : Text) (reclaimed : List Text) (ws : List PlannedWrite)
      → d p ≡ content c
      → verify m p c ≡ false
      → member p reclaimed ≡ false
      → All (λ w. MayWrite d m reclaimed w.relname) ws
      → All (λ w. text_eq w.relname p ≡ false) ws
  writes_unnamed p c reclaimed [] e f k h = tt
  writes_unnamed p c reclaimed (w ∷ ws) e f k (h, hs) =
      (unnamed p c w.relname reclaimed e f k h, writes_unnamed p c reclaimed ws e f k hs)

  removes_unnamed :
      (p c : Text) (rs : List Text)
      → d p ≡ content c
      → verify m p c ≡ false
      → All (λ r. IsOwned m r (d r)) rs
      → All (λ r. text_eq r p ≡ false) rs
  removes_unnamed p c [] e f h = tt
  removes_unnamed p c (r ∷ rs) e f (h, hs) =
      (unnamed p c r [] e f (unfold member in refl) (inr (inl h)), removes_unnamed p c rs e f hs)

  owned-IsReadable : (p : Text) (f : File) → IsOwned m p f → IsReadable f
  owned-IsReadable p missing own = absurd own
  owned-IsReadable p unreadable own = absurd own
  owned-IsReadable p (content c) own = tt

  writes-IsReadable :
      (reclaimed : List Text) (ws : List PlannedWrite)
      → All (λ w. MayWrite d m reclaimed w.relname) ws
      → All (λ w. IsReadable (d w.relname)) ws
  writes-IsReadable reclaimed [] h = tt
  writes-IsReadable reclaimed (w ∷ ws) (h, hs) = (read h, writes-IsReadable reclaimed ws hs)
    where
      read : MayWrite d m reclaimed w.relname → IsReadable (d w.relname)
      read (inl free) = rw free tt
      read (inr (inl own)) = owned-IsReadable w.relname (d w.relname) own
      read (inr (inr (r, k))) = r

  removes-IsReadable :
      (rs : List Text) → All (λ r. IsOwned m r (d r)) rs → All (λ r. IsReadable (d r)) rs
  removes-IsReadable [] h = tt
  removes-IsReadable (r ∷ rs) (h, hs) = (owned-IsReadable r (d r) h, removes-IsReadable rs hs)

-- Generation never changes a file whose content the loaded manifest does not have for its path,
-- unless the plan reports the path as reclaimed; whether the steps succeed or fail. The manifest's
-- own file is excepted.
pub generate-keeps-foreign :
    (dev : Device) (d : Disk) (ctx : RenderCtx) (dropins : DropinInput) (enabled reclaim : Bool)
    (p c : Text) {plan : GenerationPlan} {m : Manifest}
    → plan_generate d ctx dropins enabled reclaim ≡ ok plan
    → Manifest.load d ≡ ok m
    → d p ≡ content c
    → verify m p c ≡ false
    → member p plan.reclaimed ≡ false
    → text_eq manifest_name p ≡ false
    → (apply_generate dev d plan).0 p ≡ d p
generate-keeps-foreign dev d ctx dropins enabled reclaim p c {plan} {m} planned loaded e foreign
      kept ne =
    let (m', loaded', safe) = plan_generate-IsSafe d ctx dropins enabled reclaim planned in
    let same : m' ≡ m = cc in
    let foreign' : verify m' p c ≡ false = rw same foreign in
    apply_generate-untouched dev p d plan ne
      (writes_unnamed d m' p c plan.reclaimed plan.writes e foreign' kept safe.writes_safe)
      (removes_unnamed d m' p c plan.removes e foreign' safe.removes_safe)

-- If a write or a removal of a plan that was made for the disk fails, every file is as it was, as
-- long as what can be written can be removed again and the other way round.
pub generate_rollback :
    (dev : Device) (d : Disk) (ctx : RenderCtx) (dropins : DropinInput) (enabled reclaim : Bool)
    (p : Text) {plan : GenerationPlan} {d' : Disk} {e : Error}
    → IsSteady dev
    → plan_generate d ctx dropins enabled reclaim ≡ ok plan
    → run_plan dev d plan ≡ failed d' e
    → d' p ≡ d p
generate_rollback dev d ctx dropins enabled reclaim p {plan} steady planned h =
    let (m, loaded, safe) = plan_generate-IsSafe d ctx dropins enabled reclaim planned in
    run_plan-rollback dev steady d plan
      (writes-IsReadable d m plan.reclaimed plan.writes safe.writes_safe)
      (removes-IsReadable d m plan.removes safe.removes_safe) h p

-- Why a removal must leave a path with content alone: it is no drop-in of the program (as all static
-- units), its mark was not asked for, or its content is not what the manifest has.
abbrev pub IsKept : Manifest → Option (List Text) → Text → Text → Type 0
IsKept m marks p c =
    (is_removable_dropin p ≡ false) ⊎ ((is_selected marks p ≡ false) ⊎ (verify m p c ≡ false))

removals_unnamed :
    (d : Disk) (m : Manifest) (marks : Option (List Text)) (p c : Text) (rs : List Text)
    → d p ≡ content c
    → IsKept m marks p c
    → All (MayRemove d m marks) rs
    → All (λ r. text_eq r p ≡ false) rs
removals_unnamed d m marks p c [] e k h = tt
removals_unnamed d m marks p c (r ∷ rs) e k ((drop, sel, own), hs) =
    (other (Bool-cases (text_eq r p)), removals_unnamed d m marks p c rs e k hs)
  where
    refute : r ≡ p → IsKept m marks p c → (d r ≡ missing) ⊎ IsOwned m r (d r) → ⊥
    refute s (inl k) o = cc
    refute s (inr (inl k)) o = cc
    refute s (inr (inr k)) (inl gone) = cc (ap d s)
    refute s (inr (inr k)) (inr own') = cc (rw (s, e) at own')

    other : (text_eq r p ≡ true) ⊎ (text_eq r p ≡ false) → text_eq r p ≡ false
    other (inr ne) = ne
    other (inl same) = absurd (refute ((text_eq_iff r p).0 same) k own)

-- Removal never changes a file that is not a drop-in with a wanted mark, or whose content is not what
-- the program wrote; whether the steps succeed or fail. The manifest's own file is excepted.
pub removal-keeps-foreign :
    (dev : Device) (d : Disk) (marks : Option (List Text)) (p c : Text) {plan : RemovalPlan}
    {m : Manifest}
    → plan_remove_all d marks ≡ ok plan
    → Manifest.load d ≡ ok m
    → d p ≡ content c
    → IsKept m marks p c
    → text_eq manifest_name p ≡ false
    → (apply_removal dev d plan).0 p ≡ d p
removal-keeps-foreign dev d marks p c {plan} {m} planned loaded e kept ne =
    let (m', loaded', safe) = plan_remove_all-MayRemove d marks planned in
    let same : m' ≡ m = cc in
    apply_removal-untouched dev p d plan ne
      (removals_unnamed d m' marks p c plan.removes e (rw same kept) safe)
