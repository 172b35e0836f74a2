-- ===== src/Units/Plan/Removal.antt =====
-- What `plan_remove_all` plans to remove.
use mathlib.Core.Path.{subst}
use wsmr.Base.{
  true, false, Option, List, [], ◌∷◌, ◌++◌, ◌≡◌, refl, All, All-append, ◌⊎◌, inl, inr, keep,
  Bool-cases,
}
use wsmr.Base.Text.{Text}
use wsmr.Error.{Result, ok, err, >>=-eq-ok}
use wsmr.Disk.{File, missing, unreadable, content, Disk}
use wsmr.Units.Manifest
use wsmr.Units.Manifest.{Manifest, verify, tracked}
use wsmr.Units.Templates.Graph.{graph}
use wsmr.Units.Plan.{
  RemovalPlan, is_removable_dropin, is_selected, classify_removals, plan_remove_all,
}
use wsmr.Units.Plan.Write.{IsOwned}

-- A planned removal is of a drop-in that was asked for, and that is gone or still the program's own.
abbrev pub MayRemove : Disk → Manifest → Option (List Text) → Text → Type 0
MayRemove d m marks p =
    (is_removable_dropin p ≡ true)
    × (is_selected marks p ≡ true)
    × ((d p ≡ missing) ⊎ IsOwned m p (d p))

module _ (d : Disk) (m : Manifest) (marks : Option (List Text)) where
  record IsSafe (plan : RemovalPlan) : Type 0 where
    same_manifest : plan.manifest ≡ m
    removes_safe : All (MayRemove d m marks) plan.removes

  abbrev OkSafe : Result RemovalPlan → Type 0
  OkSafe (ok plan) = IsSafe plan
  OkSafe (err e) = Unit

  abbrev IsWanted : Text → Type 0
  IsWanted p = (is_removable_dropin p ≡ true) × (is_selected marks p ≡ true)

  wanted : (ps : List Text) → All IsWanted (keep (is_selected marks) (keep is_removable_dropin ps))
  wanted [] = tt
  wanted (p ∷ ps) = elim (Bool-cases (is_removable_dropin p)) [
    | inr other ↦ rw other (wanted ps)
    | inl drop ↦ rw drop (elim (Bool-cases (is_selected marks p)) [
      | inr other ↦ rw other (wanted ps)
      | inl sel ↦ rw sel ((drop, sel), wanted ps)
    ])
  ]

  push-IsSafe :
      (p : Text) (plan : RemovalPlan)
      → IsWanted p
      → (d p ≡ missing) ⊎ IsOwned m p (d p)
      → IsSafe plan
      → IsSafe (record plan { removes = plan.removes ++ p ∷ [] })
  push-IsSafe p plan (a, b) h s = record {
    same_manifest = s.same_manifest;
    removes_safe = All-append (MayRemove d m marks) plan.removes _ s.removes_safe ((a, b, h), tt);
  }

  classify_removals-OkSafe :
      (ps : List Text) (plan : RemovalPlan)
      → All IsWanted ps
      → IsSafe plan
      → OkSafe (classify_removals d ps plan)
  unfolding classify_removals
  classify_removals-OkSafe [] plan w s = s
  classify_removals-OkSafe (p ∷ ps) plan (w, ws) s =
      go (d p) refl (λ plan' s'. classify_removals-OkSafe ps plan' ws s')
    where
      go :
          (f : File)
          → d p ≡ f
          → ((plan' : RemovalPlan) → IsSafe plan' → OkSafe (classify_removals d ps plan'))
          → OkSafe (classify_removals d (p ∷ ps) plan)
      go missing e next = rw (e, OkSafe) (next _ (push-IsSafe p plan w (inl e) s))
      go unreadable e next = rw (e, OkSafe) tt
      go (content c) e next =
          rw (e, OkSafe)
            (elim (Bool-cases (verify plan.manifest p c)) [
              | inl own ↦
                  rw (own, OkSafe)
                    (next _ (push-IsSafe p plan w (inr (rw e (rw (← s.same_manifest) own))) s))
              | inr foreign ↦
                  rw (foreign, OkSafe)
                    (next _
                      (record { same_manifest = s.same_manifest; removes_safe = s.removes_safe }))
            ])

-- Everything that a removal plan removes is a drop-in with one of the wanted marks, and either gone
-- already or unchanged since the program wrote it.
pub plan_remove_all-MayRemove :
    (d : Disk) (marks : Option (List Text)) {plan : RemovalPlan}
    → plan_remove_all d marks ≡ ok plan
    → (m : Manifest) × (Manifest.load d ≡ ok m) × All (MayRemove d m marks) plan.removes
unfolding plan_remove_all
plan_remove_all-MayRemove d marks e =
    let (m, loaded, rest) = >>=-eq-ok (Manifest.load d) _ e in
    (
      m,
      loaded,
      (subst (OkSafe d m marks) rest (
          classify_removals-OkSafe d m marks _ _ (wanted d m marks (tracked m))
            (record { same_manifest = refl; removes_safe = tt }))).removes_safe,
    )

-- No unit of the static graph is a drop-in that may be removed.
pub graph-not-removable : All (λ u. is_removable_dropin u.name ≡ false) graph
unfolding graph is_removable_dropin
graph-not-removable = (
  refl,
  (
    refl,
    (refl, (refl, (refl, (refl, (refl, (refl, (refl, (refl, (refl, (refl, (refl, tt))))))))))),
  ),
)
