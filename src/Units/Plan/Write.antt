-- ===== src/Units/Plan/Write.antt =====
-- What `plan_generate` plans to write and to remove, and what it reports as reclaimed.
use mathlib.Core.Path.{subst}
use wsmr.Base.{
  Bool, true, false, ◌||◌, Option, none, some, List, [], ◌∷◌, ◌++◌, if◌then◌else◌, ◌≡◌, refl, ◌∙◌,
  arith, All, All-append, ◌⊎◌, inl, inr, Bool-cases,
}
use wsmr.Base.Text.{Text, text_eq, text_eq_iff}
use wsmr.Base.Sets.{member, member-append, text_key}
use wsmr.Error.{Result, ok, err, ◌>>=◌, >>=-eq-ok}
use wsmr.Disk.{File, missing, unreadable, content, IsReadable, Disk}
use wsmr.Units.Manifest
use wsmr.Units.Manifest.{Manifest, verify}
use wsmr.Units.Templates.{RenderCtx, render}
use wsmr.Units.Templates.Body.{UnitTemplate}
use wsmr.Units.Templates.Graph.{graph}
use wsmr.Units.Templates.Tweaks.{tweaks}
use wsmr.Units.Templates.Dropins.{DropinInput, preloader_dropin, service_dropin}
use wsmr.Units.Plan.{
  PlannedWrite, Reason, foreign_dropin, GenerationPlan, push_write, push_conflict, push_remove,
  push_reclaimed, classify_write, decide_dropin, classify_dropin, classify_graph, classify_tweaks,
  preloader_name, service_name, empty_plan, plan_generate,
}

-- The file at a path is the program's own: the manifest has the path with this content.
abbrev pub IsOwned : Manifest → Text → File → Type 0
IsOwned m p missing = ⊥
IsOwned m p unreadable = ⊥
IsOwned m p (content c) = verify m p c ≡ true

-- A path may be written if nothing stands there, the program owns it, or it was reclaimed.
abbrev pub MayWrite : Disk → Manifest → List Text → Text → Type 0
MayWrite d m reclaimed p =
    (d p ≡ missing) ⊎ (IsOwned m p (d p) ⊎ (IsReadable (d p) × (member p reclaimed ≡ true)))

pub record IsSafe (d : Disk) (m : Manifest) (plan : GenerationPlan) : Type 0 where
  pub same_manifest : plan.manifest ≡ m
  pub writes_safe : All (λ w. MayWrite d m plan.reclaimed w.relname) plan.writes
  pub removes_safe : All (λ r. IsOwned m r (d r)) plan.removes

module _ (d : Disk) (m : Manifest) where
  MayWrite-append :
      (reclaimed more : List Text) (ws : List PlannedWrite)
      → All (λ w. MayWrite d m reclaimed w.relname) ws
      → All (λ w. MayWrite d m (reclaimed ++ more) w.relname) ws
  MayWrite-append reclaimed more [] h = tt
  MayWrite-append reclaimed more (w ∷ ws) (h, hs) = (weaken h, MayWrite-append reclaimed more ws hs)
    where
      weaken : MayWrite d m reclaimed w.relname → MayWrite d m (reclaimed ++ more) w.relname
      weaken (inl a) = inl a
      weaken (inr (inl o)) = inr (inl o)
      weaken (inr (inr (r, k))) = inr (inr (r, member-append w.relname reclaimed more ∙ rw k))

  push_write-IsSafe :
      (p t : Text) (plan : GenerationPlan)
      → IsSafe d m plan
      → MayWrite d m plan.reclaimed p
      → IsSafe d m (push_write p t plan)
  push_write-IsSafe p t plan s may = record {
    same_manifest = s.same_manifest;
    writes_safe =
        All-append (λ (w : PlannedWrite). MayWrite d m plan.reclaimed w.relname) plan.writes _
          s.writes_safe (may, tt);
    removes_safe = s.removes_safe;
  }

  push_conflict-IsSafe :
      (p : Text) (plan : GenerationPlan) (r : Reason)
      → IsSafe d m plan
      → IsSafe d m (push_conflict p r plan)
  push_conflict-IsSafe p plan r s = record {
    same_manifest = s.same_manifest;
    writes_safe = s.writes_safe;
    removes_safe = s.removes_safe;
  }

  push_remove-IsSafe :
      (p : Text) (plan : GenerationPlan)
      → IsSafe d m plan
      → IsOwned m p (d p)
      → IsSafe d m (push_remove p plan)
  push_remove-IsSafe p plan s own = record {
    same_manifest = s.same_manifest;
    writes_safe = s.writes_safe;
    removes_safe =
        All-append (λ (r : Text). IsOwned m r (d r)) plan.removes _ s.removes_safe (own, tt);
  }

  push_reclaimed-IsSafe :
      (p : Text) (plan : GenerationPlan) → IsSafe d m plan → IsSafe d m (push_reclaimed p plan)
  push_reclaimed-IsSafe p plan s = record {
    same_manifest = s.same_manifest;
    writes_safe = MayWrite-append plan.reclaimed (p ∷ []) plan.writes s.writes_safe;
    removes_safe = s.removes_safe;
  }

  IsOwned-content :
      (p c : Text) (plan : GenerationPlan)
      → IsSafe d m plan
      → d p ≡ content c
      → verify plan.manifest p c ≡ true
      → IsOwned m p (d p)
  IsOwned-content p c plan s e v = rw e (rw (← s.same_manifest) v)

  abbrev pub OkSafe : Result GenerationPlan → Type 0
  OkSafe (ok plan) = IsSafe d m plan
  OkSafe (err e) = Unit

  classify_write-OkSafe :
      (p t : Text) (plan : GenerationPlan) → IsSafe d m plan → OkSafe (classify_write d p t plan)
  unfolding classify_write
  classify_write-OkSafe p t plan s = go (d p) refl
    where
      go : (f : File) → d p ≡ f → OkSafe (classify_write d p t plan)
      go missing e = rw (e, OkSafe) (push_write-IsSafe p t plan s (inl e))
      go unreadable e = rw (e, OkSafe) tt
      go (content c) e =
          rw (e, OkSafe)
            (elim (Bool-cases (text_eq c t)) [
              | inl same ↦ rw (same, OkSafe) s
              | inr differs ↦
                  rw (differs, OkSafe)
                    (elim (Bool-cases (verify plan.manifest p c)) [
                      | inl own ↦
                          rw (own, OkSafe)
                            (push_write-IsSafe p t plan s
                              (inr (inl (IsOwned-content p c plan s e own))))
                      | inr foreign ↦ rw (foreign, OkSafe) (push_conflict-IsSafe p plan _ s)
                    ])
            ])

  -- What is known of the file that was read.
  abbrev Found : Text → Option Text → Type 0
  Found p none = d p ≡ missing
  Found p (some c) = d p ≡ content c

  decide_dropin-IsSafe :
      (p : Text) (reclaim : Bool) (existing wanted : Option Text) (plan : GenerationPlan)
      → Found p existing
      → IsSafe d m plan
      → IsSafe d m (decide_dropin p reclaim existing wanted plan)
  unfolding decide_dropin
  decide_dropin-IsSafe p reclaim none none plan e s = s
  decide_dropin-IsSafe p reclaim none (some t) plan e s = push_write-IsSafe p t plan s (inl e)
  decide_dropin-IsSafe p reclaim (some c) none plan e s =
      elim (Bool-cases (verify plan.manifest p c)) [
        | inl own ↦ rw own (push_remove-IsSafe p plan s (IsOwned-content p c plan s e own))
        | inr foreign ↦ rw foreign s
      ]
  decide_dropin-IsSafe p reclaim (some c) (some t) plan e s = elim (Bool-cases (text_eq c t)) [
    | inl same ↦ rw same s
    | inr differs ↦ rw differs (elim (Bool-cases (verify plan.manifest p c)) [
      | inl own ↦
          rw own (push_write-IsSafe p t plan s (inr (inl (IsOwned-content p c plan s e own))))
      | inr foreign ↦ rw foreign (claim reclaim)
    ])
  ]
    where
      claim :
          (b : Bool)
          → IsSafe d m (
              if b
              then push_write p t (push_reclaimed p plan)
              else push_conflict p foreign_dropin plan)
      claim true =
          push_write-IsSafe p t (push_reclaimed p plan) (push_reclaimed-IsSafe p plan s)
            (inr (inr (rw e tt, member-append p plan.reclaimed (p ∷ []) ∙ self)))
        where
          self : (member p plan.reclaimed || member p (p ∷ [])) ≡ true
          self = unfold member in ground (arith, text_eq_iff p p)
      claim false = push_conflict-IsSafe p plan foreign_dropin s

  classify_dropin-OkSafe :
      (p : Text) (wanted : Option Text) (reclaim : Bool) (plan : GenerationPlan)
      → IsSafe d m plan
      → OkSafe (classify_dropin d p wanted reclaim plan)
  unfolding classify_dropin
  classify_dropin-OkSafe p wanted reclaim plan s = go (d p) refl
    where
      go : (f : File) → d p ≡ f → OkSafe (classify_dropin d p wanted reclaim plan)
      go missing e = rw (e, OkSafe) (decide_dropin-IsSafe p reclaim none wanted plan e s)
      go unreadable e = rw (e, OkSafe) tt
      go (content c) e = rw (e, OkSafe) (decide_dropin-IsSafe p reclaim (some c) wanted plan e s)

  bind-OkSafe :
      (r : Result GenerationPlan) (k : GenerationPlan → Result GenerationPlan)
      → OkSafe r
      → ((plan : GenerationPlan) → IsSafe d m plan → OkSafe (k plan))
      → OkSafe (r >>= k)
  bind-OkSafe (ok plan) k s next = next plan s
  bind-OkSafe (err e) k s next = tt

  classify_graph-OkSafe :
      (ctx : RenderCtx) (units : List UnitTemplate) (plan : GenerationPlan)
      → IsSafe d m plan
      → OkSafe (classify_graph d ctx units plan)
  unfolding classify_graph
  classify_graph-OkSafe ctx [] plan s = s
  classify_graph-OkSafe ctx (u ∷ us) plan s =
      bind-OkSafe (classify_write d u.name (render u.body ctx) plan) (classify_graph d ctx us)
        (classify_write-OkSafe u.name (render u.body ctx) plan s)
        (λ p' s'. classify_graph-OkSafe ctx us p' s')

  classify_tweaks-OkSafe :
      (ctx : RenderCtx) (enabled reclaim : Bool) (units : List UnitTemplate) (plan : GenerationPlan)
      → IsSafe d m plan
      → OkSafe (classify_tweaks d ctx enabled reclaim units plan)
  unfolding classify_tweaks
  classify_tweaks-OkSafe ctx enabled reclaim [] plan s = s
  classify_tweaks-OkSafe ctx enabled reclaim (u ∷ us) plan s =
      bind-OkSafe _ (classify_tweaks d ctx enabled reclaim us)
        (classify_dropin-OkSafe u.name _ reclaim plan s)
        (λ p' s'. classify_tweaks-OkSafe ctx enabled reclaim us p' s')

  pub classify_all-OkSafe :
      (ctx : RenderCtx) (dropins : DropinInput) (enabled reclaim : Bool)
      → OkSafe (do
        plan ← classify_graph d ctx graph (empty_plan m)
        plan' ← classify_tweaks d ctx enabled reclaim tweaks plan
        plan'' ←
            classify_dropin d
              (preloader_name dropins.id_unit_string)
              (preloader_dropin dropins)
              reclaim
              plan'
        classify_dropin d
            (service_name dropins.id_unit_string)
            (service_dropin dropins)
            reclaim
            plan'')
  classify_all-OkSafe ctx dropins enabled reclaim =
      bind-OkSafe _ _
        (classify_graph-OkSafe ctx graph (empty_plan m)
          (record { same_manifest = refl; writes_safe = tt; removes_safe = tt }))
        (λ p s. bind-OkSafe _ _ (classify_tweaks-OkSafe ctx enabled reclaim tweaks p s) (λ p' s'.
          bind-OkSafe _ _ (classify_dropin-OkSafe _ _ reclaim p' s')
            (λ p'' s''. classify_dropin-OkSafe _ _ reclaim p'' s'')))

-- Every write of a plan is to a path that is free, owned or reported as reclaimed, and every removal
-- is of a path that is owned, by the manifest that was loaded.
pub plan_generate-IsSafe :
    (d : Disk) (ctx : RenderCtx) (dropins : DropinInput) (enabled reclaim : Bool)
    {plan : GenerationPlan}
    → plan_generate d ctx dropins enabled reclaim ≡ ok plan
    → (m : Manifest) × (Manifest.load d ≡ ok m) × IsSafe d m plan
unfolding plan_generate
plan_generate-IsSafe d ctx dropins enabled reclaim e =
    let (m, loaded, rest) = >>=-eq-ok (Manifest.load d) _ e in
    (m, loaded, subst (OkSafe d m) rest (classify_all-OkSafe d m ctx dropins enabled reclaim))
