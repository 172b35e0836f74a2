-- ===== src/Session/Start/DryRun.antt =====
-- A dry run of a start changes nothing and tells what a start would do.
use wsmr.Base.{
  ℕ, not, inl, inr, Bool-cases, Bool, true, false, if◌then◌else◌, is_empty, ◌≡◌, refl, ◌∙◌, ap,
}
use wsmr.Error.{generation_conflict, Result, ok, err}
use wsmr.Disk.{Device}
use wsmr.Util.{Host}
use wsmr.Comp.{CompGlobals}
use wsmr.Units.Plan.{GenerationPlan}
use wsmr.Session.State.{World, Outcome}
use wsmr.Session.Steps.{BusOps, ◌then◌, asked}
use wsmr.Session.Start.{
  gst_gate, run, StartOpts, Started, would_start, eligible, apply_for_real, with_plan, run_with,
}

abbrev pub dry : StartOpts → StartOpts
dry opts = record opts { dry_run = true }

abbrev pub real : StartOpts → StartOpts
real opts = record opts { dry_run = false }

module _ {B : Type 0} (ops : BusOps B) (dev : Device) (host : Host) where
  -- What the result of the dry run says of the real run: it fails with the same error and changes
  -- nothing, or it applies the plan, which has no conflict.
  abbrev pub Predicts : CompGlobals → StartOpts → World B → Result Started → Type 0
  Predicts comp opts w (err e) = run_with ops dev host comp (real opts) w ≡ (w, err e)
  Predicts comp opts w (ok s) =
      (s ≡ would_start)
      × ((plan : GenerationPlan) × (eligible ops dev host comp opts w ≡ ok plan)
          × (is_empty plan.conflicts ≡ true)
          × (run_with ops dev host comp (real opts) w
              ≡ apply_for_real ops dev host (real opts) plan w))

  run_with-eligible :
      (comp : CompGlobals) (opts : StartOpts) (w : World B) (r : Result GenerationPlan)
      → eligible ops dev host comp opts w ≡ r
      → run_with ops dev host comp opts w ≡ (asked r w then with_plan ops dev host opts)
  unfolding run_with
  run_with-eligible comp opts w r e =
      ap (λ (s : Result GenerationPlan). asked s w then with_plan ops dev host opts) e

  with_plan-conflict :
      (opts : StartOpts) (plan : GenerationPlan) (w : World B)
      → is_empty plan.conflicts ≡ false
      → with_plan ops dev host opts plan w ≡ (w, err generation_conflict)
  unfolding with_plan
  with_plan-conflict opts plan w h = rw h refl

  with_plan-clear :
      (opts : StartOpts) (plan : GenerationPlan) (w : World B)
      → is_empty plan.conflicts ≡ true
      → with_plan ops dev host opts plan w
        ≡ (if opts.dry_run then (w, ok would_start) else apply_for_real ops dev host opts plan w)
  unfolding with_plan
  with_plan-clear opts plan w h = rw h refl

  by_outcome :
      (comp : CompGlobals) (opts : StartOpts) (w : World B) (o : Outcome B Started)
      (r : Result Started)
      → o ≡ (w, r)
      → Predicts comp opts w r
      → (o.0 ≡ w) × Predicts comp opts w o.1
  by_outcome comp opts w o r e p = rw e (refl, p)

  -- Behind the gate.
  run_with-dry :
      (comp : CompGlobals) (opts : StartOpts) (w : World B)
      → ((run_with ops dev host comp (dry opts) w).0 ≡ w)
        × Predicts comp opts w ((run_with ops dev host comp (dry opts) w).1)
  run_with-dry comp opts w = go (eligible ops dev host comp opts w) refl
    where
      Holds : Type 0
      Holds =
          ((run_with ops dev host comp (dry opts) w).0 ≡ w)
          × Predicts comp opts w ((run_with ops dev host comp (dry opts) w).1)

      planned :
          (plan : GenerationPlan) (clear : Bool)
          → eligible ops dev host comp opts w ≡ ok plan
          → is_empty plan.conflicts ≡ clear
          → Holds
      planned plan true e c =
          by_outcome comp opts w (run_with ops dev host comp (dry opts) w) (ok would_start)
            (run_with-eligible comp (dry opts) w (ok plan) (unfold eligible in e)
              ∙ with_plan-clear (dry opts) plan w c)
            (
              refl,
              (
                plan,
                e,
                c,
                run_with-eligible comp (real opts) w (ok plan) (unfold eligible in e)
                    ∙ with_plan-clear (real opts) plan w c,
              ),
            )
      planned plan false e c =
          by_outcome comp opts w (run_with ops dev host comp (dry opts) w) (err generation_conflict)
            (run_with-eligible comp (dry opts) w (ok plan) (unfold eligible in e)
              ∙ with_plan-conflict (dry opts) plan w c)
            (run_with-eligible comp (real opts) w (ok plan) (unfold eligible in e)
              ∙ with_plan-conflict (real opts) plan w c)

      go : (r : Result GenerationPlan) → eligible ops dev host comp opts w ≡ r → Holds
      go (ok plan) e = planned plan (is_empty plan.conflicts) e refl
      go (err x) e =
          by_outcome comp opts w (run_with ops dev host comp (dry opts) w) (err x)
            (run_with-eligible comp (dry opts) w (err x) (unfold eligible in e))
            (run_with-eligible comp (real opts) w (err x) (unfold eligible in e))

  -- The gate of a start, which a generation alone does not pass either.
  abbrev pub gate : (ℕ → Result Bool) → StartOpts → Result (Unit {0})
  gate reached opts = if not opts.only_generate then gst_gate reached opts.gst_gate else ok tt

  -- What the result of the dry run says of the real run, by the answer of the gate: where that fails,
  -- the real run fails with its error and changes nothing, whatever the dry run says.
  abbrev pub PredictsRun :
      (ℕ → Result Bool)
      → CompGlobals
      → StartOpts
      → World B
      → Result Started
      → Result (Unit {0})
      → Type 0
  PredictsRun reached comp opts w r (err e) =
      run ops dev host reached comp (real opts) w ≡ (w, err e)
  PredictsRun reached comp opts w (err e) (ok _) =
      run ops dev host reached comp (real opts) w ≡ (w, err e)
  PredictsRun reached comp opts w (ok s) (ok _) =
      (s ≡ would_start)
      × ((plan : GenerationPlan) × (eligible ops dev host comp opts w ≡ ok plan)
          × (is_empty plan.conflicts ≡ true)
          × (run ops dev host reached comp (real opts) w
              ≡ apply_for_real ops dev host (real opts) plan w))

  run-gate :
      (reached : ℕ → Result Bool) (comp : CompGlobals) (opts : StartOpts) (w : World B)
      → run ops dev host reached comp (real opts) w
        ≡ (asked (gate reached opts) w then λ _. run_with ops dev host comp (real opts))
  unfolding run
  run-gate reached comp opts w = elim (Bool-cases opts.only_generate) [
    | inl e ↦ rw e refl
    | inr e ↦ rw e refl
  ]

  run_of_dry :
      (reached : ℕ → Result Bool) (comp : CompGlobals) (opts : StartOpts) (w : World B)
      → run ops dev host reached comp (dry opts) w ≡ run_with ops dev host comp (dry opts) w
  unfolding run
  run_of_dry reached comp opts w = elim (Bool-cases opts.only_generate) [
    | inl e ↦ rw e refl
    | inr e ↦ rw e refl
  ]

  -- A dry run leaves the disk and the other side as they are. It does not pass the gate of a start: where
  -- that fails, a start fails with the gate's error and leaves them as well. Where the gate is passed, or
  -- only units are generated, the dry run tells: where it fails, the real run fails with the same
  -- error and leaves everything as it is; where it does not, the real run applies the plan that was
  -- made, which has no conflict.
  pub run-dry :
      (reached : ℕ → Result Bool) (comp : CompGlobals) (opts : StartOpts) (w : World B)
      → ((run ops dev host reached comp (dry opts) w).0 ≡ w)
        × PredictsRun reached comp opts w
            ((run ops dev host reached comp (dry opts) w).1)
            (gate reached opts)
  run-dry reached comp opts w = rw (run_of_dry reached comp opts w) (
    (run_with-dry comp opts w).0,
    go (gate reached opts) (run-gate reached comp opts w)
        ((run_with ops dev host comp (dry opts) w).1) ((run_with-dry comp opts w).1),
  )
    where
      go :
          (g : Result (Unit {0}))
          → run ops dev host reached comp (real opts) w
            ≡ (asked g w then λ _. run_with ops dev host comp (real opts))
          → (r : Result Started) → Predicts comp opts w r
          → PredictsRun reached comp opts w r g
      go (err e) h r p = h
      go (ok _) h (err e) p = h ∙ p
      go (ok _) h (ok s) (would, (plan, made, clear, real_run)) =
          (would, (plan, made, clear, h ∙ real_run))
