-- ===== src/Units/Generate/Rollback.antt =====
-- Where a step of a plan fails, the rollback gives every file back.
use mathlib.Core.Path.{fun_ext, subst}
use mathlib.Core.List.{reverse, reverse-append}
use wsmr.Base.{true, List, [], ◌∷◌, ◌++◌, ◌≡◌, refl, ◌∙◌, sym, ap, All, inl, inr, Bool-cases}
use wsmr.Base.Text.{Text, text_eq, text_eq_iff}
use wsmr.Error.{Error}
use wsmr.Disk.{File, missing, unreadable, content, IsReadable, Disk, Device, put, can_write}
use wsmr.Disk.Laws.{
  put_self, atomic_write-ok, atomic_write_cases, remove_file_cases, gone, done, denied,
}
use wsmr.Units.Plan.{PlannedWrite, GenerationPlan}
use wsmr.Units.Generate.{
  Applied, readable, keep_written, keep_removed, restore_to, restore, restore_all, rollback, Batch,
  Progress, failed, write_step, remove_step, and_then, apply_writes, apply_removes, initial,
  run_plan,
}

-- A path that could be written can be removed again, and the other way round.
abbrev pub IsSteady : Device → Type 0
IsSteady dev = (p : Text) → can_write dev p ≡ dev.can_remove p

put-put_back : (p : Text) (f : File) (d : Disk) → put p (d p) (put p f d) ≡ d
put-put_back p f d = fun_ext (λ q. at_path q)
  where
    at_path : (q : Text) → put p (d p) (put p f d) q ≡ d q
    at_path q = elim (Bool-cases (text_eq p q)) [
      | inl same ↦ unfold put in rw same (ap d ((text_eq_iff p q).0 same))
      | inr other ↦ unfold put in rw other refl
    ]

put_same : (p : Text) (d : Disk) → put p (d p) d ≡ d
put_same p d = fun_ext (λ q. at_path q)
  where
    at_path : (q : Text) → put p (d p) d q ≡ d q
    at_path q = elim (Bool-cases (text_eq p q)) [
      | inl same ↦ unfold put in rw same (ap d ((text_eq_iff p q).0 same))
      | inr other ↦ unfold put in rw other refl
    ]

module _ (dev : Device) (steady : IsSteady dev) where
  -- Undoing a change of `p` that the device has allowed gives the disk back.
  restore_to-put :
      (p : Text) (f : File) (d : Disk)
      → can_write dev p ≡ true
      → IsReadable (d p)
      → restore_to dev p (readable (d p)) (put p f d) ≡ d
  unfolding restore_to keep_written keep_removed
  restore_to-put p f d can r = go (d p) refl r
    where
      back : (g : File) → d p ≡ g → put p g (put p f d) ≡ d
      back g e = rw (← e) (put-put_back p f d)

      go : (g : File) → d p ≡ g → IsReadable g → restore_to dev p (readable (d p)) (put p f d) ≡ d
      go unreadable e r' = absurd r'
      go (content c) e r' =
          rw (e, restore_to) (rw (atomic_write-ok dev p c (put p f d) can) (back (content c) e))
      go missing e r' =
          rw (e, restore_to)
            (elim (remove_file_cases dev p (put p f d)) [
              | gone m h ↦
                  rw h
                    (ap (λ (g : File). put p g d) (sym (put_self p f d) ∙ m ∙ sym e) ∙ put_same p d)
              | done c h ↦ rw h (back missing e)
              | denied no' h ↦ cc (can, no', steady p)
            ])

  -- Undoing a removal that found nothing changes nothing.
  restore_to_gone : (p : Text) (d : Disk) → d p ≡ missing → restore_to dev p (readable (d p)) d ≡ d
  unfolding restore_to keep_removed
  restore_to_gone p d m =
      rw (m, restore_to)
        (elim (remove_file_cases dev p d) [
          | gone m' h ↦ rw h refl
          | done c h ↦ rw h (rw (← m) (put_same p d))
          | denied no' h ↦ rw h refl
        ])

  -- Rolling back now would give `start`, and every file that was readable still is.
  record Undoes (start : Disk) (b : Batch) : Type 0 where
    back : rollback dev b.disk b.applied ≡ start
    still : (p : Text) → IsReadable (start p) → IsReadable (b.disk p)

  abbrev Fallback : Disk → Progress → Type 0
  Fallback start (Progress.done b) = Undoes start b
  Fallback start (failed d e) = d ≡ start

  rollback_last :
      (d d' : Disk) (applied : List Applied) (a : Applied)
      → restore dev a d' ≡ d
      → rollback dev d' (applied ++ a ∷ []) ≡ rollback dev d applied
  unfolding rollback restore_all
  rollback_last d d' applied a e =
      ap (restore_all dev d') (reverse-append applied (a ∷ []))
      ∙ ap (λ (x : Disk). restore_all dev x (reverse applied)) e

  IsReadable-put :
      (p q : Text) (f : File) (d : Disk)
      → IsReadable f
      → IsReadable (d q)
      → IsReadable (put p f d q)
  unfolding put
  IsReadable-put p q f d r r' = elim (Bool-cases (text_eq p q)) [
    | inl same ↦ rw (same, IsReadable) r
    | inr other ↦ rw (other, IsReadable) r'
  ]

  write_step-Fallback :
      (start : Disk) (b : Batch) (w : PlannedWrite)
      → IsReadable (start w.relname)
      → Undoes start b
      → Fallback start (write_step dev b w)
  unfolding write_step restore
  write_step-Fallback start b w r u = elim (atomic_write_cases dev w.relname w.text b.disk) [
    | inl (can, e) ↦
        rw (e, Fallback)
          (record {
            back =
                rollback_last b.disk _ b.applied _
                  (restore_to-put w.relname (content w.text) b.disk can (u.still w.relname r))
                ∙ u.back;
            still = λ q rq. IsReadable-put w.relname q (content w.text) b.disk tt (u.still q rq);
          })
    | inr (x, e) ↦ rw (e, Fallback) u.back
  ]

  remove_step-Fallback :
      (start : Disk) (b : Batch) (r : Text)
      → IsReadable (start r)
      → Undoes start b
      → Fallback start (remove_step dev b r)
  unfolding remove_step restore
  remove_step-Fallback start b r ok' u = elim (remove_file_cases dev r b.disk) [
    | gone m e ↦
        rw (e, Fallback)
          (record {
            back = rollback_last b.disk _ b.applied _ (restore_to_gone r b.disk m) ∙ u.back;
            still = u.still;
          })
    | done can e ↦
        rw (e, Fallback)
          (record {
            back =
                rollback_last b.disk _ b.applied _
                  (restore_to-put r missing b.disk (steady r ∙ can) (u.still r ok'))
                ∙ u.back;
            still = λ q rq. IsReadable-put r q missing b.disk tt (u.still q rq);
          })
    | denied no' e ↦ rw (e, Fallback) u.back
  ]

  and_then-Fallback :
      (start : Disk) (r : Progress) (k : Batch → Progress)
      → Fallback start r
      → ((b : Batch) → Undoes start b → Fallback start (k b))
      → Fallback start (and_then r k)
  and_then-Fallback start (Progress.done b) k u next = next b u
  and_then-Fallback start (failed d e) k h next = h

  apply_writes-Fallback :
      (start : Disk) (b : Batch) (ws : List PlannedWrite)
      → All (λ w. IsReadable (start w.relname)) ws
      → Undoes start b
      → Fallback start (apply_writes dev b ws)
  unfolding apply_writes
  apply_writes-Fallback start b [] h u = u
  apply_writes-Fallback start b (w ∷ ws) (h, hs) u =
      and_then-Fallback start (write_step dev b w) _ (write_step-Fallback start b w h u)
        (λ b' u'. apply_writes-Fallback start b' ws hs u')

  apply_removes-Fallback :
      (start : Disk) (b : Batch) (rs : List Text)
      → All (λ r. IsReadable (start r)) rs
      → Undoes start b
      → Fallback start (apply_removes dev b rs)
  unfolding apply_removes
  apply_removes-Fallback start b [] h u = u
  apply_removes-Fallback start b (r ∷ rs) (h, hs) u =
      and_then-Fallback start (remove_step dev b r) _ (remove_step-Fallback start b r h u)
        (λ b' u'. apply_removes-Fallback start b' rs hs u')

  run_plan-Fallback :
      (d : Disk) (plan : GenerationPlan)
      → All (λ w. IsReadable (d w.relname)) plan.writes
      → All (λ r. IsReadable (d r)) plan.removes
      → Fallback d (run_plan dev d plan)
  unfolding run_plan
  run_plan-Fallback d plan ws rs =
      and_then-Fallback d (apply_writes dev (initial d plan.manifest) plan.writes) _
        (apply_writes-Fallback d (initial d plan.manifest) plan.writes ws
          (record { back = unfold rollback restore_all in refl; still = λ p r. r }))
        (λ b u. apply_removes-Fallback d b plan.removes rs u)

  -- If a write or a removal of the plan fails, every file is as it was before the plan, as long as
  -- the files that it names can be read and what can be written can be removed and restored.
  pub run_plan-rollback :
      (d : Disk) (plan : GenerationPlan) {d' : Disk} {e : Error}
      → All (λ w. IsReadable (d w.relname)) plan.writes
      → All (λ r. IsReadable (d r)) plan.removes
      → run_plan dev d plan ≡ failed d' e
      → (p : Text) → d' p ≡ d p
  run_plan-rollback d plan ws rs h p =
      ap (λ (x : Disk). x p) (subst (Fallback d) h (run_plan-Fallback d plan ws rs))
