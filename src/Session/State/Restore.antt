-- ===== src/Session/State/Restore.antt =====
-- The end of a generation: what the environment of systemd is afterwards.
use wsmr.Base.{
  Bool, false, not, ◌&&◌, ◌||◌, Option, none, some, List, [], ◌∷◌, if◌then◌else◌, ◌≡◌, refl, ◌∙◌,
  ap, arith, ◌⊎◌, inl, inr,
}
use wsmr.Base.Text.{Text}
use wsmr.Base.Maps.{Map, contains_key}
use wsmr.Base.Sets.{member, text_key, member-extend, member-keep, extend}
use wsmr.Error.{Error, io, Result, ok, err, ◌>>=◌}
use wsmr.Env.Filter.{keep_name}
use wsmr.Env.Files.Snapshot.{IsEnvMap, load_env-IsEnvMap}
use wsmr.Disk.{File, missing, unreadable, content, Disk}
use wsmr.Env.Varnames.{always_cleanup, never_cleanup}
use wsmr.Env.Files.{CleanupEntry, entry_key, read_cleanup_entries, load_env}
use wsmr.Session.State.Cleanup.{locked-ok}
use wsmr.Session.State.{
  StateOps, World, Outcome, System, generation_path, cleanup_path, env_pre_path, read_generation,
  names_of, listed_names, to_unset, restore_vars, cleared, plan_restore, run_restore, exists,
  no_state, restore_and_clear_locked, end_generation, locked, run_locked,
}
use wsmr.Session.State.Manager.{
  set_value, unset_value, KeptNames, IsManager, CallFails, asking, Restored, restore_vars-Restored,
}

-- The list has the name under this generation.
abbrev pub listed_under : Text → List CleanupEntry → Text → Bool
listed_under g es k = member (record { generation = g; name = k }) es

member-names_of :
    (g k : Text) (es : List CleanupEntry) → member k (names_of g es) ≡ listed_under g es k
unfolding names_of member
member-names_of g k [] = refl
member-names_of g k (e ∷ es) = ground (arith, member-names_of g k es)

member-nil : (k : Text) → member k [] ≡ false
unfolding member
member-nil k = refl

-- What is left of a variable: that of the snapshot, or none where it is to be cleaned up, or itself.
abbrev pub after_end :
    List CleanupEntry → Text → Map Text → (Text → Option Text) → Text → Option Text
after_end es g pre before k = set_value pre k (
    if keep_name k
      && not (member k never_cleanup)
      && (listed_under g es k || member k always_cleanup)
    then none
    else before k)

-- How an end comes out for a variable that was `before` and is to be `after`: it has succeeded and the
-- variable is `after`; or a call has failed with the error that is returned, the disk is as it was, so that
-- the end can be tried again, and the variable is one of the two.
pub data EndsAs {B : Type 0} (ops : StateOps B) (pre : Map Text) (w : World B)
    (before after : Option Text) : Option Text → Outcome B (Unit {0}) → Type 0 where
  finished :
      {now : Option Text} {o : Outcome B (Unit {0})}
      → o.1 ≡ ok tt
      → now ≡ after
      → EndsAs ops pre w before after now o
  failed :
      {now : Option Text} {o : Outcome B (Unit {0})} (e : Error)
      → o.1 ≡ err e
      → CallFails ops pre w.bus e
      → o.0.disk ≡ w.disk
      → (now ≡ before) ⊎ (now ≡ after)
      → EndsAs ops pre w before after now o

member-to_unset :
    (k : Text) (listed : List Text) (systemd pre : Map Text)
    → member k (to_unset listed systemd pre) ≡ (
        (not (member k never_cleanup) && contains_key k systemd && not (contains_key k pre))
        && (member k always_cleanup || member k listed))
unfolding to_unset
member-to_unset k listed systemd pre =
    member-keep
      (λ j. not (member j never_cleanup) && contains_key j systemd && not (contains_key j pre)) k
      (extend listed always_cleanup)
    ∙ ap
        (λ (b : Bool).
          (not (member k never_cleanup) && contains_key k systemd && not (contains_key k pre)) && b)
        (member-extend k listed always_cleanup)

module _ {B : Type 0} (ops : StateOps B) (view : B → Text → Option Text)
    (law : IsManager ops view) where
  -- The names to unset are kept, are not in the snapshot, and are those of the description.
  to_unset-KeptNames :
      (listed : List Text) (systemd pre : Map Text) (b : B)
      → ops.systemd_vars b ≡ ok systemd
      → KeptNames (to_unset listed systemd pre)
  to_unset-KeptNames listed systemd pre b h k m =
      ground (arith, m, member-to_unset k listed systemd pre, law.vars_view b systemd k h)

  to_unset-apart :
      (k : Text) (listed : List Text) (systemd pre : Map Text)
      → (member k (to_unset listed systemd pre) && contains_key k pre) ≡ false
  to_unset-apart k listed systemd pre = ground (arith, member-to_unset k listed systemd pre)

  unset-after_end :
      (g : Text) (es : List CleanupEntry) (pre systemd : Map Text) (b : B) (k : Text)
      → ops.systemd_vars b ≡ ok systemd
      → set_value pre k
          (unset_value (to_unset (extend [] (names_of g es)) systemd pre) k (view b k))
        ≡ after_end es g pre (view b) k
  unset-after_end g es pre systemd b k h = ground (
    arith,
    law.vars_view b systemd k h,
    member-to_unset k (extend [] (names_of g es)) systemd pre,
    member-extend k [] (names_of g es),
    member-names_of g k es,
    member-nil k,
  )

  -- The files that a session has written, as they are read.
  plan_restore-read :
      (g : Text) (es : List CleanupEntry) (pre : Map Text) (d : Disk) (b : B)
      → read_generation (d generation_path) ≡ ok (some g)
      → read_cleanup_entries cleanup_path (d cleanup_path) ≡ ok es
      → load_env env_pre_path (d env_pre_path) ≡ ok pre
      → plan_restore ops d b ≡ (
          ops.systemd_vars b >>= λ systemd.
          ok (to_unset (extend [] (names_of g es)) systemd pre, pre))
  unfolding plan_restore listed_names
  plan_restore-read g es pre d b hg he hp = rw hg (rw he (rw hp refl))

  cleared-EndsAs :
      (sys : System) (names : List Text) (pre : Map Text) (w : World B) (k : Text)
      (after : Option Text) (r : B × Result (Unit {0}))
      → set_value pre k (unset_value names k (view w.bus k)) ≡ after
      → Restored ops view law names pre w.bus k r
      → EndsAs ops pre w
          (view w.bus k)
          after
          (view ((cleared sys w.disk r).0.bus) k)
          (cleared sys w.disk r)
  unfolding cleared Restored
  cleared-EndsAs sys names pre w k after (b, ok _) e (inl (done, now)) = finished refl (now ∙ e)
  cleared-EndsAs sys names pre w k after (b, ok _) e (inr (x, bad, _, _)) = cc
  cleared-EndsAs sys names pre w k after (b, err y) e (inl (done, now)) = cc
  cleared-EndsAs sys names pre w k after (b, err y) e (inr (x, bad, why, now)) =
      failed x bad why refl (elim now [ inl same ↦ inl same | inr un ↦ inr (un ∙ e) ])

  no_state-recorded :
      (g : Text) (d : Disk) → read_generation (d generation_path) ≡ ok (some g) → no_state d ≡ false
  unfolding no_state
  no_state-recorded g d h = go (d generation_path) h
    where
      go :
          (f : File)
          → read_generation f ≡ ok (some g)
          → (not (exists f) && not (exists (d cleanup_path)) && not (exists (d env_pre_path)))
            ≡ false
      go missing e = unfold read_generation in cc
      go unreadable e = unfold exists in refl
      go (content c) e = unfold exists in refl

  run_restore-EndsAs :
      (sys : System) (g : Text) (es : List CleanupEntry) (pre : Map Text) (w : World B) (k : Text)
      (r : Result (Map Text))
      → ops.systemd_vars w.bus ≡ r
      → IsEnvMap pre
      → EndsAs ops pre w
          (view w.bus k)
          (after_end es g pre (view w.bus) k)
          (view
            ((run_restore ops sys w
              (r >>= λ systemd. ok (to_unset (extend [] (names_of g es)) systemd pre, pre))).0.bus)
            k)
          (run_restore ops sys w
            (r >>= λ systemd. ok (to_unset (extend [] (names_of g es)) systemd pre, pre)))
  unfolding run_restore
  run_restore-EndsAs sys g es pre w k (err e) h env = failed e refl (asking h) refl (inl refl)
  run_restore-EndsAs sys g es pre w k (ok systemd) h env =
      let listed = extend [] (names_of g es) in
      let names = to_unset listed systemd pre in
      cleared-EndsAs sys names pre w k (after_end es g pre (view w.bus) k)
        (restore_vars ops names pre w.bus) (unset-after_end g es pre systemd w.bus k h)
        (restore_vars-Restored ops view law names pre w.bus k
          (to_unset-KeptNames listed systemd pre w.bus h) env (to_unset-apart k listed systemd pre))

  -- Where the state files of a session can be read, `end_generation` comes to one of two ends. It
  -- succeeds, and every variable of systemd is then as the snapshot has it, or unset where it is not in
  -- the snapshot and this generation listed it or it is always cleaned up, its name is kept, and it is
  -- not one that never is; every other variable is as before, also one that another generation listed.
  -- Or a call to systemd has failed: then that error is returned, no state file has changed, and every
  -- variable is as before or as it is to be.
  pub end_generation-view :
      (sys : System) (g : Text) (es : List CleanupEntry) (pre : Map Text) (w : World B) (k : Text)
      → sys.lock ≡ ok tt
      → read_generation (w.disk generation_path) ≡ ok (some g)
      → read_cleanup_entries cleanup_path (w.disk cleanup_path) ≡ ok es
      → load_env env_pre_path (w.disk env_pre_path) ≡ ok pre
      → EndsAs ops pre w
          (view w.bus k)
          (after_end es g pre (view w.bus) k)
          (view ((end_generation ops sys w).0.bus) k)
          (end_generation ops sys w)
  unfolding end_generation restore_and_clear_locked
  end_generation-view sys g es pre w k hl hg he hp =
      rw (locked-ok sys (restore_and_clear_locked ops sys) w hl) (
        rw (no_state-recorded g w.disk hg) (
          rw (plan_restore-read g es pre w.disk w.bus hg he hp) (
            run_restore-EndsAs sys g es pre w k (ops.systemd_vars w.bus) refl
              (load_env-IsEnvMap env_pre_path (w.disk env_pre_path) pre hp))))

module _ {B : Type 0} (ops : StateOps B) (sys : System) where
  plan_restore-unreadable :
      (d : Disk) (b : B)
      → d env_pre_path ≡ unreadable
      → (x : Error) × (plan_restore ops d b ≡ err x)
  unfolding plan_restore
  plan_restore-unreadable d b h = by_generation (read_generation (d generation_path)) refl
    where
      by_listed :
          (g : Option Text) (r : Result (List Text))
          → read_generation (d generation_path) ≡ ok g
          → listed_names g (d cleanup_path) ≡ r
          → (x : Error) × (plan_restore ops d b ≡ err x)
      by_listed g (ok names) hg hn = (io env_pre_path, rw hg (rw hn (rw (h, load_env))))
      by_listed g (err x) hg hn = (x, rw hg (rw hn refl))

      by_generation :
          (r : Result (Option Text))
          → read_generation (d generation_path) ≡ r
          → (x : Error) × (plan_restore ops d b ≡ err x)
      by_generation (ok g) hg = by_listed g (listed_names g (d cleanup_path)) hg refl
      by_generation (err x) hg = (x, rw hg refl)

  restore_fails :
      (w : World B)
      → w.disk env_pre_path ≡ unreadable
      → ((restore_and_clear_locked ops sys w).0 ≡ w)
        × ((x : Error) × ((restore_and_clear_locked ops sys w).1 ≡ err x))
  unfolding restore_and_clear_locked run_restore
  restore_fails w h =
      let (x, e) = plan_restore-unreadable w.disk w.bus h in
      let there : no_state w.disk ≡ false = rw (no_state, h) (ground arith) in
      rw there (rw e (refl, (x, refl)))

  -- Where the snapshot is there and cannot be read, `end_generation` fails, whatever else holds, and
  -- it has changed neither the environment of systemd nor a file: a later run can take it up.
  pub end_generation-unreadable :
      (w : World B)
      → w.disk env_pre_path ≡ unreadable
      → ((end_generation ops sys w).0 ≡ w) × ((x : Error) × ((end_generation ops sys w).1 ≡ err x))
  unfolding end_generation locked run_locked
  end_generation-unreadable w h = go sys.lock
    where
      fails :
          ((restore_and_clear_locked ops sys w).0 ≡ w)
          × ((x : Error) × ((restore_and_clear_locked ops sys w).1 ≡ err x))
      fails = restore_fails w h

      go :
          (l : Result (Unit {0}))
          → ((run_locked (restore_and_clear_locked ops sys) w l).0 ≡ w)
            × ((x : Error) × ((run_locked (restore_and_clear_locked ops sys) w l).1 ≡ err x))
      go (ok _) = fails
      go (err x) = (refl, (x, refl))
