-- ===== src/Session/Process/Prepare/Tracked.antt =====
-- What each step of a session keeps: the state files, and each new variable on the cleanup list.
use mathlib.Core.Path.{subst}
use wsmr.Base.{
  true, false, Option, none, List, [], ◌∷◌, if◌then◌else◌, ◌≡◌, refl, ◌∙◌, sym, ap, arith, ◌⊎◌, inl,
  inr, Bool-cases, is_empty,
}
use wsmr.Base.Text.{Text, codes, text_eq_refl}
use wsmr.Base.Maps.{Map, lookup, keys, contains_key, is_some}
use wsmr.Base.Sets.{member, text_key}
use wsmr.Error.{Result, ok, err}
use wsmr.Disk.{can_write}
use wsmr.Util.{Host, non_empty}
use wsmr.Env.Filter.{keep_name}
use wsmr.Env.Filter.Laws.{nil-Kept}
use wsmr.Env.Varnames.{never_cleanup}
use wsmr.Env.Delta.{EnvChanges, compute_changes}
use wsmr.Env.Delta.Laws.{member-keys}
use wsmr.Env.Delta.Changes.{
  compute_changes-cleanup, compute_changes-unset, compute_changes-IsEnvMap,
}
use wsmr.Env.Files.{CleanupEntry, entry_key, load_env}
use wsmr.Env.Files.Snapshot.{IsEnvMap}
use wsmr.Session.State.{World, Outcome, System, cleanup_path, env_pre_path, append_cleanup}
use wsmr.Session.State.Cleanup.{IsEstablished, append_cleanup-Listed, append_cleanup-bus}
use wsmr.Session.State.Cleanup.Kept.{append_cleanup-Appended}
use wsmr.Session.State.Manager.{IsManager, KeptNames, unset_value}
use wsmr.Session.State.Restore.{listed_under}
use wsmr.Session.Steps.{BusOps, ◌then◌, asked, called}
use wsmr.Session.Process.Recorded.{export_from-Kept, export_from-IsOrdered}
use wsmr.Session.Process.{
  export_from, record_and_set, sync_delta, finalize_notice, finalize_export, finalize,
}
use wsmr.Session.Process.Prepare.{set_changed, unset_changed, apply_changes}

-- The state files of a generation are there; and the variable, where it was not in the snapshot, is
-- unset, or is on the cleanup list.
pub record IsTracked {B : Type 0} (view : B → Text → Option Text) (g : Text) (pre : Map Text)
    (k : Text) (w : World B) : Type 0 where
  pub es : List CleanupEntry
  pub established : IsEstablished g es w.disk
  pub snapshot : load_env env_pre_path (w.disk env_pre_path) ≡ ok pre
  pub covered :
      lookup k pre ≡ none
      → keep_name k ≡ true
      → member k never_cleanup ≡ false
      → (view w.bus k ≡ none) ⊎ (listed_under g es k ≡ true)

-- What a call may do to the variables that are not given.
abbrev pub Keeps : {B : Type 0} → (B → Text → Option Text) → List Text → B → B → Type 0
Keeps view names before after =
    (k : Text)
    → member k never_cleanup ≡ false
    → member k names ≡ false
    → (view after k ≡ view before k) ⊎ (view after k ≡ none)

module _ {B : Type 0} (ops : BusOps B) (sys : System) (view : B → Text → Option Text)
    (law : IsManager ops.state_ops view) (lock_ok : sys.lock ≡ ok tt)
    (can : can_write sys.dev cleanup_path ≡ true) (g : Text) (pre : Map Text) (k : Text) where
  entry : Text → CleanupEntry
  entry k = record { generation = g; name = k }

  exported-IsTracked :
      (names : List Text) (w v : World B)
      → IsTracked view g pre k w
      → v.disk ≡ (append_cleanup sys names w).0.disk
      → Keeps view names w.bus v.bus
      → IsTracked view g pre k v
  unfolding entry
  exported-IsTracked names w v t d keeps =
      let a =
        append_cleanup-Appended sys g t.established.tagged names t.es w lock_ok can t.established in
      record {
        es = a.es;
        established = subst (IsEstablished g a.es) (sym d) a.established;
        snapshot =
            ap (load_env env_pre_path) (ap (λ e. e env_pre_path) d ∙ a.same_snapshot) ∙ t.snapshot;
        covered = λ new' kept never. elim (Bool-cases (member k names)) [
          | inl there ↦ inr (ground (arith, a.on_list_iff (entry k), text_eq_refl g, kept, there))
          | inr absent ↦ elim (keeps k never absent) [
            | inr gone ↦ inl gone
            | inl same ↦ elim (t.covered new' kept never) [
              | inl unset ↦ inl (same ∙ unset)
              | inr listed ↦ inr (ground (arith, a.on_list_iff (entry k), listed))
            ]
          ]
        ];
      }

  set_view-other :
      (vars : Map Text) (b : B) (j : Text)
      → IsEnvMap vars
      → contains_key j vars ≡ false
      → view ((ops.state_ops.set_systemd_vars vars b).0) j ≡ view b j
  set_view-other vars b j h absent = elim (law.set_view vars b j h) [
    | inl (_, now) ↦ now ∙ ground (arith, absent)
    | inr (_, _, inl now) ↦ now
    | inr (_, _, inr now) ↦ now ∙ ground (arith, absent)
  ]

  record_and_set-IsTracked :
      (vars : Map Text) (w : World B)
      → IsEnvMap vars
      → IsTracked view g pre k w
      → IsTracked view g pre k ((record_and_set ops sys vars w).0)
  unfolding record_and_set
  record_and_set-IsTracked vars w env t =
      go (append_cleanup sys (keys vars) w) refl
        (append_cleanup-Listed sys (entry []) (keys vars) g t.es w lock_ok can t.established).0
    where
      go :
          (o : Outcome B (Unit {0}))
          → append_cleanup sys (keys vars) w ≡ o
          → o.1 ≡ ok tt
          → IsTracked view g pre k
              ((o then λ _ v. called (ops.state_ops.set_systemd_vars vars v.bus) v).0)
      go (v, err x) e h = cc
      go (v, ok _) e h =
          exported-IsTracked (keys vars) w _ t (ap (λ o. o.0.disk) (sym e)) (λ k never absent. inl (
            set_view-other vars v.bus k env (sym (member-keys vars k) ∙ absent)
            ∙ ap (λ b. view b k)
                (ap (λ o. o.0.bus) (sym e) ∙ append_cleanup-bus sys (keys vars) w)))

  pub sync_delta-IsTracked :
      (delta : Map Text) (w : World B)
      → IsEnvMap delta
      → IsTracked view g pre k w
      → IsTracked view g pre k ((sync_delta ops sys delta w).0)
  unfolding sync_delta
  sync_delta-IsTracked delta w env t = elim (Bool-cases (is_empty delta)) [
    | inl e ↦ rw e t
    | inr e ↦ rw e (record_and_set-IsTracked delta w env t)
  ]

  then_asked-IsTracked :
      {A C : Type 0} (f : World B → Result C) (o : Outcome B A)
      → IsTracked view g pre k o.0
      → IsTracked view g pre k ((o then λ _ v. asked (f v) v).0)
  then_asked-IsTracked f (v, err x) h = h
  then_asked-IsTracked f (v, ok a) h = h

  pub finalize-IsTracked :
      (host : Host) (extra : List Text) (w : World B)
      → IsTracked view g pre k w
      → IsTracked view g pre k ((finalize ops sys host extra w).0)
  unfolding finalize finalize_export
  finalize-IsTracked host extra w t =
      let names = codes "WAYLAND_DISPLAY" ∷ codes "DISPLAY" ∷ extra in
      let exported = export_from host names [] in
      elim (Bool-cases (is_some (non_empty (host.env_var (codes "WAYLAND_DISPLAY"))))) [
        | inr e ↦ rw e t
        | inl e ↦ rw e (
            then_asked-IsTracked (λ v. finalize_notice ops sys v.bus)
              (record_and_set ops sys exported w)
              (record_and_set-IsTracked exported w
                (export_from-Kept host names [] nil-Kept, export_from-IsOrdered host names [] tt)
                t))
      ]

  set_changed-effect :
      (vars : Map Text) (w : World B)
      → IsEnvMap vars
      → ((set_changed ops vars w).0.disk ≡ w.disk)
        × ((j : Text)
            → contains_key j vars ≡ false
            → view ((set_changed ops vars w).0.bus) j ≡ view w.bus j)
  unfolding set_changed
  set_changed-effect [] w env = (refl, λ j h. refl)
  set_changed-effect (v ∷ vars) w env = (refl, λ j. set_view-other (v ∷ vars) w.bus j env)

  unset_changed-effect :
      (names : List Text) (w : World B)
      → KeptNames names
      → ((unset_changed ops names w).0.disk ≡ w.disk)
        × ((j : Text)
            → (view ((unset_changed ops names w).0.bus) j ≡ view w.bus j)
              ⊎ (view ((unset_changed ops names w).0.bus) j ≡ none))
  unfolding unset_changed
  unset_changed-effect [] w kept = (refl, λ j. inl refl)
  unset_changed-effect (n ∷ names) w kept = (
    refl,
    λ j. elim (law.unset_view (n ∷ names) w.bus j kept) [
      | inl (_, now) ↦ unset_or_same j now
      | inr (_, _, inl now) ↦ inl now
      | inr (_, _, inr now) ↦ unset_or_same j now
    ],
  )
    where
      unset_or_same :
          (j : Text) {now : Option Text}
          → now ≡ unset_value (n ∷ names) j (view w.bus j)
          → (now ≡ view w.bus j) ⊎ (now ≡ none)
      unset_or_same j now = elim (Bool-cases (member j (n ∷ names))) [
        | inl there ↦ inr (now ∙ rw there refl)
        | inr absent ↦ inl (now ∙ rw absent refl)
      ]

  -- What both calls leave, also where the first one fails and the second one is not made.
  both_changed-effect :
      (vars : Map Text) (names : List Text) (w : World B)
      → IsEnvMap vars
      → KeptNames names
      → ((set_changed ops vars w then λ _. unset_changed ops names).0.disk ≡ w.disk)
        × ((j : Text)
            → contains_key j vars ≡ false
            → (view ((set_changed ops vars w then λ _. unset_changed ops names).0.bus) j
                ≡ view w.bus j)
              ⊎ (view ((set_changed ops vars w then λ _. unset_changed ops names).0.bus) j ≡ none))
  both_changed-effect vars names w env kept =
      let set = set_changed-effect vars w env in go (set_changed ops vars w) set.0 set.1
    where
      go :
          (o : Outcome B (Unit {0}))
          → o.0.disk ≡ w.disk
          → ((j : Text) → contains_key j vars ≡ false → view o.0.bus j ≡ view w.bus j)
          → ((o then λ _. unset_changed ops names).0.disk ≡ w.disk)
            × ((j : Text)
                → contains_key j vars ≡ false
                → (view ((o then λ _. unset_changed ops names).0.bus) j ≡ view w.bus j)
                  ⊎ (view ((o then λ _. unset_changed ops names).0.bus) j ≡ none))
      go (v, err e) d same = (d, λ j h. inl (same j h))
      go (v, ok _) d same =
          let unset = unset_changed-effect names v kept in
          (
            unset.0 ∙ d,
            λ j h. elim (unset.1 j) [ inl now ↦ inl (now ∙ same j h) | inr gone ↦ inr gone ],
          )

  pub apply_changes-IsTracked :
      (old new' : Map Text) (w : World B)
      → IsEnvMap old
      → IsEnvMap new'
      → IsTracked view g pre k w
      → IsTracked view g pre k ((apply_changes ops sys (compute_changes old new') w).0)
  unfolding apply_changes
  apply_changes-IsTracked old new' w old_env new_env t =
      go (append_cleanup sys changes.cleanup w) refl
        (append_cleanup-Listed sys (entry []) changes.cleanup g t.es w lock_ok can t.established).0
    where
      changes : EnvChanges
      changes = compute_changes old new'

      kept : KeptNames changes.unset
      kept j m = old_env.0 j (ground (arith, m, compute_changes-unset old new' j))

      go :
          (o : Outcome B (Unit {0}))
          → append_cleanup sys changes.cleanup w ≡ o
          → o.1 ≡ ok tt
          → IsTracked view g pre k (
              (o then λ _ v.
              set_changed ops changes.set v then λ _. unset_changed ops changes.unset).0)
      go (v, err x) e h = cc
      go (v, ok _) e h =
          let both =
            both_changed-effect changes.set changes.unset v
              (compute_changes-IsEnvMap old new' new_env) kept in
          let bus = ap (λ o. o.0.bus) (sym e) ∙ append_cleanup-bus sys changes.cleanup w in
          exported-IsTracked changes.cleanup w _ t (both.0 ∙ ap (λ o. o.0.disk) (sym e))
            (λ j never absent.
              elim (both.1 j (ground (arith, compute_changes-cleanup old new' j, never, absent))) [
                | inl same ↦ inl (same ∙ ap (λ b. view b j) bus)
                | inr gone ↦ inr gone
              ])
