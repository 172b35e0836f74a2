-- ===== src/Session/Check/Laws.antt =====
-- The verdict of the checks, and the conditions by themselves.
use wsmr.Base.{
  Bool, true, false, not, ◌&&◌, ◌||◌, List, [], ◌∷◌, ◌++◌, ◌==◌, ltb, if◌then◌else◌, is_empty, ◌≡◌,
  refl, ◌∙◌, sym, arith,
}
use wsmr.Error.{Result, ok, err}
use wsmr.Session.Check.{
  CheckOpts, Verdict, root, no_session_bus, not_login, parent_unknown, already_active,
  active_unknown, foreground_not_allowed, foreground_unknown, no_system_bus, no_session_id,
  no_session_vt, session_vt_not_allowed, session_vt_unknown, not_local, remote_unknown,
  no_graphical_target, graphical_target_unknown, may_start, Probes, Step, ended, continued, ◌then◌,
  contains, vt_checks, is_login, need_system, check_root, check_bus, check_login, check_active,
  check_foreground, check_system, check_session_vt, check_remote, check_graphical, all_checks,
  verdict, check_may_start_with,
}

abbrev pub ok_and {ℓ} : {A : Type ℓ} → Result A → (A → Bool) → Bool
ok_and (ok a) p = p a
ok_and (err _) p = false

-- The conditions of a start, each by itself.
abbrev pub meets_conditions : CheckOpts → Probes → Bool
meets_conditions o p =
    not p.is_root
    && p.dbus_session_present
    && (o.no_login || ok_and p.parent_cmdline is_login)
    && ok_and p.compositor_active not
    && (not (vt_checks o) || ok_and p.foreground_vt (λ vt. contains vt o.vtnr))
    && (not (need_system o) || ok_and p.connect_system (λ _. true))
    && (not (vt_checks o)
        || (not (is_empty p.session_id)
            && ok_and (p.session_vtnr p.session_id) (λ vt. not (vt == 0) && contains vt o.vtnr)))
    && (o.allow_remote
        || (not (is_empty p.session_id) && ok_and (p.session_remote p.session_id) not))
    && (not (ltb 0 o.gst_seconds) || ok_and (p.graphical_target_reached o.gst_seconds) (λ r. r))

-- A step that ends the run has a dealbreaker in it; one that goes on adds one where `c` fails.
abbrev Outcome : Bool → Bool → Step → Type 0
Outcome c before (ended w) = (may_start w ≡ false) × (c ≡ false)
Outcome c before (continued w) = may_start w ≡ (before && c)

abbrev IsCheckOf : Bool → (Verdict → Step) → Type 0
IsCheckOf c f = (v : Verdict) → Outcome c (may_start v) (f v)

is_empty-snoc {ℓ} : {A : Type ℓ} (l : List A) (a : A) → is_empty (l ++ a ∷ []) ≡ false
is_empty-snoc [] a = refl
is_empty-snoc (b ∷ l) a = refl

then-Outcome :
    (c d before : Bool) (s : Step) (g : Verdict → Step)
    → Outcome c before s
    → IsCheckOf d g
    → Outcome (c && d) before (elim s [ ended w ↦ ended w | continued w ↦ g w ])
then-Outcome c d before (ended w) g (bad, e) k = (bad, ground arith)
then-Outcome c d before (continued w) g e k = go (g w) (k w)
  where
    go : (s : Step) → Outcome d (may_start w) s → Outcome (c && d) before s
    go (ended x) (bad, f) = (bad, ground arith)
    go (continued x) f = ground arith

then-IsCheckOf :
    (c d : Bool) (f g : Verdict → Step)
    → IsCheckOf c f
    → IsCheckOf d g
    → IsCheckOf (c && d) (f then g)
unfolding ◌then◌
then-IsCheckOf c d f g k l v = then-Outcome c d (may_start v) (f v) g (k v) l

check_root-IsCheckOf : (p : Probes) → IsCheckOf (not p.is_root) (check_root p)
unfolding check_root may_start
check_root-IsCheckOf p v = ground (arith, is_empty-snoc v.silent root)

check_bus-IsCheckOf : (p : Probes) → IsCheckOf (p.dbus_session_present) (check_bus p)
unfolding check_bus may_start
check_bus-IsCheckOf p v = ground (arith, is_empty-snoc v.silent no_session_bus)

check_login-IsCheckOf :
    (o : CheckOpts) (p : Probes)
    → IsCheckOf (o.no_login || ok_and p.parent_cmdline is_login) (check_login o p)
unfolding check_login may_start
check_login-IsCheckOf o p v =
    ground (arith, is_empty-snoc v.silent not_login, is_empty-snoc v.errors parent_unknown)

check_active-IsCheckOf :
    (o : CheckOpts) (p : Probes) → IsCheckOf (ok_and p.compositor_active not) (check_active o p)
unfolding check_active may_start
check_active-IsCheckOf o p v =
    ground (arith, is_empty-snoc v.visible already_active, is_empty-snoc v.errors active_unknown)

check_foreground-IsCheckOf :
    (o : CheckOpts) (p : Probes)
    → IsCheckOf
        (not (vt_checks o) || ok_and p.foreground_vt (λ vt. contains vt o.vtnr))
        (check_foreground o p)
unfolding check_foreground may_start
check_foreground-IsCheckOf o p v = ground (
  arith,
  is_empty-snoc v.silent foreground_not_allowed,
  is_empty-snoc v.silent foreground_unknown,
)

check_system-IsCheckOf :
    (o : CheckOpts) (p : Probes)
    → IsCheckOf (not (need_system o) || ok_and p.connect_system (λ _. true)) (check_system o p)
unfolding check_system may_start
check_system-IsCheckOf o p v = ground (arith, is_empty-snoc v.errors no_system_bus)

check_session_vt-IsCheckOf :
    (o : CheckOpts) (p : Probes)
    → IsCheckOf
        (not (vt_checks o)
          || (not (is_empty p.session_id)
              && ok_and (p.session_vtnr p.session_id) (λ vt. not (vt == 0) && contains vt o.vtnr)))
        (check_session_vt o p)
unfolding check_session_vt may_start
check_session_vt-IsCheckOf o p v = ground (
  arith,
  is_empty-snoc v.silent no_session_id,
  is_empty-snoc v.silent no_session_vt,
  is_empty-snoc v.silent session_vt_not_allowed,
  is_empty-snoc v.errors session_vt_unknown,
)

check_remote-IsCheckOf :
    (o : CheckOpts) (p : Probes)
    → IsCheckOf
        (o.allow_remote
          || (not (is_empty p.session_id) && ok_and (p.session_remote p.session_id) not))
        (check_remote o p)
unfolding check_remote may_start
check_remote-IsCheckOf o p v = ground (
  arith,
  is_empty-snoc v.silent no_session_id,
  is_empty-snoc v.silent not_local,
  is_empty-snoc v.errors remote_unknown,
)

check_graphical-IsCheckOf :
    (o : CheckOpts) (p : Probes)
    → IsCheckOf
        (not (ltb 0 o.gst_seconds) || ok_and (p.graphical_target_reached o.gst_seconds) (λ r. r))
        (check_graphical o p)
unfolding check_graphical may_start
check_graphical-IsCheckOf o p v = ground (
  arith,
  is_empty-snoc v.silent no_graphical_target,
  is_empty-snoc v.errors graphical_target_unknown,
)

meets_conditions-cases : (s : Step) (c : Bool) → Outcome c true s → may_start (verdict s) ≡ c
unfolding verdict
meets_conditions-cases (ended w) c h = ground (arith, h)
meets_conditions-cases (continued w) c h = ground (arith, h)

all_checks-IsCheckOf :
    (o : CheckOpts) (p : Probes) → IsCheckOf (meets_conditions o p) (all_checks o p)
unfolding all_checks
all_checks-IsCheckOf o p =
    then-IsCheckOf _ _ _ _
      (then-IsCheckOf _ _ _ _
        (then-IsCheckOf _ _ _ _
          (then-IsCheckOf _ _ _ _
            (then-IsCheckOf _ _ _ _
              (then-IsCheckOf _ _ _ _
                (then-IsCheckOf _ _ _ _
                  (then-IsCheckOf _ _ _ _ (check_root-IsCheckOf p) (check_bus-IsCheckOf p))
                  (check_login-IsCheckOf o p))
                (check_active-IsCheckOf o p))
              (check_foreground-IsCheckOf o p))
            (check_system-IsCheckOf o p))
          (check_session_vt-IsCheckOf o p))
        (check_remote-IsCheckOf o p))
      (check_graphical-IsCheckOf o p)

-- The verdict has no error and no dealbreaker exactly where each condition of a start holds by
-- itself: the order of the checks, and that most of them end a short run, decide nothing.
pub may_start-check_may_start_with :
    (o : CheckOpts) (p : Probes) → may_start (check_may_start_with o p) ≡ meets_conditions o p
unfolding check_may_start_with may_start
may_start-check_may_start_with o p =
    meets_conditions-cases (all_checks o p start) (meets_conditions o p)
      (all_checks-IsCheckOf o p start)
  where
    start : Verdict
    start = record { errors = []; visible = []; silent = [] }

meets_conditions-verbose :
    (o : CheckOpts) (b : Bool) (p : Probes)
    → meets_conditions (record o { verbose = b }) p ≡ meets_conditions o p
unfolding vt_checks need_system
meets_conditions-verbose o b p = refl

-- Whether all reasons are reported or only the first one, the decision is the same.
pub may_start-verbose :
    (o : CheckOpts) (b : Bool) (p : Probes)
    → may_start (check_may_start_with (record o { verbose = b }) p)
      ≡ may_start (check_may_start_with o p)
may_start-verbose o b p =
    may_start-check_may_start_with (record o { verbose = b }) p
    ∙ meets_conditions-verbose o b p
    ∙ sym (may_start-check_may_start_with o p)
