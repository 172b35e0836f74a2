-- ===== src/Session/Check.antt =====
-- src/session/check.rs: the conditions of a start. A probe is the answer that it gives; a message is
-- the name of its reason.
pub mod Laws
use wsmr.Base.{
  ℕ, zero, suc, Bool, true, false, not, ◌&&◌, ◌||◌, List, [], ◌∷◌, ◌++◌, ◌==◌, ltb, if◌then◌else◌,
  is_empty, any,
}
use wsmr.Base.Text.{Text}
use wsmr.Error.{Error, Result, ok, err}

pub record CheckOpts : Type 0 where
  pub no_login : Bool
  pub vtnr : List ℕ
  pub allow_remote : Bool
  pub gst_seconds : ℕ
  pub verbose : Bool

pub data Reason : Type 0 where
  root no_session_bus not_login parent_unknown already_active active_unknown foreground_not_allowed
        foreground_unknown no_system_bus no_session_id no_session_vt session_vt_not_allowed
        session_vt_unknown not_local remote_unknown no_graphical_target graphical_target_unknown :
      Reason

pub record Verdict : Type 0 where
  pub errors : List Reason
  pub visible : List Reason
  pub silent : List Reason

unfoldable pub may_start : Verdict → Bool
may_start v = is_empty v.errors && is_empty v.visible && is_empty v.silent

pub record Probes : Type 0 where
  pub is_root : Bool
  pub dbus_session_present : Bool
  pub parent_cmdline : Result Text
  pub compositor_active : Result Bool
  pub foreground_vt : Result ℕ
  pub session_id : Text
  pub connect_system : Result (Unit {0})
  pub session_vtnr : Text → Result ℕ
  pub session_remote : Text → Result Bool
  pub graphical_target_reached : ℕ → Result Bool

-- A check ends the run (`return v`) or leaves it to the next one.
pub data Step : Type 0 where
  ended continued : Verdict → Step

infixl 5 ◌then◌
pub ◌then◌ : (Verdict → Step) → (Verdict → Step) → Verdict → Step
(f then g) v = elim (f v) [ ended w ↦ ended w | continued w ↦ g w ]

abbrev fail_error : Reason → Verdict → Step
fail_error r v =
    ended (record { errors = v.errors ++ r ∷ []; visible = v.visible; silent = v.silent })

abbrev fail_visible : Bool → Reason → Verdict → Step
fail_visible verbose r v =
    let w : Verdict = record {
      errors = v.errors;
      visible = v.visible ++ r ∷ [];
      silent = v.silent;
    } in
    if verbose then continued w else ended w

abbrev fail_silent : Bool → Reason → Verdict → Step
fail_silent verbose r v =
    let w : Verdict = record {
      errors = v.errors;
      visible = v.visible;
      silent = v.silent ++ r ∷ [];
    } in
    if verbose then continued w else ended w

pub contains : ℕ → List ℕ → Bool
contains n [] = false
contains n (m ∷ ms) = m == n || contains n ms

-- `opts.vtnr != [0]`
pub vt_checks : CheckOpts → Bool
vt_checks o = not (is_zero o.vtnr)
  where
    is_zero : List ℕ → Bool
    is_zero (zero ∷ []) = true
    is_zero _ = false

pub is_login : Text → Bool
is_login [] = false
is_login (c ∷ _) = c == b'-'

check_root : Probes → Verdict → Step
check_root p v = if p.is_root then fail_silent false root v else continued v

check_bus : Probes → Verdict → Step
check_bus p v = if p.dbus_session_present then continued v else fail_silent false no_session_bus v

check_login : CheckOpts → Probes → Verdict → Step
unfolding is_login
check_login o p v = if o.no_login then continued v else elim p.parent_cmdline [
  | ok cmd ↦ if is_login cmd then continued v else fail_silent o.verbose not_login v
  | err _ ↦ fail_error parent_unknown v
]

check_active : CheckOpts → Probes → Verdict → Step
check_active o p v = elim p.compositor_active [
  | ok active ↦ if active then fail_visible o.verbose already_active v else continued v
  | err _ ↦ fail_error active_unknown v
]

check_foreground : CheckOpts → Probes → Verdict → Step
unfolding contains vt_checks
check_foreground o p v =
    if vt_checks o
    then elim p.foreground_vt [
      | ok vt ↦
          if contains vt o.vtnr then continued v else fail_silent o.verbose foreground_not_allowed v
      | err _ ↦ fail_silent o.verbose foreground_unknown v
    ]
    else continued v

pub need_system : CheckOpts → Bool
unfolding vt_checks
need_system o = vt_checks o || not o.allow_remote || ltb 0 o.gst_seconds

check_system : CheckOpts → Probes → Verdict → Step
unfolding need_system
check_system o p v =
    if need_system o
    then elim p.connect_system [ ok _ ↦ continued v | err _ ↦ fail_error no_system_bus v ]
    else continued v

check_session_vt : CheckOpts → Probes → Verdict → Step
unfolding contains vt_checks
check_session_vt o p v =
    if vt_checks o
    then if is_empty p.session_id
      then fail_silent o.verbose no_session_id v
      else elim (p.session_vtnr p.session_id) [
        | ok vt ↦
            if vt == 0
            then fail_silent o.verbose no_session_vt v
            else if contains vt o.vtnr
            then continued v
            else fail_silent o.verbose session_vt_not_allowed v
        | err _ ↦ fail_error session_vt_unknown v
      ]
    else continued v

check_remote : CheckOpts → Probes → Verdict → Step
check_remote o p v =
    if o.allow_remote
    then continued v
    else if is_empty p.session_id
    then fail_silent o.verbose no_session_id v
    else elim (p.session_remote p.session_id) [
      | ok remote ↦ if remote then fail_silent o.verbose not_local v else continued v
      | err _ ↦ fail_error remote_unknown v
    ]

check_graphical : CheckOpts → Probes → Verdict → Step
check_graphical o p v =
    if ltb 0 o.gst_seconds
    then elim (p.graphical_target_reached o.gst_seconds) [
      | ok reached ↦ if reached then continued v else fail_silent o.verbose no_graphical_target v
      | err _ ↦ fail_error graphical_target_unknown v
    ]
    else continued v

all_checks : CheckOpts → Probes → Verdict → Step
unfolding ◌then◌ check_root check_bus check_login check_active check_foreground check_system
    check_session_vt check_remote check_graphical
all_checks o p =
    check_root p
    then check_bus p
    then check_login o p
    then check_active o p
    then check_foreground o p
    then check_system o p
    then check_session_vt o p
    then check_remote o p
    then check_graphical o p

verdict : Step → Verdict
verdict (ended v) = v
verdict (continued v) = v

unfoldable pub check_may_start_with : CheckOpts → Probes → Verdict
unfolding all_checks verdict
check_may_start_with o p =
    verdict (all_checks o p (record { errors = []; visible = []; silent = [] }))
