-- ===== src/Sysd.antt =====
-- src/sysd/dbus.rs: what the program does with the answers of systemd and logind. The calls
-- themselves are the fields of the records.
pub mod Update
pub mod Poll
pub mod SessionBus
use wsmr.Base.{
  ℕ, Bool, true, false, not, ◌&&◌, Option, none, some, List, [], ◌∷◌, ◌==◌, if◌then◌else◌, first,
  any,
}
use wsmr.Base.Text.{Text, codes, text_eq, split_once, strip_prefix, strip_suffix}
use wsmr.Base.Maps.{Map, insert}
use wsmr.Error.{Error, Result, ok, err, ◌>>=◌}
use wsmr.Env.Filter.{keep_name}

-- Assignments `KEY=VALUE`; those of a name that is not kept are passed over.
pub add_assignment : Option (Text × Text) → Map Text → Map Text
unfolding keep_name insert
add_assignment none m = m
add_assignment (some (k, v)) m = if keep_name k then insert k v m else m

pub read_assignments : Map Text → List Text → Map Text
unfolding add_assignment split_once
read_assignments m [] = m
read_assignments m (a ∷ rest) = read_assignments (add_assignment (split_once b'=' a) m) rest

-- Of the answer of the manager's property `Environment`.
unfoldable pub systemd_vars : Result (List Text) → Result (Map Text)
unfolding read_assignments
systemd_vars environment = environment >>= λ list. ok (read_assignments [] list)

unfoldable pub is_dbus_broker : Result Text → Result Bool
unfolding text_eq
is_dbus_broker id = id >>= λ i. ok (text_eq i (codes "dbus-broker.service"))

-- The states and the patterns of a query, and the names of the units that it answers with.
abbrev pub UnitQuery : Type 0 → Type 0
UnitQuery B = List Text → List Text → B → Result (List Text)

abbrev pub running_states : List Text
running_states = codes "active" ∷ codes "activating" ∷ []

unfoldable pub active_wm_unit : {B : Type 0} → UnitQuery B → B → Result (Option Text)
active_wm_unit query b =
    query running_states (codes "wayland-wm@*.service" ∷ []) b >>= λ units. ok (first units)

unfoldable pub extract_wm_id : Text → Option Text
unfolding strip_prefix strip_suffix text_eq
extract_wm_id unit = elim (strip_prefix (codes "wayland-wm@") unit) [
  | none ↦ none
  | some s ↦ strip_suffix (codes ".service") s
]

pub record SessionInfo : Type 0 where
  pub session_id : Text
  pub uid : ℕ
  pub user : Text
  pub seat : Text

is_vt : Result ℕ → ℕ → Bool
is_vt (ok v) vtnr = v == vtnr
is_vt (err e) vtnr = false

pub first_on_vt : (Text → Result ℕ) → ℕ → ℕ → List SessionInfo → Option (Text × Text)
unfolding is_vt
first_on_vt session_vtnr uid vtnr [] = none
first_on_vt session_vtnr uid vtnr (s ∷ ss) =
    let rest = first_on_vt session_vtnr uid vtnr ss in
    if not (s.uid == uid)
    then rest
    else if is_vt (session_vtnr s.session_id) vtnr
    then some (s.session_id, s.seat)
    else rest

-- The session of the user on a terminal; one whose terminal is not told is passed over.
unfoldable pub session_by_vt :
    Result (List SessionInfo) → (Text → Result ℕ) → ℕ → ℕ → Result (Option (Text × Text))
unfolding first_on_vt
session_by_vt sessions session_vtnr uid vtnr =
    sessions >>= λ ss. ok (first_on_vt session_vtnr uid vtnr ss)
