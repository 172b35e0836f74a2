-- ===== src/Env/Varnames.antt =====
-- src/varnames.rs: the sets of names that decide about a variable.
use wsmr.Base.{List, [], ◌∷◌}
use wsmr.Base.Text.{Text, codes}
use wsmr.Base.Sets.{extend, text_key}

abbrev pub session_specific_list : List Text
session_specific_list =
    codes "XDG_SEAT"
    ∷ codes "XDG_SEAT_PATH"
    ∷ codes "XDG_SESSION_ID"
    ∷ codes "XDG_SESSION_PATH"
    ∷ codes "XDG_VTNR"
    ∷ []

abbrev pub always_export_list : List Text
always_export_list =
    codes "PATH"
    ∷ codes "XDG_CURRENT_DESKTOP"
    ∷ codes "XDG_MENU_PREFIX"
    ∷ codes "XDG_SESSION_DESKTOP"
    ∷ codes "XDG_SESSION_CLASS"
    ∷ codes "XDG_SESSION_TYPE"
    ∷ []

abbrev pub never_export_base : List Text
never_export_base =
    codes "PWD"
    ∷ codes "LS_COLORS"
    ∷ codes "INVOCATION_ID"
    ∷ codes "SHLVL"
    ∷ codes "SHELL"
    ∷ codes "TERM"
    ∷ codes "COLORTERM"
    ∷ codes "TERM_SESSION_TYPE"
    ∷ codes "NOTIFY_SOCKET"
    ∷ []

abbrev pub always_unset_base : List Text
always_unset_base = codes "DISPLAY" ∷ codes "WAYLAND_DISPLAY" ∷ []

abbrev pub always_cleanup_base : List Text
always_cleanup_base =
    codes "DISPLAY"
    ∷ codes "LANG"
    ∷ codes "PATH"
    ∷ codes "WAYLAND_DISPLAY"
    ∷ codes "XCURSOR_SIZE"
    ∷ codes "XCURSOR_THEME"
    ∷ codes "XDG_CURRENT_DESKTOP"
    ∷ codes "XDG_MENU_PREFIX"
    ∷ codes "XDG_SESSION_DESKTOP"
    ∷ codes "XDG_SESSION_CLASS"
    ∷ codes "XDG_SESSION_TYPE"
    ∷ codes "NOTIFY_SOCKET"
    ∷ []

abbrev pub never_cleanup_list : List Text
never_cleanup_list = codes "SSH_AGENT_LAUNCHER" ∷ codes "SSH_AUTH_SOCK" ∷ codes "SSH_AGENT_PID" ∷ []

-- `set_of` and `union_session`.
unfoldable pub set_of : List Text → List Text
unfolding extend
set_of items = extend [] items

unfoldable pub union_session : List Text → List Text
unfolding set_of extend
union_session base = extend (set_of base) session_specific_list

unfoldable pub session_specific : List Text
unfolding set_of
session_specific = set_of session_specific_list

unfoldable pub always_export : List Text
unfolding set_of
always_export = set_of always_export_list

unfoldable pub never_export : List Text
unfolding union_session
never_export = union_session never_export_base

unfoldable pub always_unset : List Text
unfolding union_session
always_unset = union_session always_unset_base

unfoldable pub always_cleanup : List Text
unfolding union_session
always_cleanup = union_session always_cleanup_base

unfoldable pub never_cleanup : List Text
unfolding set_of
never_cleanup = set_of never_cleanup_list
