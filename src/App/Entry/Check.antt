-- ===== src/App/Entry/Check.antt =====
-- src/app/entry.rs: whether an entry can be launched, and whether it is shown.
use wsmr.Base.{
  Bool, true, false, not, ◌&&◌, Option, none, some, List, [], ◌∷◌, if◌then◌else◌, is_empty, any,
}
use wsmr.Base.Text.{Text, codes}
use wsmr.Base.Maps.{Map, lookup, is_some}
use wsmr.Base.Sets.{member, text_key}
use wsmr.Error.{invalid_arg, Result, ok, err, ◌>>=◌}
use wsmr.Util.{Host, which, unwrap_or}
use wsmr.Util.Xdg.{split_colon}
use wsmr.App.Entry.{DesktopEntry, get, group, exec, actions, is_text, split_list}

-- `is_none_or(str::is_empty)`
lacks : Option Text → Bool
lacks none = true
lacks (some s) = is_empty s

-- A step of the check that refuses the entry where the test holds.
refuse_if : Bool → Result (Unit {0})
refuse_if true = err invalid_arg
refuse_if false = ok tt

-- `TryExec` is there, is not empty, and names nothing that can be run.
try_exec_fails : Host → Option Text → Bool
unfolding which
try_exec_fails host none = false
try_exec_fails host (some tx) = not (is_empty tx) && not (is_some (which host tx))

check_group : Option (Map Text) → Result (Unit {0})
unfolding refuse_if lacks lookup
check_group none = err invalid_arg
check_group (some g) =
    refuse_if (lacks (lookup (codes "Name") g)) >>= λ _. refuse_if (lacks (lookup (codes "Exec") g))

check_action : DesktopEntry → Option Text → Result (Unit {0})
unfolding refuse_if check_group member actions group
check_action e none = ok tt
check_action e (some a) =
    refuse_if (not (member a (actions e))) >>= λ _. check_group (group e (some a))

command_of : List Text → Result Text
command_of [] = err invalid_arg
command_of (c ∷ rest) = if not (is_empty c) then ok c else err invalid_arg

check_command : Host → Result (List Text) → Result (Unit {0})
unfolding refuse_if command_of which
check_command host cmdline =
    cmdline >>= λ toks. command_of toks >>= λ cmd. refuse_if (not (is_some (which host cmd)))

unfoldable pub check_basic : Host → DesktopEntry → Option Text → Result (Unit {0})
unfolding refuse_if is_text lacks try_exec_fails check_action check_command get exec
check_basic host e action =
    refuse_if (not (is_text (codes "Application") (get e (codes "Type") none))) >>= λ _.
    refuse_if (lacks (get e (codes "Name") none)) >>= λ _.
    refuse_if (is_text (codes "true") (get e (codes "Hidden") none)) >>= λ _.
    refuse_if (try_exec_fails host (get e (codes "TryExec") none)) >>= λ _.
    check_action e action >>= λ _. check_command host (exec e action)

unfoldable pub check_showin : Host → DesktopEntry → Result (Unit {0})
unfolding refuse_if split_list split_colon get unwrap_or member
check_showin host e =
    let xcd = split_colon (unwrap_or [] (host.env_var (codes "XDG_CURRENT_DESKTOP"))) in
    let osi = split_list (get e (codes "OnlyShowIn") none) in
    let nsi = split_list (get e (codes "NotShowIn") none) in
    refuse_if (not (is_empty osi) && not (any (λ d. member d xcd) osi)) >>= λ _.
    refuse_if (not (is_empty nsi) && any (λ d. member d xcd) nsi)
