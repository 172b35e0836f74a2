-- ===== src/Units/Templates/Dropins.antt =====
-- src/units/templates.rs: the `50_custom.conf` drop-ins of one compositor.
pub mod Tests
use wsmr.Base.{
  ℕ, Bool, true, false, not, ◌&&◌, ◌||◌, Option, none, some, List, [], ◌∷◌, ◌++◌, ◌==◌,
  if◌then◌else◌, is_empty, first,
}
use wsmr.Base.Text.{Text, codes, text_eq, join, starts_with}
use wsmr.Base.Maps.{is_some}
use wsmr.Units.Templates.Quote.{shlex_join}

pub record DropinInput : Type 0 where
  pub id : Text
  pub id_unit_string : Text
  pub bin_path : Text
  pub bin_name : Text
  pub name : Option Text
  pub description : Option Text
  pub desktop_names : List Text
  pub cli_desktop_names : List Text
  pub cli_desktop_names_exclusive : Bool
  pub cmdline : List Text
  pub cli_args : List Text

unfoldable pub non_empty : Option Text → Option Text
non_empty none = none
non_empty (some s) = if not (is_empty s) then some s else none

or_name : Option Text → Text → Text
or_name none bin_name = bin_name
or_name (some s) bin_name = s

part : Option Text → List Text
part none = []
part (some d) = d ∷ []

pub desc_substring : DropinInput → Text
unfolding non_empty or_name part join
desc_substring i =
    join (codes ", ") (or_name (non_empty i.name) i.bin_name ∷ part (non_empty i.description))

starts_absolute : Option Text → Bool
unfolding starts_with
starts_absolute none = false
starts_absolute (some a) = starts_with (codes "/") a

pub first_is_absolute : DropinInput → Bool
unfolding starts_absolute
first_is_absolute i = starts_absolute (first i.cmdline)

unfoldable pub header : Text → Text
header id = codes "# injected by wsmr, do not edit\n[Unit]\nX-UWSMMark=" ++ id ++ codes "\n"

pub exec_override : List Text → List Text → Text
unfolding shlex_join
exec_override base extra =
    codes "[Service]\nExecStart=\nExecStart=" ++ shlex_join (base ++ extra) ++ codes "\n"

texts_eq : List Text → List Text → Bool
unfolding text_eq
texts_eq [] [] = true
texts_eq (a ∷ as') (b ∷ bs) = text_eq a b && texts_eq as' bs
texts_eq _ _ = false

description_line : Text → DropinInput → Text
unfolding non_empty desc_substring
description_line what i =
    if is_some (non_empty i.name) || is_some (non_empty i.description)
    then codes "Description=" ++ what ++ codes " for " ++ desc_substring i ++ codes "\n"
    else []

pub preloader_args : DropinInput → List Text
unfolding texts_eq join
preloader_args i =
    if i.cli_desktop_names_exclusive
    then codes "-eD" ∷ join (codes ":") i.cli_desktop_names ∷ []
    else if not (texts_eq i.desktop_names (i.bin_name ∷ []))
    then codes "-D" ∷ join (codes ":") i.desktop_names ∷ []
    else []

absolute_arg : Bool → Option Text → List Text
absolute_arg true (some a) = a ∷ []
absolute_arg _ _ = []

finish : Text → Text → Option Text
unfolding header
finish id extra = if is_empty extra then none else some (header id ++ extra)

unfoldable pub preloader_dropin : DropinInput → Option Text
unfolding description_line preloader_args first_is_absolute absolute_arg exec_override finish
preloader_dropin i =
    let args = preloader_args i in
    let abs = first_is_absolute i in
    finish i.id (
      description_line (codes "Environment preloader") i
      ++ (if not (is_empty args) || abs
          then exec_override (i.bin_path ∷ codes "aux" ∷ codes "prepare-env" ∷ [])
              (args ++ (codes "--" ∷ codes "%I" ∷ absolute_arg abs (first i.cmdline)))
          else []))

pub service_args : DropinInput → List Text
unfolding first_is_absolute
service_args i =
    if first_is_absolute i
    then i.cmdline
    else if not (is_empty i.cli_args)
    then [] ∷ i.cli_args
    else []

unfoldable pub service_dropin : DropinInput → Option Text
unfolding description_line service_args exec_override finish
service_dropin i =
    let svc = service_args i in
    finish i.id (
      description_line (codes "Main service") i
      ++ (if not (is_empty svc)
          then exec_override
              (i.bin_path ∷ codes "aux" ∷ codes "exec" ∷ codes "--" ∷ codes "%I" ∷ []) svc
          else []))
