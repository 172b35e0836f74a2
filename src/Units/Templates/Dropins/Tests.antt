-- ===== src/Units/Templates/Dropins/Tests.antt =====
-- A compositor that needs no drop-in.
use wsmr.Base.{false, none, [], ◌∷◌, ◌≡◌, refl}
use wsmr.Base.Text.{codes, text_eq, starts_with}
use wsmr.Units.Templates.Dropins.{
  DropinInput, preloader_dropin, service_dropin, finish, description_line, non_empty,
  preloader_args, texts_eq, first_is_absolute, starts_absolute, service_args,
}

abbrev pub plain_dropins : DropinInput
plain_dropins = record {
  id = codes "sway";
  id_unit_string = codes "sway";
  bin_path = codes "/usr/bin/wsmr";
  bin_name = codes "sway";
  name = none;
  description = none;
  desktop_names = codes "sway" ∷ [];
  cli_desktop_names = [];
  cli_desktop_names_exclusive = false;
  cmdline = codes "sway" ∷ [];
  cli_args = [];
}

pub no_preloader : preloader_dropin plain_dropins ≡ none
unfolding preloader_dropin finish description_line non_empty preloader_args texts_eq
    first_is_absolute starts_absolute text_eq starts_with
no_preloader = refl

pub no_service : service_dropin plain_dropins ≡ none
unfolding service_dropin finish description_line non_empty service_args first_is_absolute
    starts_absolute starts_with
no_service = refl
