-- ===== src/Units/Templates/Tweaks.antt =====
-- src/units/templates.rs, TWEAKS: the fixed drop-ins.
use mathlib.Core.List.{List, [], ◌∷◌}
use wsmr.Base.Text.{codes}
use wsmr.Units.Templates.Body.{UnitTemplate, unlines}

app_autostart_service_d_slice_tweak_conf : UnitTemplate
app_autostart_service_d_slice_tweak_conf = record {
  name = codes "app-@autostart.service.d/slice-tweak.conf";
  body = unlines (
      "# injected by @BIN_NAME@, do not edit" ∷ "[Unit]" ∷ "X-UWSMMark=tweaks"
      ∷ "# make autostart apps stoppable/restartable by target"
      ∷ "PartOf=xdg-desktop-autostart.target" ∷ "After=xdg-desktop-autostart.target" ∷ "[Service]"
      ∷ "# also put them in special graphical app slice" ∷ "Slice=app-graphical.slice"
      ∷ "EnvironmentFile=-%t/@BIN_NAME@/env_session.conf" ∷ []);
}

app_flatpak_scope_d_order_tweak_conf : UnitTemplate
app_flatpak_scope_d_order_tweak_conf = record {
  name = codes "app-flatpak-.scope.d/order-tweak.conf";
  body = unlines (
      "# injected by @BIN_NAME@, do not edit" ∷ "[Unit]" ∷ "X-UWSMMark=tweaks"
      ∷ "# terminate with session properly" ∷ "PartOf=graphical-session.target"
      ∷ "After=graphical-session.target" ∷ "[Scope]"
      ∷ "# also put them in special graphical app slice" ∷ "Slice=app-graphical.slice" ∷ []);
}

plasma_xdg_desktop_portal_kde_service_d_order_tweak_conf : UnitTemplate
plasma_xdg_desktop_portal_kde_service_d_order_tweak_conf = record {
  name = codes "plasma-xdg-desktop-portal-kde.service.d/order-tweak.conf";
  body = unlines (
      "# injected by @BIN_NAME@, do not edit" ∷ "[Unit]" ∷ "X-UWSMMark=tweaks"
      ∷ "After=graphical-session.target" ∷ []);
}

unfoldable pub tweaks : List UnitTemplate
unfolding app_autostart_service_d_slice_tweak_conf app_flatpak_scope_d_order_tweak_conf
    plasma_xdg_desktop_portal_kde_service_d_order_tweak_conf
tweaks =
    app_autostart_service_d_slice_tweak_conf ∷ app_flatpak_scope_d_order_tweak_conf
    ∷ plasma_xdg_desktop_portal_kde_service_d_order_tweak_conf ∷ []
