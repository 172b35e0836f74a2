-- ===== src/Units/Templates/Graph.antt =====
-- src/units/templates.rs, GRAPH: the static unit graph.
use mathlib.Core.List.{List, [], ◌∷◌}
use wsmr.Base.Text.{codes}
use wsmr.Units.Templates.Body.{UnitTemplate, unlines}

unfoldable pub wayland_session_envelope_target : UnitTemplate
wayland_session_envelope_target = record {
  name = codes "wayland-session-envelope@.target";
  body = unlines (
      "[Unit]" ∷ "Description=Session envelope of %I Wayland compositor"
      ∷ "Documentation=man:uwsm(1) man:systemd.special(7)"
      ∷ "BindsTo=wayland-wm-env@%i.service wayland-wm@%i.service"
      ∷ "Before=wayland-wm-env@%i.service wayland-wm@%i.service"
      ∷ "PropagatesStopTo=wayland-wm@%i.service" ∷ "Conflicts=wayland-session-shutdown.target"
      ∷ "After=wayland-session-shutdown.target" ∷ "StopWhenUnneeded=yes" ∷ []);
}

unfoldable pub wayland_session_pre_target : UnitTemplate
wayland_session_pre_target = record {
  name = codes "wayland-session-pre@.target";
  body = unlines (
      "[Unit]" ∷ "Description=Preparation for session of %I Wayland compositor"
      ∷ "Documentation=man:uwsm(1) man:systemd.special(7)" ∷ "Requires=wayland-wm-env@%i.service"
      ∷ "BindsTo=graphical-session-pre.target" ∷ "Before=graphical-session-pre.target"
      ∷ "PropagatesStopTo=graphical-session-pre.target"
      ∷ "Conflicts=wayland-session-shutdown.target" ∷ "Before=wayland-session-shutdown.target"
      ∷ "RefuseManualStart=yes" ∷ "RefuseManualStop=yes" ∷ "StopWhenUnneeded=yes" ∷ []);
}

wayland_session_target : UnitTemplate
wayland_session_target = record {
  name = codes "wayland-session@.target";
  body = unlines (
      "[Unit]" ∷ "Description=Session of %I Wayland compositor"
      ∷ "Documentation=man:uwsm(1) man:systemd.special(7)"
      ∷ "Requires=wayland-session-pre@%i.target wayland-wm@%i.service"
      ∷ "Wants=wayland-session-waitenv.service wayland-session-xdg-autostart@%i.target"
      ∷ "After=graphical-session-pre.target" ∷ "BindsTo=graphical-session.target"
      ∷ "Before=graphical-session.target" ∷ "PropagatesStopTo=graphical-session.target"
      ∷ "Conflicts=wayland-session-shutdown.target" ∷ "Before=wayland-session-shutdown.target"
      ∷ "StopWhenUnneeded=yes" ∷ []);
}

wayland_session_xdg_autostart_target : UnitTemplate
wayland_session_xdg_autostart_target = record {
  name = codes "wayland-session-xdg-autostart@.target";
  body = unlines (
      "[Unit]" ∷ "Description=XDG Autostart for session of %I Wayland compositor"
      ∷ "Documentation=man:uwsm(1) man:systemd.special(7)" ∷ "PartOf=graphical-session.target"
      ∷ "After=wayland-session@%i.target graphical-session.target"
      ∷ "BindsTo=xdg-desktop-autostart.target" ∷ "Before=xdg-desktop-autostart.target"
      ∷ "PropagatesStopTo=xdg-desktop-autostart.target"
      ∷ "Conflicts=wayland-session-shutdown.target" ∷ "Before=wayland-session-shutdown.target"
      ∷ "StopWhenUnneeded=yes" ∷ []);
}

wayland_session_shutdown_target : UnitTemplate
wayland_session_shutdown_target = record {
  name = codes "wayland-session-shutdown.target";
  body = unlines (
      "[Unit]" ∷ "Description=Shutdown graphical session units"
      ∷ "Documentation=man:uwsm(1) man:systemd.special(7)" ∷ "DefaultDependencies=no"
      ∷ "Conflicts=graphical-session-pre.target graphical-session.target xdg-desktop-autostart.target"
      ∷ "After=graphical-session-pre.target graphical-session.target xdg-desktop-autostart.target"
      ∷ "StopWhenUnneeded=yes" ∷ []);
}

wayland_wm_service : UnitTemplate
wayland_wm_service = record {
  name = codes "wayland-wm@.service";
  body = unlines (
      "[Unit]" ∷ "Description=Main service for %I" ∷ "Documentation=man:uwsm(1)"
      ∷ "Requires=wayland-session-pre@%i.target" ∷ "BindsTo=wayland-session@%i.target"
      ∷ "Before=wayland-session@%i.target graphical-session.target"
      ∷ "PropagatesStopTo=wayland-session@%i.target graphical-session.target"
      ∷ "After=wayland-session-pre@%i.target graphical-session-pre.target"
      ∷ "Wants=wayland-session-envelope@%i.target" ∷ "OnSuccess=wayland-session-shutdown.target"
      ∷ "OnSuccessJobMode=replace-irreversibly" ∷ "OnFailure=wayland-session-shutdown.target"
      ∷ "OnFailureJobMode=replace-irreversibly" ∷ "Conflicts=wayland-session-shutdown.target"
      ∷ "Before=wayland-session-shutdown.target" ∷ "CollectMode=inactive-or-failed" ∷ "[Service]"
      ∷ "# awaits for ready state notification from compositor or child"
      ∷ "# should be issued by '@BIN_NAME@ finalize' for example" ∷ "Type=notify"
      ∷ "NotifyAccess=all" ∷ "ExecStart=@BIN_PATH@ aux exec -- %I" ∷ "Restart=no"
      ∷ "EnvironmentFile=-%t/@BIN_NAME@/env_session.conf" ∷ "TimeoutStartSec=30"
      ∷ "TimeoutStopSec=10" ∷ "SyslogIdentifier=@BIN_NAME@_%I" ∷ "Slice=session.slice" ∷ []);
}

wayland_wm_env_service : UnitTemplate
wayland_wm_env_service = record {
  name = codes "wayland-wm-env@.service";
  body = unlines (
      "[Unit]" ∷ "Description=Environment preloader for %I" ∷ "Documentation=man:uwsm(1)"
      ∷ "BindsTo=wayland-session-pre@%i.target"
      ∷ "Before=wayland-session-pre@%i.target graphical-session-pre.target"
      ∷ "PropagatesStopTo=wayland-session-pre@%i.target"
      ∷ "Wants=wayland-session-envelope@%i.target" ∷ "OnSuccess=wayland-session-shutdown.target"
      ∷ "OnSuccessJobMode=replace-irreversibly" ∷ "OnFailure=wayland-session-shutdown.target"
      ∷ "OnFailureJobMode=replace-irreversibly" ∷ "Conflicts=wayland-session-shutdown.target"
      ∷ "Before=wayland-session-shutdown.target" ∷ "RefuseManualStart=yes" ∷ "RefuseManualStop=yes"
      ∷ "StopWhenUnneeded=yes" ∷ "CollectMode=inactive-or-failed" ∷ "[Service]" ∷ "Type=oneshot"
      ∷ "RemainAfterExit=yes" ∷ "ExecStart=@BIN_PATH@ aux prepare-env -- \"%I\""
      ∷ "ExecStopPost=@BIN_PATH@ aux cleanup-env" ∷ "Restart=no"
      ∷ "EnvironmentFile=-%t/@BIN_NAME@/env_session.conf"
      ∷ "SyslogIdentifier=@BIN_NAME@_env-preloader" ∷ "Slice=session.slice" ∷ []);
}

wayland_session_waitenv_service : UnitTemplate
wayland_session_waitenv_service = record {
  name = codes "wayland-session-waitenv.service";
  body = unlines (
      "[Unit]" ∷ "Description=Wait for WAYLAND_DISPLAY and other variables"
      ∷ "Documentation=man:uwsm(1)" ∷ "Before=graphical-session.target"
      ∷ "After=graphical-session-pre.target" ∷ "CollectMode=inactive-or-failed"
      ∷ "OnFailure=wayland-session-shutdown.target" ∷ "OnFailureJobMode=replace-irreversibly"
      ∷ "Conflicts=wayland-session-shutdown.target" ∷ "Before=wayland-session-shutdown.target"
      ∷ "CollectMode=inactive-or-failed" ∷ "[Service]" ∷ "Type=oneshot" ∷ "RemainAfterExit=no"
      ∷ "ExecStart=@BIN_PATH@ aux waitenv" ∷ "Restart=no" ∷ "TimeoutStartSec=30"
      ∷ "SyslogIdentifier=@BIN_NAME@_waitenv" ∷ "Slice=background.slice" ∷ []);
}

wayland_session_bindpid_service : UnitTemplate
wayland_session_bindpid_service = record {
  name = codes "wayland-session-bindpid@.service";
  body = unlines (
      "[Unit]" ∷ "Description=Bind graphical session to PID %i" ∷ "Documentation=man:uwsm(1)"
      ∷ "OnSuccess=wayland-session-shutdown.target" ∷ "OnSuccessJobMode=replace-irreversibly"
      ∷ "OnFailure=wayland-session-shutdown.target" ∷ "OnFailureJobMode=replace-irreversibly"
      ∷ "Conflicts=wayland-session-shutdown.target" ∷ "Before=wayland-session-shutdown.target"
      ∷ "CollectMode=inactive-or-failed" ∷ "[Service]" ∷ "Type=exec"
      ∷ "ExecStart=/bin/sh -c \"if command -v @WAITPID_BIN@ >/dev/null; then exec @WAITPID_BIN@ -e %i; else exec @BIN_PATH@ aux waitpid %i; fi\" waitpid"
      ∷ "Restart=no" ∷ "SyslogIdentifier=@BIN_NAME@_bindpid" ∷ "Slice=background.slice" ∷ []);
}

wayland_wm_app_daemon_service : UnitTemplate
wayland_wm_app_daemon_service = record {
  name = codes "wayland-wm-app-daemon.service";
  body = unlines (
      "[Unit]" ∷ "Description=Fast application argument generator" ∷ "Documentation=man:uwsm(1)"
      ∷ "PartOf=graphical-session.target" ∷ "After=graphical-session.target"
      ∷ "Conflicts=wayland-session-shutdown.target" ∷ "Before=wayland-session-shutdown.target"
      ∷ "CollectMode=inactive-or-failed" ∷ "[Service]" ∷ "Type=exec"
      ∷ "ExecStart=@BIN_PATH@ aux app-daemon" ∷ "Restart=on-failure" ∷ "RestartMode=direct"
      ∷ "EnvironmentFile=-%t/@BIN_NAME@/env_session.conf" ∷ "SyslogIdentifier=@BIN_NAME@_app-daemon"
      ∷ "Slice=session.slice" ∷ []);
}

session_graphical_slice : UnitTemplate
session_graphical_slice = record {
  name = codes "session-graphical.slice";
  body = unlines (
      "[Unit]" ∷ "Description=User Graphical Session Application Slice"
      ∷ "Documentation=man:systemd.special(7)" ∷ "PartOf=graphical-session.target"
      ∷ "After=graphical-session.target" ∷ "Conflicts=wayland-session-shutdown.target"
      ∷ "Before=wayland-session-shutdown.target" ∷ []);
}

app_graphical_slice : UnitTemplate
app_graphical_slice = record {
  name = codes "app-graphical.slice";
  body = unlines (
      "[Unit]" ∷ "Description=User Graphical Application Slice"
      ∷ "Documentation=man:uwsm(1) man:systemd.special(7)" ∷ "PartOf=graphical-session.target"
      ∷ "After=graphical-session.target" ∷ "Conflicts=wayland-session-shutdown.target"
      ∷ "Before=wayland-session-shutdown.target" ∷ []);
}

background_graphical_slice : UnitTemplate
background_graphical_slice = record {
  name = codes "background-graphical.slice";
  body = unlines (
      "[Unit]" ∷ "Description=User Graphical Background Application Slice"
      ∷ "Documentation=man:uwsm(1) man:systemd.special(7)" ∷ "PartOf=graphical-session.target"
      ∷ "After=graphical-session.target" ∷ "Conflicts=wayland-session-shutdown.target"
      ∷ "Before=wayland-session-shutdown.target" ∷ []);
}

unfoldable pub graph : List UnitTemplate
unfolding wayland_session_envelope_target wayland_session_pre_target wayland_session_target
    wayland_session_xdg_autostart_target wayland_session_shutdown_target wayland_wm_service
    wayland_wm_env_service wayland_session_waitenv_service wayland_session_bindpid_service
    wayland_wm_app_daemon_service session_graphical_slice app_graphical_slice
    background_graphical_slice
graph =
    wayland_session_envelope_target ∷ wayland_session_pre_target ∷ wayland_session_target
    ∷ wayland_session_xdg_autostart_target ∷ wayland_session_shutdown_target ∷ wayland_wm_service
    ∷ wayland_wm_env_service ∷ wayland_session_waitenv_service ∷ wayland_session_bindpid_service
    ∷ wayland_wm_app_daemon_service ∷ session_graphical_slice ∷ app_graphical_slice
    ∷ background_graphical_slice ∷ []
