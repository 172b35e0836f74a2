-- ===== src/Util/Xdg.antt =====
-- src/util/xdg.rs: the base directories.
use wsmr.Base.{Option, none, some, List, ◌∷◌, not, is_empty, keep}
use wsmr.Base.Text.{Text, codes, split}
use wsmr.Error.{env_missing, Result, ok, err}
use wsmr.Util.{Host, non_empty, unwrap_or, join_path}

non_empty_var : Host → Text → Option Text
unfolding non_empty
non_empty_var host name = non_empty (host.env_var name)

-- A directory that falls back to one of the home directory.
below_home : Text → Option Text → Result Text
unfolding join_path
below_home sub none = err (env_missing (codes "HOME"))
below_home sub (some home) = ok (join_path home sub)

or_below_home : Host → Text → Option Text → Result Text
unfolding below_home non_empty_var
or_below_home host sub none = below_home sub (non_empty_var host (codes "HOME"))
or_below_home host sub (some v) = ok v

unfoldable pub config_home : Host → Result Text
unfolding or_below_home non_empty_var
config_home host =
    or_below_home host (codes ".config") (non_empty_var host (codes "XDG_CONFIG_HOME"))

unfoldable pub cache_home : Host → Result Text
unfolding or_below_home non_empty_var
cache_home host = or_below_home host (codes ".cache") (non_empty_var host (codes "XDG_CACHE_HOME"))

or_env_missing : Text → Option Text → Result Text
or_env_missing name none = err (env_missing name)
or_env_missing name (some v) = ok v

unfoldable pub runtime_dir : Host → Result Text
unfolding or_env_missing non_empty_var
runtime_dir host =
    or_env_missing (codes "XDG_RUNTIME_DIR") (non_empty_var host (codes "XDG_RUNTIME_DIR"))

share_of : Option Text → Text
unfolding join_path
share_of none = codes ".local/share"
share_of (some home) = join_path home (codes ".local/share")

-- An empty `$HOME` is taken here, unlike above.
unfoldable pub data_home : Host → Text
unfolding share_of non_empty_var unwrap_or
data_home host =
    unwrap_or (share_of (host.env_var (codes "HOME"))) (non_empty_var host (codes "XDG_DATA_HOME"))

-- The parts of a list that is separated by colons.
unfoldable pub split_colon : Text → List Text
unfolding split
split_colon s = keep (λ p. not (is_empty p)) (split b':' s)

unfoldable pub data_dirs : Host → List Text
unfolding split_colon unwrap_or non_empty_var
data_dirs host =
    split_colon
      (unwrap_or (codes "/usr/local/share:/usr/share") (non_empty_var host (codes "XDG_DATA_DIRS")))

unfoldable pub data_paths : Host → List Text
unfolding data_home data_dirs
data_paths host = data_home host ∷ data_dirs host

unfoldable pub config_dirs : Host → List Text
unfolding split_colon unwrap_or non_empty_var
config_dirs host =
    split_colon (unwrap_or (codes "/etc/xdg") (non_empty_var host (codes "XDG_CONFIG_DIRS")))

home_first : Result Text → List Text → List Text
home_first (ok h) dirs = h ∷ dirs
home_first (err e) dirs = dirs

unfoldable pub config_paths : Host → List Text
unfolding home_first config_home config_dirs
config_paths host = home_first (config_home host) (config_dirs host)
