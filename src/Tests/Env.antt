-- ===== src/Tests/Env.antt =====
-- src/env: an environment before the loader and after it.
use wsmr.Base.{not, ◌&&◌, ◌||◌, none, [], ◌∷◌, ◌≡◌, refl, arith, if◌then◌else◌}
use wsmr.Base.Text.{Text, codes, text_eq, text_lt}
use wsmr.Base.Maps.{Map, lookup, contains_key}
use wsmr.Base.Maps.Order.{IsOrdered}
use wsmr.Base.Sets.{member, text_key}
use wsmr.Env.Varnames.{always_unset, never_cleanup}
use wsmr.Env.Filter.{keep_name, filter_map}
use wsmr.Env.Delta.{compute_changes}
use wsmr.Env.Delta.Changes.{
  is_excluded, exported, compute_changes-set, compute_changes-unset, compute_changes-cleanup,
}
use wsmr.Env.Files.{
  CleanupEntry, entry_key, nul, serialize_env, parse_env_nul, parse_cleanup_entries,
  render_cleanup_entries,
}
use wsmr.Env.Files.Snapshot.{parse_env_nul-serialize_env}
use wsmr.Env.Files.CleanupList.{IsWritable, parse_cleanup_entries-render}

abbrev pre : Map Text
pre = (codes "DISPLAY", codes ":0") ∷ (codes "LANG", codes "C") ∷ []

abbrev post : Map Text
post = (codes "LANG", codes "de_DE") ∷ (codes "PATH", codes "/bin") ∷ []

post-IsOrdered : IsOrdered post
unfolding text_lt
post-IsOrdered = ((refl, tt), (tt, tt))

compute_changes-set_example : lookup (codes "LANG") (compute_changes pre post).set ≡ (
    if is_excluded (codes "LANG")
    then none
    else exported (codes "LANG") (lookup (codes "LANG") pre) (lookup (codes "LANG") post))
compute_changes-set_example = compute_changes-set pre post (codes "LANG") post-IsOrdered

compute_changes-unset_example : member (codes "DISPLAY") (compute_changes pre post).unset ≡ (
    contains_key (codes "DISPLAY") pre
    && (not (contains_key (codes "DISPLAY") post) || member (codes "DISPLAY") always_unset))
compute_changes-unset_example = compute_changes-unset pre post (codes "DISPLAY")

compute_changes-cleanup_example : member (codes "LANG") (compute_changes pre post).cleanup ≡ (
    contains_key (codes "LANG") (compute_changes pre post).set
    && not (member (codes "LANG") never_cleanup))
compute_changes-cleanup_example = compute_changes-cleanup pre post (codes "LANG")

parse_env_nul-serialize_env_example : parse_env_nul (serialize_env post nul) ≡ filter_map post
parse_env_nul-serialize_env_example =
    parse_env_nul-serialize_env post post-IsOrdered (omega arith, (omega arith, tt))

abbrev entry : CleanupEntry
entry = record { generation = codes "00ff"; name = codes "LANG" }

entry-IsWritable : IsWritable entry
unfolding text_eq
entry-IsWritable = record {
  generation_ne_nil = refl;
  no_space = omega arith;
  no_newline = omega arith;
  no_return = omega arith;
  kept = unfold keep_name in refl;
}

parse_cleanup_entries-render_example :
    member entry (parse_cleanup_entries (render_cleanup_entries (entry ∷ [])))
    ≡ member entry (entry ∷ [])
parse_cleanup_entries-render_example =
    parse_cleanup_entries-render (entry ∷ []) entry (entry-IsWritable, tt)
