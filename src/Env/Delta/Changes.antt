-- ===== src/Env/Delta/Changes.antt =====
-- The three parts of the result of `compute_changes`, each described without its loops.
use wsmr.Base.{
  Bool, not, ◌&&◌, ◌||◌, Option, none, some, [], ◌≡◌, arith, if◌then◌else◌, keep, List, ◌∷◌,
  Bool-cases, inl, inr,
}
use wsmr.Base.Text.{Text}
use wsmr.Base.Maps.{Map, insert, remove, lookup, contains_key, keys, lookup-nil}
use wsmr.Base.Maps.Order.{IsOrdered, insert-IsOrdered, remove-IsOrdered}
use wsmr.Base.Sets
use wsmr.Base.Sets.{member, text_key, member-extend, member-keep}
use wsmr.Env.Files.Snapshot.{IsEnvMap}
use wsmr.Env.Varnames.{never_export, always_unset, always_export, never_cleanup}
use wsmr.Env.Delta.{
  insert_found, is_value, export_changed, force_export, remove_all, unset_missing, is_unprotected,
  compute_changes,
}
use wsmr.Env.Delta.Laws.{
  lookup-export_changed, lookup-force_export, lookup-remove_all, member-keys, member-unset_missing,
  member-unset_always,
}

-- Whether the loader's value of a name is to be exported: it is new or changed, or always exported.
abbrev pub is_exported : Text → Option Text → Text → Bool
is_exported k before v = not (is_value before v) || member k always_export

abbrev pub is_excluded : Text → Bool
is_excluded k = member k never_export || member k always_unset

abbrev pub exported : Text → Option Text → Option Text → Option Text
exported k before none = none
exported k before (some v) = if is_exported k before v then some v else none

-- Exactly these variables are set: not excluded, present after the loader ran, and new, changed or
-- always exported; each with the loader's value.
pub compute_changes-set :
    (pre post : Map Text) (k : Text)
    → IsOrdered post
    → lookup k (compute_changes pre post).set
      ≡ (if is_excluded k then none else exported k (lookup k pre) (lookup k post))
unfolding compute_changes
compute_changes-set pre post k o =
    let changed = export_changed pre [] post in
    let forced = force_export post changed always_export in
    ground (
      arith,
      lookup-nil {V = Text} k,
      lookup-export_changed pre [] post k o,
      lookup-force_export post changed always_export k,
      lookup-remove_all forced never_export k,
      lookup-remove_all (remove_all forced never_export) always_unset k,
    )

-- Exactly these variables are unset: present before, and gone after the loader or always unset.
pub compute_changes-unset :
    (pre post : Map Text) (k : Text)
    → member k (compute_changes pre post).unset
      ≡ (contains_key k pre && (not (contains_key k post) || member k always_unset))
unfolding compute_changes member
compute_changes-unset pre post k = ground (
  arith,
  member-keys pre k,
  member-unset_missing post [] (keys pre) k,
  member-unset_always pre (unset_missing post [] (keys pre)) always_unset k,
)

-- Exactly the variables that are set and not protected are recorded for cleanup.
pub compute_changes-cleanup :
    (pre post : Map Text) (k : Text)
    → member k (compute_changes pre post).cleanup
      ≡ (contains_key k (compute_changes pre post).set && not (member k never_cleanup))
unfolding compute_changes
compute_changes-cleanup pre post k = cleanup_of (compute_changes pre post).set
  where
    cleanup_of :
        (set : Map Text)
        → member k (Sets.extend [] (keep is_unprotected (keys set)))
          ≡ (contains_key k set && not (member k never_cleanup))
    cleanup_of set =
        rw
          (
            member-extend k [] (keep is_unprotected (keys set)),
            member-keep is_unprotected k (keys set),
          )
          (unfold is_unprotected member in ground (arith, member-keys set k))

export_changed-IsOrdered :
    (pre set post : Map Text) → IsOrdered set → IsOrdered (export_changed pre set post)
unfolding export_changed
export_changed-IsOrdered pre set [] h = h
export_changed-IsOrdered pre set ((k, v) ∷ post) h =
    export_changed-IsOrdered pre (if is_value (lookup k pre) v then set else insert k v set) post
      (elim (Bool-cases (is_value (lookup k pre) v)) [
        | inl e ↦ rw e h
        | inr e ↦ rw e (insert-IsOrdered k v set h)
      ])

force_export-IsOrdered :
    (post set : Map Text) (vars : List Text)
    → IsOrdered set
    → IsOrdered (force_export post set vars)
unfolding force_export
force_export-IsOrdered post set [] h = h
force_export-IsOrdered post set (var ∷ vars) h =
    force_export-IsOrdered post
      (if not (member var never_export) && not (member var always_unset)
        then insert_found var (lookup var post) set
        else set)
      vars
      (elim (Bool-cases (not (member var never_export) && not (member var always_unset))) [
        | inl e ↦ rw e (found (lookup var post))
        | inr e ↦ rw e h
      ])
  where
    found : (o : Option Text) → IsOrdered (insert_found var o set)
    found none = unfold insert_found in h
    found (some v) = unfold insert_found in insert-IsOrdered var v set h

remove_all-IsOrdered :
    (set : Map Text) (vars : List Text) → IsOrdered set → IsOrdered (remove_all set vars)
unfolding remove_all
remove_all-IsOrdered set [] h = h
remove_all-IsOrdered set (var ∷ vars) h =
    remove_all-IsOrdered (remove var set) vars (remove-IsOrdered var set h)

-- What is set is a map of variables where the loader's environment is one.
pub compute_changes-IsEnvMap :
    (pre post : Map Text) → IsEnvMap post → IsEnvMap (compute_changes pre post).set
compute_changes-IsEnvMap pre post (kept, o) = (
  (λ k c. kept k (ground (arith, c, compute_changes-set pre post k o))),
  unfold compute_changes in
      remove_all-IsOrdered
        (remove_all (force_export post (export_changed pre [] post) always_export) never_export)
        always_unset
        (remove_all-IsOrdered (force_export post (export_changed pre [] post) always_export)
          never_export
          (force_export-IsOrdered post (export_changed pre [] post) always_export
            (export_changed-IsOrdered pre [] post tt))),
)
