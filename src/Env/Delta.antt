-- ===== src/Env/Delta.antt =====
-- src/env/delta.rs: what the bootstrap sets, unsets and records for cleanup.
pub mod Laws
pub mod Changes
use wsmr.Base.{
  Bool, true, false, not, ◌&&◌, ◌||◌, Option, none, some, List, [], ◌∷◌, if◌then◌else◌, keep,
}
use wsmr.Base.Text.{Text, text_eq}
use wsmr.Base.Maps.{Map, lookup, insert, remove, contains_key, keys}
use wsmr.Base.Sets
use wsmr.Base.Sets.{member, text_key}
use wsmr.Env.Varnames.{never_export, always_unset, always_export, never_cleanup}

pub record EnvChanges : Type 0 where
  pub set : Map Text
  pub unset : List Text
  pub cleanup : List Text

-- `env_pre.get(k) == Some(v)`
unfoldable pub is_value : Option Text → Text → Bool
is_value none v = false
is_value (some w) v = text_eq w v

-- The first loop: entries of `post` that differ from `pre`.
pub export_changed : Map Text → Map Text → Map Text → Map Text
export_changed pre set [] = set
export_changed pre set ((k, v) ∷ post) =
    export_changed pre (if is_value (lookup k pre) v then set else insert k v set) post

insert_found : Text → Option Text → Map Text → Map Text
insert_found var none set = set
insert_found var (some v) set = insert var v set

-- The second loop, over `always_export`.
pub force_export : Map Text → Map Text → List Text → Map Text
unfolding insert_found
force_export post set [] = set
force_export post set (var ∷ vars) =
    force_export post
      (if not (member var never_export) && not (member var always_unset)
        then insert_found var (lookup var post) set
        else set)
      vars

-- The third loop, over `never_export` and `always_unset`.
pub remove_all : Map Text → List Text → Map Text
remove_all set [] = set
remove_all set (var ∷ vars) = remove_all (remove var set) vars

-- The keys of `pre` that `post` does not have.
pub unset_missing : Map Text → List Text → List Text → List Text
unset_missing post unset [] = unset
unset_missing post unset (k ∷ ks) =
    unset_missing post (if not (contains_key k post) then Sets.insert k unset else unset) ks

-- The names to unset that `pre` has.
pub unset_always : Map Text → List Text → List Text → List Text
unset_always pre unset [] = unset
unset_always pre unset (var ∷ vars) =
    unset_always pre (if contains_key var pre then Sets.insert var unset else unset) vars

-- The filter of `cleanup`.
pub is_unprotected : Text → Bool
is_unprotected k = not (member k never_cleanup)

unfoldable pub compute_changes : Map Text → Map Text → EnvChanges
unfolding export_changed force_export remove_all unset_missing unset_always is_value is_unprotected
compute_changes pre post =
    let changed = export_changed pre [] post in
    let forced = force_export post changed always_export in
    let set = remove_all (remove_all forced never_export) always_unset in
    let missing = unset_missing post [] (keys pre) in
    record {
      set = set;
      unset = unset_always pre missing always_unset;
      cleanup = Sets.extend [] (keep is_unprotected (keys set));
    }
