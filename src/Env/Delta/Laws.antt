-- ===== src/Env/Delta/Laws.antt =====
-- What `compute_changes` decides, name by name.
use wsmr.Base.{
  Bool, true, false, not, ◌&&◌, ◌||◌, Option, none, some, List, [], ◌∷◌, ◌≡◌, refl, arith,
  if◌then◌else◌,
}
use wsmr.Base.Text.{Text, text_eq, text_eq_iff}
use wsmr.Base.Maps.{Map, lookup, insert, remove, contains_key, keys, lookup-insert, lookup-remove}
use wsmr.Base.Maps.Order.{IsOrdered, lookup_of_Below}
use wsmr.Base.Sets
use wsmr.Base.Sets.{member, text_key, member-insert, member-extend, member-keep}
use wsmr.Env.Varnames.{never_export, always_unset}
use wsmr.Env.Delta.{
  is_value, export_changed, insert_found, force_export, remove_all, unset_missing, unset_always,
}

-- The value of the first loop at a name, from the value of `post`.
abbrev pub changed_or : Option Text → Option Text → Option Text → Option Text
changed_or pre none d = d
changed_or pre (some v) d = if is_value pre v then d else some v

pub lookup-export_changed :
    (pre set post : Map Text) (k : Text)
    → IsOrdered post
    → lookup k (export_changed pre set post)
      ≡ changed_or (lookup k pre) (lookup k post) (lookup k set)
unfolding export_changed lookup
lookup-export_changed pre set [] k o = refl
lookup-export_changed pre set ((j, w) ∷ post) k (b, o) = ground (
  arith,
  text_eq_iff j k,
  lookup_of_Below j post b,
  lookup-insert j k w set,
  lookup-export_changed pre (if is_value (lookup j pre) w then set else insert j w set) post k o,
)

abbrev pub is_forced : Text → List Text → Bool
is_forced k vars = member k vars && not (member k never_export) && not (member k always_unset)

abbrev pub forced_or : Bool → Option Text → Option Text → Option Text
forced_or true (some v) d = some v
forced_or true none d = d
forced_or false o d = d

pub lookup-force_export :
    (post set : Map Text) (vars : List Text) (k : Text)
    → lookup k (force_export post set vars)
      ≡ forced_or (is_forced k vars) (lookup k post) (lookup k set)
unfolding force_export insert_found member
lookup-force_export post set [] k = refl
lookup-force_export post set (var ∷ vars) k = ground (
  arith,
  text_eq_iff var k,
  lookup-force_export post (next (lookup var post)) vars k,
  found-lookup (lookup var post),
)
  where
    next : Option Text → Map Text
    next found =
        if not (member var never_export) && not (member var always_unset)
        then insert_found var found set
        else set

    found-lookup :
        (found : Option Text)
        → lookup k (insert_found var found set) ≡ forced_or (text_eq var k) found (lookup k set)
    found-lookup none = ground arith
    found-lookup (some v) = ground (arith, lookup-insert var k v set)

pub lookup-remove_all :
    (set : Map Text) (vars : List Text) (k : Text)
    → lookup k (remove_all set vars) ≡ (if member k vars then none else lookup k set)
unfolding remove_all member
lookup-remove_all set [] k = refl
lookup-remove_all set (var ∷ vars) k =
    ground (arith, lookup-remove_all (remove var set) vars k, lookup-remove var k set)

pub member-keys : (m : Map Text) (k : Text) → member k (keys m) ≡ contains_key k m
unfolding member lookup
member-keys [] k = refl
member-keys ((j, v) ∷ m) k = ground (arith, member-keys m k)

pub member-unset_missing :
    (post : Map Text) (unset ks : List Text) (k : Text)
    → member k (unset_missing post unset ks)
      ≡ (member k unset || (member k ks && not (contains_key k post)))
unfolding unset_missing member
member-unset_missing post unset [] k = ground arith
member-unset_missing post unset (j ∷ ks) k = ground (
  arith,
  text_eq_iff j k,
  member-insert j k unset,
  member-unset_missing post (if not (contains_key j post) then Sets.insert j unset else unset) ks k,
)

pub member-unset_always :
    (pre : Map Text) (unset vars : List Text) (k : Text)
    → member k (unset_always pre unset vars)
      ≡ (member k unset || (member k vars && contains_key k pre))
unfolding unset_always member
member-unset_always pre unset [] k = ground arith
member-unset_always pre unset (j ∷ vars) k = ground (
  arith,
  text_eq_iff j k,
  member-insert j k unset,
  member-unset_always pre (if contains_key j pre then Sets.insert j unset else unset) vars k,
)
