-- ===== src/Comp/DesktopNames.antt =====
-- The list of desktop names has each name once and loses none.
use wsmr.Base.{
  Bool, false, not, ◌&&◌, ◌||◌, List, [], ◌∷◌, ◌++◌, if◌then◌else◌, is_empty, ◌≡◌, refl, arith,
  Bool-cases, inl, inr,
}
use wsmr.Base.Text.{Text, text_eq, text_eq_iff, text_eq_refl}
use wsmr.Base.Sets.{member, text_key, member-append}
use wsmr.Comp.{ResolveInput, retain_new, dedup_preserving, or_bin_name, merge_desktop_names}

member-cons : (x y : Text) (v : List Text) → member x (y ∷ v) ≡ (text_eq y x || member x v)
unfolding member
member-cons x y v = refl

member-nil : (x : Text) → member x [] ≡ false
unfolding member
member-nil x = refl

member-retain_new :
    (x : Text) (seen v : List Text)
    → member x (retain_new seen v) ≡ (member x v && not (member x seen))
unfolding retain_new member
member-retain_new x seen [] = refl
member-retain_new x seen (y ∷ v) = ground (
  arith,
  text_eq_iff y x,
  member-retain_new x seen v,
  member-retain_new x (y ∷ seen) v,
  member-cons x y seen,
)

-- No name is in the list twice.
abbrev pub IsDistinct : List Text → Type 0
IsDistinct [] = Unit
IsDistinct (x ∷ v) = (member x v ≡ false) × IsDistinct v

retain_new-IsDistinct : (seen v : List Text) → IsDistinct (retain_new seen v)
unfolding retain_new
retain_new-IsDistinct seen [] = tt
retain_new-IsDistinct seen (x ∷ v) = elim (Bool-cases (member x seen)) [
  | inl old ↦ rw old (retain_new-IsDistinct seen v)
  | inr new' ↦ rw new' (
    ground (arith, member-retain_new x (x ∷ seen) v, member-cons x x seen, text_eq_refl x),
    retain_new-IsDistinct (x ∷ seen) v,
  )
]

-- The names that the list is to have: those of the command line, and, unless they are exclusive,
-- those of the environment and of the entry, or the name of the binary where there are none.
abbrev pub is_desktop_name : ResolveInput → Text → List Text → Text → Bool
is_desktop_name i bin_name entry_dn x =
    if i.desktop_names_exclusive
    then member x i.desktop_names
    else if is_empty i.xdg_current_desktop && is_empty i.desktop_names && is_empty entry_dn
    then text_eq bin_name x
    else member x i.xdg_current_desktop || member x i.desktop_names || member x entry_dn

member-or_bin_name :
    (x b : Text) (l : List Text)
    → member x (or_bin_name l b) ≡ (if is_empty l then text_eq b x else member x l)
unfolding or_bin_name member
member-or_bin_name x b [] = ground arith
member-or_bin_name x b (n ∷ l) = refl

is_empty-append : (a b : List Text) → is_empty (a ++ b) ≡ (is_empty a && is_empty b)
is_empty-append [] b = refl
is_empty-append (x ∷ a) b = refl

-- The merged list has each of its names once, and has exactly the names that it is to have.
pub merge_desktop_names-IsDistinct :
    (i : ResolveInput) (bin_name : Text) (entry_dn : List Text) (x : Text)
    → IsDistinct (merge_desktop_names i bin_name entry_dn)
      × (member x (merge_desktop_names i bin_name entry_dn) ≡ is_desktop_name i bin_name entry_dn x)
unfolding merge_desktop_names dedup_preserving
merge_desktop_names-IsDistinct i b dn x =
    let all_names = i.xdg_current_desktop ++ i.desktop_names ++ dn in
    let v = if i.desktop_names_exclusive then i.desktop_names else or_bin_name all_names b in
    (
      retain_new-IsDistinct [] v,
      ground (
        arith,
        member-retain_new x [] v,
        member-nil x,
        member-or_bin_name x b all_names,
        is_empty-append (i.xdg_current_desktop ++ i.desktop_names) dn,
        is_empty-append i.xdg_current_desktop i.desktop_names,
        member-append x (i.xdg_current_desktop ++ i.desktop_names) dn,
        member-append x i.xdg_current_desktop i.desktop_names,
      ),
    )
