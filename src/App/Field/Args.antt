-- ===== src/App/Field/Args.antt =====
-- Which command lines come of the fields of an entry and the arguments of a caller.
use mathlib.Core.List.{append_assoc, append-nil, map-id}
use wsmr.Base.{
  ℕ, suc, Bool, true, false, none, some, List, [], ◌∷◌, ◌++◌, ltb, if◌then◌else◌, length, map, ◌≡◌,
  refl, ◌∙◌, ap, sym, arith, All,
}
use wsmr.Base.Text.{Text, codes, text_eq, contains, starts_with}
use wsmr.Base.Text.Split.{Avoids}
use wsmr.Error.{Result, ok, ◌>>=◌}
use wsmr.Units.Templates.{replace, replace_from}
use wsmr.App.Field.{
  EntryCtx, single, multi, Expansion, count_fields, has_deprecated, expand_field, expand_token,
  expand_tokens, update_at, instance_of, conclude, assemble, is_single_valued, nothing_yet,
  gen_entry_args, path2url, add, once, guard_conflict, single_field,
}

-- A token without a percent sign.
abbrev pub IsPlainToken : Text → Type 0
IsPlainToken t = Avoids b'%' t

contains-percent : (p t : Text) → IsPlainToken t → contains (b'%' ∷ p) t ≡ false
unfolding contains starts_with
contains-percent p [] h = refl
contains-percent p (c ∷ t) (h, hs) = ground (arith, h, contains-percent p t hs)

text_eq-percent : (p t : Text) → IsPlainToken t → text_eq t (b'%' ∷ p) ≡ false
unfolding text_eq
text_eq-percent p [] h = refl
text_eq-percent p (c ∷ t) (h, hs) = ground (arith, h)

count_fields-plain : (t : Text) → IsPlainToken t → count_fields t ≡ 0
unfolding count_fields
count_fields-plain [] h = refl
count_fields-plain (a ∷ []) h = refl
count_fields-plain (a ∷ b ∷ s) (h, hs) = ground (arith, h, count_fields-plain (b ∷ s) hs)

expand_field-plain :
    (args : List Text) (ctx : EntryCtx) (t : Text) (x : Expansion)
    → IsPlainToken t
    → expand_field args ctx t x ≡ ok (add (t ∷ []) x)
unfolding expand_field
expand_field-plain args ctx t x h = rw (contains-percent (codes "f") t h) (
    rw (text_eq-percent (codes "F") t h) (
      rw (contains-percent (codes "F") t h) (
        rw (contains-percent (codes "u") t h) (
          rw (text_eq-percent (codes "U") t h) (
            rw (contains-percent (codes "U") t h) (
              rw (text_eq-percent (codes "c") t h) (
                rw (text_eq-percent (codes "k") t h)
                  (rw (text_eq-percent (codes "i") t h) refl))))))))

has_deprecated-plain : (t : Text) → IsPlainToken t → has_deprecated t ≡ false
unfolding has_deprecated
has_deprecated-plain t h = ground (
  arith,
  contains-percent (codes "d") t h,
  contains-percent (codes "D") t h,
  contains-percent (codes "n") t h,
  contains-percent (codes "N") t h,
  contains-percent (codes "v") t h,
  contains-percent (codes "m") t h,
)

expand_token-plain :
    (args : List Text) (ctx : EntryCtx) (t : Text) (x : Expansion)
    → IsPlainToken t
    → expand_token args ctx t x ≡ ok (add (t ∷ []) x)
unfolding expand_token
expand_token-plain args ctx t x h = rw (count_fields-plain t h) (
    rw (contains-percent (codes "%") t h)
      (rw (has_deprecated-plain t h) (expand_field-plain args ctx t x h)))

expand_tokens-plain :
    (args : List Text) (ctx : EntryCtx) (pre toks : List Text) (x : Expansion)
    → All IsPlainToken pre
    → expand_tokens args ctx (pre ++ toks) x ≡ expand_tokens args ctx toks (add pre x)
unfolding expand_tokens
expand_tokens-plain args ctx [] toks x h =
    ap (λ (o : List Text). expand_tokens args ctx toks (record x { out = o }))
      (sym (append-nil x.out))
expand_tokens-plain args ctx (t ∷ pre) toks x (h, hs) =
    ap (λ (r : Result Expansion). r >>= expand_tokens args ctx (pre ++ toks))
      (expand_token-plain args ctx t x h)
    ∙ expand_tokens-plain args ctx pre toks (add (t ∷ []) x) hs
    ∙ ap (λ (o : List Text). expand_tokens args ctx toks (record x { out = o }))
        (append_assoc x.out (t ∷ []) pre)

update_at-append :
    (f : Text → Text) (pre : List Text) (t : Text) (post : List Text)
    → update_at (length pre) f (pre ++ (t ∷ post)) ≡ pre ++ (f t ∷ post)
unfolding update_at
update_at-append f [] t post = refl
update_at-append f (p ∷ pre) t post = ap (λ (l : List Text). p ∷ l) (update_at-append f pre t post)

-- A field that takes one file or URL, and how an argument is shown in its place.
abbrev pub field_of : Bool → Text
field_of url = if url then codes "%u" else codes "%f"

abbrev pub shown_as : Bool → Text → Text
shown_as url a = if url then path2url a else a

-- The field that stands for a list of files or URLs.
abbrev pub list_field_of : Bool → Text
list_field_of url = if url then codes "%U" else codes "%F"

expand_token-single :
    (url : Bool) (a b : Text) (rest : List Text) (ctx : EntryCtx) (pre : List Text)
    → expand_token (a ∷ b ∷ rest) ctx (field_of url) (add pre nothing_yet)
      ≡ ok (record {
        out = pre ++ field_of url ∷ [];
        encountered_fu = some (field_of url);
        fu_idx = some (length pre);
      })
unfolding expand_token expand_field once guard_conflict single_field has_deprecated contains
    count_fields starts_with text_eq
expand_token-single true a b rest ctx pre = refl
expand_token-single false a b rest ctx pre = refl

expand_token-list :
    (url : Bool) (args : List Text) (ctx : EntryCtx) (pre : List Text)
    → expand_token args ctx (list_field_of url) (add pre nothing_yet)
      ≡ ok (record {
        out = pre ++ map (shown_as url) args;
        encountered_fu = some (list_field_of url);
        fu_idx = none;
      })
unfolding expand_token expand_field once guard_conflict single_field has_deprecated contains
    count_fields starts_with text_eq
expand_token-list true args ctx pre = refl
expand_token-list false args ctx pre =
    ap
      (λ (o : List Text).
        ok (record { out = pre ++ o; encountered_fu = some (codes "%F"); fu_idx = none }))
      (sym (map-id args))

replace-field : (url : Bool) (r : Text) → replace (field_of url) r (field_of url) ≡ r
unfolding replace replace_from starts_with
replace-field true r = append-nil r
replace-field false r = append-nil r

instance_of-single :
    (url : Bool) (cmd : Text) (pre post : List Text) (a : Text)
    → instance_of cmd (field_of url) (length pre) (pre ++ (field_of url ∷ post)) a
      ≡ cmd ∷ (pre ++ (shown_as url a ∷ post))
unfolding instance_of text_eq
instance_of-single true cmd pre post a =
    ap (λ (l : List Text). cmd ∷ l)
      (update_at-append (replace (codes "%u") (path2url a)) pre (codes "%u") post
        ∙ ap (λ (t : Text). pre ++ (t ∷ post)) (replace-field true (path2url a)))
instance_of-single false cmd pre post a =
    ap (λ (l : List Text). cmd ∷ l)
      (update_at-append (replace (codes "%f") a) pre (codes "%f") post
        ∙ ap (λ (t : Text). pre ++ (t ∷ post)) (replace-field false a))

map-instances :
    (url : Bool) (cmd : Text) (pre post args : List Text)
    → map (instance_of cmd (field_of url) (length pre) (pre ++ (field_of url ∷ post))) args
      ≡ map (λ a. cmd ∷ (pre ++ (shown_as url a ∷ post))) args
map-instances url cmd pre post [] = refl
map-instances url cmd pre post (a ∷ args) =
    ap
      (λ (l : List Text).
        l ∷ map (instance_of cmd (field_of url) (length pre) (pre ++ (field_of url ∷ post))) args)
      (instance_of-single url cmd pre post a)
    ∙ ap (λ (ls : List (List Text)). (cmd ∷ (pre ++ (shown_as url a ∷ post))) ∷ ls)
        (map-instances url cmd pre post args)

-- The tokens behind a field are kept as they are.
expand_tokens-rest :
    (args : List Text) (ctx : EntryCtx) (post : List Text) (x : Expansion)
    → All IsPlainToken post
    → expand_tokens args ctx post x ≡ ok (add post x)
unfolding expand_tokens
expand_tokens-rest args ctx [] x h =
    ap (λ (o : List Text). ok (record x { out = o })) (sym (append-nil x.out))
expand_tokens-rest args ctx (t ∷ post) x (h, hs) =
    ap (λ (r : Result Expansion). r >>= expand_tokens args ctx post)
      (expand_token-plain args ctx t x h)
    ∙ expand_tokens-rest args ctx post (add (t ∷ []) x) hs
    ∙ ap (λ (o : List Text). ok (record x { out = o })) (append_assoc x.out (t ∷ []) post)

-- What the loop makes of a field between plain tokens, of what it makes of the field.
expand_tokens-around :
    (args : List Text) (ctx : EntryCtx) (pre post : List Text) (t : Text) (y : Expansion)
    → All IsPlainToken pre
    → All IsPlainToken post
    → expand_token args ctx t (add pre nothing_yet) ≡ ok y
    → expand_tokens args ctx (pre ++ (t ∷ post)) nothing_yet ≡ ok (add post y)
unfolding expand_tokens
expand_tokens-around args ctx pre post t y h k e =
    expand_tokens-plain args ctx pre (t ∷ post) nothing_yet h
    ∙ ap (λ (r : Result Expansion). r >>= expand_tokens args ctx post) e
    ∙ expand_tokens-rest args ctx post y k

two_or_more : (n : ℕ) → ltb 1 (suc (suc n)) ≡ true
two_or_more n = ground arith

conclude-single :
    (url : Bool) (cmd a b : Text) (rest out : List Text) (idx : ℕ)
    → conclude cmd
        (a ∷ b ∷ rest)
        (record { out = out; encountered_fu = some (field_of url); fu_idx = some idx })
      ≡ ok (multi (map (instance_of cmd (field_of url) idx out) (a ∷ b ∷ rest)))
unfolding conclude assemble is_single_valued text_eq
conclude-single true cmd a b rest out idx = rw (two_or_more (length rest)) refl
conclude-single false cmd a b rest out idx = rw (two_or_more (length rest)) refl

-- An entry with one `%f` or `%u` that stands by itself among plain tokens, given two arguments or
-- more, makes one command line for each of them, in their order, with that argument in the place of
-- the field (for `%u`, as a URL) and everything else as the entry has it.
pub gen_entry_args-single :
    (url : Bool) (cmd : Text) (pre post : List Text) (a b : Text) (rest : List Text)
    (ctx : EntryCtx)
    → All IsPlainToken pre
    → All IsPlainToken post
    → gen_entry_args (cmd ∷ (pre ++ (field_of url ∷ post))) (a ∷ b ∷ rest) ctx
      ≡ ok (multi (map (λ c. cmd ∷ (pre ++ (shown_as url c ∷ post))) (a ∷ b ∷ rest)))
unfolding gen_entry_args
gen_entry_args-single url cmd pre post a b rest ctx h k =
    ap (λ (r : Result Expansion). r >>= conclude cmd (a ∷ b ∷ rest))
      (expand_tokens-around (a ∷ b ∷ rest) ctx pre post (field_of url)
        (record {
          out = pre ++ field_of url ∷ [];
          encountered_fu = some (field_of url);
          fu_idx = some (length pre);
        })
        h k (expand_token-single url a b rest ctx pre))
    ∙ conclude-single url cmd a b rest (pre ++ field_of url ∷ [] ++ post) (length pre)
    ∙ ap
        (λ (out : List Text).
          ok (multi (map (instance_of cmd (field_of url) (length pre) out) (a ∷ b ∷ rest))))
        (append_assoc pre (field_of url ∷ []) post)
    ∙ ap (λ (ls : List (List Text)). ok (multi ls)) (map-instances url cmd pre post (a ∷ b ∷ rest))

-- An entry with one `%F` or `%U` among plain tokens makes one command line, for any number of
-- arguments, in which all of them stand in the place of the field, in their order (for `%U`, as URLs).
pub gen_entry_args-list :
    (url : Bool) (cmd : Text) (pre post args : List Text) (ctx : EntryCtx)
    → All IsPlainToken pre
    → All IsPlainToken post
    → gen_entry_args (cmd ∷ (pre ++ (list_field_of url ∷ post))) args ctx
      ≡ ok (single (cmd ∷ (pre ++ map (shown_as url) args ++ post)))
unfolding gen_entry_args
gen_entry_args-list url cmd pre post args ctx h k =
    ap (λ (r : Result Expansion). r >>= conclude cmd args)
      (expand_tokens-around args ctx pre post (list_field_of url)
        (record {
          out = pre ++ map (shown_as url) args;
          encountered_fu = some (list_field_of url);
          fu_idx = none;
        })
        h k (expand_token-list url args ctx pre))
    ∙ unfold conclude assemble in ground arith
