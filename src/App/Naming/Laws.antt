-- ===== src/App/Naming/Laws.antt =====
-- Unit names keep to 255 bytes, and a truncation cuts at no place inside of an escape.
use wsmr.Base.{
  ℕ, ◌+◌, ◌-◌, ◌≤◌, Bool, true, false, ◌&&◌, [], ◌∷◌, ◌++◌, ◌==◌, ltb, leb, ◌≡◌, refl, arith, ◌⊎◌,
  inl, inr, if◌then◌else◌, length, length-append,
}
use wsmr.Base.Text.{Text, codes, text_eq}
use wsmr.Units.Escape.{simple_systemd_escape}
use wsmr.Units.Escape.Tokens.{
  guarded-IsTokens, IsTokens, nil, plain, token, simple_systemd_escape-IsTokens,
}
use wsmr.App.Naming.{
  truncate_from, truncate_escaped, clip_desktop, clip_cmd, l_static, desktop_part, cmd_part,
  assemble, auto_unit_name,
}

length-truncate_from : (max n : ℕ) (s : Text) → n ≤ max → n + length (truncate_from max n s) ≤ max
unfolding truncate_from
length-truncate_from max n [] h = omega arith
length-truncate_from max n (a ∷ []) h = ground arith
length-truncate_from max n (a ∷ b ∷ []) h =
    ground (arith, length-truncate_from max (n + 1) (b ∷ []))
length-truncate_from max n (a ∷ b ∷ c ∷ []) h =
    ground (arith, length-truncate_from max (n + 1) (b ∷ c ∷ []))
length-truncate_from max n (a ∷ b ∷ c ∷ d ∷ s) h =
    ground
      (arith, length-truncate_from max (n + 4) s, length-truncate_from max (n + 1) (b ∷ c ∷ d ∷ s))

length-truncate_escaped : (s : Text) (max : ℕ) → length (truncate_escaped s max) ≤ max
unfolding truncate_escaped
length-truncate_escaped s max = ground (arith, length-truncate_from max 0 s)

length-clip_desktop : (l : ℕ) (s : Text) → l ≤ 127 → l + length (clip_desktop l s) ≤ 127
unfolding clip_desktop
length-clip_desktop l s h = ground (arith, length-truncate_escaped s (127 - l))

length-clip_cmd : (used : ℕ) (s : Text) → used ≤ 255 → used + length (clip_cmd used s) ≤ 255
unfolding clip_cmd
length-clip_cmd used s h = ground (arith, length-truncate_escaped s (255 - used))

-- The two unit types that the program passes.
abbrev pub IsUnitType : Text → Type 0
IsUnitType t = (t ≡ codes "scope") ⊎ (t ≡ codes "service")

length_pieces :
    (t d c h e : Text)
    → length (codes "app-" ++ d ++ codes "-" ++ c ++ t ++ h ++ e)
      ≡ 5 + length d + length c + length t + length h + length e
length_pieces t d c h e = omega (
  arith,
  length-append (codes "app-" ++ d ++ codes "-" ++ c ++ t ++ h) e,
  length-append (codes "app-" ++ d ++ codes "-" ++ c ++ t) h,
  length-append (codes "app-" ++ d ++ codes "-" ++ c) t,
  length-append (codes "app-" ++ d ++ codes "-") c,
  length-append (codes "app-" ++ d) (codes "-"),
)

length-desktop_part :
    (t desktop : Text) → length t ≤ 8 → l_static t + length (desktop_part t desktop) ≤ 127
unfolding desktop_part
length-desktop_part t desktop h =
    length-clip_desktop (l_static t) (simple_systemd_escape desktop false)
      (unfold l_static in omega arith)

length-cmd_part :
    (t d app : Text)
    → l_static t + length d ≤ 127
    → l_static t + length d + length (cmd_part t d app) ≤ 255
unfolding cmd_part
length-cmd_part t d app h =
    length-clip_cmd (l_static t + length d) (simple_systemd_escape app false) (omega arith)

length-assemble :
    (t d c h : Text)
    → IsUnitType t
    → length h ≡ 8
    → length (assemble t d c h) ≡ l_static t + length d + length c
unfolding assemble l_static text_eq
length-assemble t d c h (inl e) eight =
    rw e (omega (arith, eight, length_pieces (codes "-") d c h (codes ".scope")))
length-assemble t d c h (inr e) eight =
    rw e (omega (arith, eight, length_pieces (codes "@") d c h (codes ".service")))

length-IsUnitType : (t : Text) → IsUnitType t → length t ≤ 8
length-IsUnitType t (inl e) = rw e (omega arith)
length-IsUnitType t (inr e) = rw e (omega arith)

-- A unit name of a launched application has at most 255 bytes, whatever the desktop and the
-- application are called; the unit type is `scope` or `service`, the random part has eight digits.
pub length-auto_unit_name :
    (t desktop app h : Text)
    → IsUnitType t
    → length h ≡ 8
    → length (auto_unit_name t desktop app h) ≤ 255
unfolding auto_unit_name
length-auto_unit_name t desktop app h ty eight = omega (
  arith,
  length-assemble t (desktop_part t desktop) (cmd_part t (desktop_part t desktop) app) h ty eight,
  length-cmd_part t (desktop_part t desktop) app
      (length-desktop_part t desktop (length-IsUnitType t ty)),
)

cases-IsTokens :
    (b : Bool) {s t : Text}
    → (b ≡ true → IsTokens s)
    → (b ≡ false → IsTokens t)
    → IsTokens (if b then s else t)
cases-IsTokens true f g = f refl
cases-IsTokens false f g = g refl

truncate_from-IsTokens : (max n : ℕ) (s : Text) → IsTokens s → IsTokens (truncate_from max n s)
unfolding truncate_from
truncate_from-IsTokens max n [] t = nil
truncate_from-IsTokens max n (a ∷ []) t = guarded-IsTokens (ltb max (n + 1)) nil t
truncate_from-IsTokens max n (a ∷ b ∷ []) (plain p t) =
    guarded-IsTokens (a == b'\\' && b == b'x') nil (
      guarded-IsTokens (ltb max (n + 1)) nil
        (plain p (truncate_from-IsTokens max (n + 1) (b ∷ []) t)))
truncate_from-IsTokens max n (a ∷ b ∷ c ∷ []) (plain p t) =
    guarded-IsTokens (a == b'\\' && b == b'x') nil (
      guarded-IsTokens (ltb max (n + 1)) nil
        (plain p (truncate_from-IsTokens max (n + 1) (b ∷ c ∷ []) t)))
truncate_from-IsTokens max n (a ∷ b ∷ c ∷ d ∷ s) (plain p t) =
    let rest = truncate_from-IsTokens max (n + 1) (b ∷ c ∷ d ∷ s) t in
    cases-IsTokens (a == b'\\' && b == b'x') (λ e. absurd (p (ground (arith, e))))
      (λ e. guarded-IsTokens (ltb max (n + 1)) nil (plain p rest))
truncate_from-IsTokens max n (a ∷ b ∷ c ∷ d ∷ s) (token p q t) =
    let rest = truncate_from-IsTokens max (n + 4) s t in
    cases-IsTokens (a == b'\\' && b == b'x')
      (λ e. guarded-IsTokens (ltb max (n + 4)) nil (token p q rest))
      (λ e. absurd (ground (arith, e)))

-- A truncation cuts at no place inside of a token: where the text is a row of whole tokens, so is
-- what `truncate_escaped` leaves of it, and that has at most the length asked for.
pub truncate_escaped-IsTokens :
    (s : Text) (max : ℕ)
    → IsTokens s
    → IsTokens (truncate_escaped s max) × (length (truncate_escaped s max) ≤ max)
truncate_escaped-IsTokens s max t = (
  unfold truncate_escaped in
      guarded-IsTokens (leb (length s) max) t (truncate_from-IsTokens max 0 s t),
  length-truncate_escaped s max,
)

-- Of the desktop and of the application's name, a unit name has an escaped text whose tokens are
-- whole, also where it was cut.
pub parts-IsTokens :
    (t desktop app : Text)
    → IsTokens (desktop_part t desktop) × IsTokens (cmd_part t (desktop_part t desktop) app)
unfolding desktop_part cmd_part clip_desktop clip_cmd
parts-IsTokens t desktop app =
    let d = simple_systemd_escape desktop false in
    let c = simple_systemd_escape app false in
    let used = l_static t + length (desktop_part t desktop) in
    (
      guarded-IsTokens (ltb 127 (l_static t + length d))
          ((truncate_escaped-IsTokens d (127 - l_static t)
            (simple_systemd_escape-IsTokens desktop false)).0)
          (simple_systemd_escape-IsTokens desktop false),
      guarded-IsTokens (ltb 255 (used + length c))
          ((truncate_escaped-IsTokens c (255 - used) (simple_systemd_escape-IsTokens app false)).0)
          (simple_systemd_escape-IsTokens app false),
    )
