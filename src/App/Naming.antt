-- ===== src/App/Naming.antt =====
-- src/app/naming.rs: unit names of launched applications.
pub mod Laws
use wsmr.Base.{
  ℕ, suc, zero, ◌+◌, ◌-◌, Bool, true, false, ◌&&◌, ◌||◌, List, [], ◌∷◌, ◌++◌, ◌==◌, ltb, leb,
  if◌then◌else◌, length,
}
use wsmr.Base.Text.{Text, codes, text_eq}
use wsmr.Units.Escape.{simple_systemd_escape}

-- The loop of `truncate_escaped` over the bytes that are left; `n` bytes have been pushed. Where a
-- token `\xHH` has fewer than four bytes left, the loop ends as well.
pub truncate_from : ℕ → ℕ → Text → Text
truncate_from max n [] = []
truncate_from max n (a ∷ []) = if ltb max (n + 1) then [] else a ∷ []
truncate_from max n (a ∷ b ∷ []) =
    let rest = truncate_from max (n + 1) (b ∷ []) in
    if a == b'\\' && b == b'x' then [] else if ltb max (n + 1) then [] else a ∷ rest
truncate_from max n (a ∷ b ∷ c ∷ []) =
    let rest = truncate_from max (n + 1) (b ∷ c ∷ []) in
    if a == b'\\' && b == b'x' then [] else if ltb max (n + 1) then [] else a ∷ rest
truncate_from max n (a ∷ b ∷ c ∷ d ∷ s) =
    let token = truncate_from max (n + 4) s in
    let rest = truncate_from max (n + 1) (b ∷ c ∷ d ∷ s) in
    if a == b'\\' && b == b'x'
    then if ltb max (n + 4) then [] else a ∷ b ∷ c ∷ d ∷ token
    else if ltb max (n + 1)
    then []
    else a ∷ rest

pub truncate_escaped : Text → ℕ → Text
unfolding truncate_from
truncate_escaped s max = if leb (length s) max then s else truncate_from max 0 s

-- `saturating_sub` is the subtraction of ℕ.
pub clip_desktop : ℕ → Text → Text
unfolding truncate_escaped
clip_desktop l_static sub =
    if ltb 127 (l_static + length sub) then truncate_escaped sub (127 - l_static) else sub

pub clip_cmd : ℕ → Text → Text
unfolding truncate_escaped
clip_cmd used sub = if ltb 255 (used + length sub) then truncate_escaped sub (255 - used) else sub

pub l_static : Text → ℕ
l_static unit_type = length (codes "app---DEADBEEF.") + length unit_type

pub desktop_part : Text → Text → Text
unfolding clip_desktop l_static simple_systemd_escape
desktop_part unit_type desktop =
    clip_desktop (l_static unit_type) (simple_systemd_escape desktop false)

pub cmd_part : Text → Text → Text → Text
unfolding clip_cmd l_static simple_systemd_escape
cmd_part unit_type desktop_sub app_name =
    clip_cmd (l_static unit_type + length desktop_sub) (simple_systemd_escape app_name false)

pub assemble : Text → Text → Text → Text → Text
assemble unit_type desktop_sub cmd_sub hex =
    if text_eq unit_type (codes "scope")
    then codes "app-" ++ desktop_sub ++ codes "-" ++ cmd_sub ++ codes "-" ++ hex ++ codes ".scope"
    else codes "app-" ++ desktop_sub ++ codes "-" ++ cmd_sub ++ codes "@" ++ hex ++ codes ".service"

unfoldable pub auto_unit_name : Text → Text → Text → Text → Text
unfolding desktop_part cmd_part assemble
auto_unit_name unit_type desktop app_name hex =
    let desktop_sub = desktop_part unit_type desktop in
    assemble unit_type desktop_sub (cmd_part unit_type desktop_sub app_name) hex
