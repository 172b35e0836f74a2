-- ===== src/Tests/App.antt =====
-- src/app and src/comp.rs: command lines, unit names and the identity of a compositor.
use wsmr.Base.{◌≤◌, true, false, none, [], ◌∷◌, ◌++◌, ◌≡◌, refl, arith, length, map, is_empty, inl}
use wsmr.Base.Text.{codes}
use wsmr.Base.Sets.{member, text_key}
use wsmr.Error.{ok}
use wsmr.Units.Escape.{simple_systemd_escape}
use wsmr.Units.Escape.Tokens.{IsTokens, simple_systemd_escape-IsTokens}
use wsmr.App.Field.{EntryCtx, single, multi, tokenize_exec, gen_entry_args}
use wsmr.App.Field.Tokens.{exec_line, tokenize_exec-exec_line}
use wsmr.App.Field.Args.{
  field_of, list_field_of, shown_as, gen_entry_args-single, gen_entry_args-list,
}
use wsmr.App.Naming.{auto_unit_name, truncate_escaped, desktop_part, cmd_part}
use wsmr.App.Naming.Laws.{length-auto_unit_name, truncate_escaped-IsTokens, parts-IsTokens}
use wsmr.Comp.{ResolveInput, sanitize_bin_id, merge_desktop_names}
use wsmr.Comp.BinId.{IsBinId, sanitize_bin_id-IsBinId, sanitize_bin_id-idempotent}
use wsmr.Comp.DesktopNames.{IsDistinct, is_desktop_name, merge_desktop_names-IsDistinct}

tokenize_exec-exec_line_example :
    tokenize_exec (exec_line (codes "sh") (codes "-c" ∷ codes "echo \"$1\"" ∷ []))
    ≡ ok (codes "sh" ∷ codes "-c" ∷ codes "echo \"$1\"" ∷ [])
tokenize_exec-exec_line_example =
    tokenize_exec-exec_line (codes "sh") (codes "-c" ∷ codes "echo \"$1\"" ∷ [])

abbrev ctx : EntryCtx
ctx = record { name = codes "Editor"; icon = codes "edit"; filename = codes "/e.desktop" }

gen_entry_args-single_example :
    gen_entry_args
      (codes "ed" ∷ ((codes "-x" ∷ []) ++ (field_of true ∷ codes "-y" ∷ [])))
      (codes "a" ∷ codes "b" ∷ [])
      ctx
    ≡ ok (
        multi (
          map
            (λ c. codes "ed" ∷ ((codes "-x" ∷ []) ++ (shown_as true c ∷ codes "-y" ∷ [])))
            (codes "a" ∷ codes "b" ∷ [])))
gen_entry_args-single_example =
    gen_entry_args-single true (codes "ed") (codes "-x" ∷ []) (codes "-y" ∷ []) (codes "a")
      (codes "b") [] ctx (omega arith) (omega arith)

gen_entry_args-list_example :
    gen_entry_args
      (codes "ed" ∷ ((codes "-x" ∷ []) ++ (list_field_of true ∷ [])))
      (codes "a" ∷ [])
      ctx
    ≡ ok (single (codes "ed" ∷ ((codes "-x" ∷ []) ++ map (shown_as true) (codes "a" ∷ []) ++ [])))
gen_entry_args-list_example =
    gen_entry_args-list true (codes "ed") (codes "-x" ∷ []) [] (codes "a" ∷ []) ctx (omega arith) tt

length-auto_unit_name_example :
    length (auto_unit_name (codes "scope") (codes "sway") (codes "foot") (codes "deadbeef")) ≤ 255
length-auto_unit_name_example =
    length-auto_unit_name (codes "scope") (codes "sway") (codes "foot") (codes "deadbeef")
      (inl refl) refl

parts-IsTokens_example :
    IsTokens (desktop_part (codes "scope") (codes "a b"))
    × IsTokens (cmd_part (codes "scope") (desktop_part (codes "scope") (codes "a b")) (codes "c/d"))
parts-IsTokens_example = parts-IsTokens (codes "scope") (codes "a b") (codes "c/d")

truncate_escaped-IsTokens_example :
    IsTokens (truncate_escaped (simple_systemd_escape (codes "a b") false) 3)
    × (length (truncate_escaped (simple_systemd_escape (codes "a b") false) 3) ≤ 3)
truncate_escaped-IsTokens_example =
    truncate_escaped-IsTokens (simple_systemd_escape (codes "a b") false) 3
      (simple_systemd_escape-IsTokens (codes "a b") false)

sanitize_bin_id-IsBinId_example :
    IsBinId (sanitize_bin_id (codes "7zip FM"))
    × (is_empty (sanitize_bin_id (codes "7zip FM")) ≡ is_empty (codes "7zip FM"))
sanitize_bin_id-IsBinId_example = sanitize_bin_id-IsBinId (codes "7zip FM")

sanitize_bin_id-idempotent_example :
    sanitize_bin_id (sanitize_bin_id (codes "a.-b")) ≡ sanitize_bin_id (codes "a.-b")
sanitize_bin_id-idempotent_example = sanitize_bin_id-idempotent (codes "a.-b")

abbrev input : ResolveInput
input = record {
  wm_cmdline = codes "sway" ∷ [];
  desktop_names = codes "sway" ∷ codes "wlroots" ∷ [];
  desktop_names_exclusive = false;
  name = none;
  description = none;
  xdg_current_desktop = codes "sway" ∷ [];
}

merge_desktop_names-IsDistinct_example :
    IsDistinct (merge_desktop_names input (codes "sway") [])
    × (member (codes "wlroots") (merge_desktop_names input (codes "sway") [])
        ≡ is_desktop_name input (codes "sway") [] (codes "wlroots"))
merge_desktop_names-IsDistinct_example =
    merge_desktop_names-IsDistinct input (codes "sway") [] (codes "wlroots")
