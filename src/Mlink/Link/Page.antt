-- ===== src/Mlink/Link/Page.antt =====
-- tools/dev/mlink/cli.c: the base address through the steps of `main`. Only BASE directives move it.
use one_tool.Common.{
  ◌%◌, ◌≡◌, refl, sym, ◌∙◌, inl, inr, Bool, Option, some, arith, Bool-cases, ◌==◌,
}
use one_tool.Mlink.Bytes.{Buffer}
use one_tool.Mlink.Types.{Context}
use one_tool.Mlink.Symtab.{inject_defsyms, report_undefined}
use one_tool.Mlink.Resolve.{resolve_symbols}
use one_tool.Mlink.Macros.{apply_pre_layout, inject_symbols, apply_post_layout}
use one_tool.Mlink.Macros.Effects.{apply_pre_layout-kept}
use one_tool.Mlink.Layout.{layout, layout_sections}
use one_tool.Mlink.Reloc.Rounds.{apply_relocations}
use one_tool.Mlink.Link.{gate, gate_option, middle, link_all}
use one_tool.Mlink.Link.Clean.{finish-written}
use one_tool.Mlink.Link.Keeps.{
  SameInput, inject_defsyms-SameInput, inject_symbols-SameInput, report_undefined-SameInput,
  apply_post_layout-SameInput, layout-SameInput,
}
use one_tool.Mlink.Link.Stands.{link_all-parts}

abbrev SameBase : Context → Context → Type 0
SameBase a b = b.base_addr ≡ a.base_addr

gate-SameBase :
    (step : Context → Context)
    → ((ctx : Context) → SameBase ctx (step ctx))
    → (ctx : Context) → SameBase ctx (gate step ctx)
unfolding gate
gate-SameBase step keeps ctx = elim (Bool-cases (ctx.error_count == 0)) [
  | inl e ↦ rw e (keeps ctx)
  | inr e ↦ rw e refl
]

layout-SameBase : (ctx : Context) → SameBase ctx (layout ctx)
unfolding SameInput layout_sections
layout-SameBase ctx = sym (layout-SameInput ctx).1

middle-SameBase : (ctx : Context) → SameBase ctx (middle ctx)
unfolding middle SameInput
middle-SameBase ctx =
    let a = gate inject_defsyms ctx in
    let b = gate inject_symbols a in
    let c = gate layout b in
    gate-SameBase apply_post_layout (λ x. sym (apply_post_layout-SameInput x).1)
      (gate report_undefined c)
    ∙ gate-SameBase report_undefined (λ x. sym (report_undefined-SameInput x).1) c
    ∙ gate-SameBase layout layout-SameBase b
    ∙ gate-SameBase inject_symbols (λ x. sym (inject_symbols-SameInput x).1) a
    ∙ gate-SameBase inject_defsyms (λ x. sym (inject_defsyms-SameInput x).1) ctx

gate_option-SameBase :
    (step : Context → Option Context)
    → ((ctx ctx' : Context) → step ctx ≡ some ctx' → SameBase ctx ctx')
    → (ctx ctx' : Context) → gate_option step ctx ≡ some ctx'
    → SameBase ctx ctx'
unfolding gate_option
gate_option-SameBase step keeps ctx ctx' h = elim (Bool-cases (ctx.error_count == 0)) [
  | inl e ↦ keeps ctx ctx' (rw e at h)
  | inr e ↦ let same : ctx ≡ ctx' = ground (arith, e) in rw (← same) refl
]

resolve_symbols-SameBase :
    (ctx ctx' : Context) → resolve_symbols ctx ≡ some ctx' → SameBase ctx ctx'
unfolding resolve_symbols
resolve_symbols-SameBase ctx ctx' h = ground arith

apply_relocations-SameBase :
    (ctx ctx' : Context) → apply_relocations ctx ≡ some ctx' → SameBase ctx ctx'
unfolding apply_relocations
apply_relocations-SameBase ctx ctx' h = ground arith

gate-pre_layout-page :
    (ctx : Context)
    → ctx.base_addr % 0x1000 ≡ 0
    → (gate apply_pre_layout ctx).base_addr % 0x1000 ≡ 0
unfolding gate
gate-pre_layout-page ctx h = elim (Bool-cases (ctx.error_count == 0)) [
  | inl e ↦ rw e ((apply_pre_layout-kept ctx).0 h)
  | inr e ↦ rw e h
]

-- A link that starts with a base on a page and writes a file ends with one.
pub link_all-page :
    (map_ok : Bool) (write : Buffer → Bool) (ctx ctx' resolved : Context) (out : Buffer)
    → ctx.base_addr % 0x1000 ≡ 0
    → gate_option resolve_symbols (gate apply_pre_layout ctx) ≡ some resolved
    → link_all map_ok write ctx ≡ some (ctx', some out)
    → ctx'.base_addr % 0x1000 ≡ 0
link_all-page map_ok write ctx ctx' resolved out page r h =
    let (patched, relocated, finished) = link_all-parts map_ok write ctx ctx' resolved out r h in
    let (_, same, _, _, _) = finish-written map_ok write patched ctx' out finished in
    let base : patched.base_addr ≡ (gate apply_pre_layout ctx).base_addr =
      gate_option-SameBase apply_relocations apply_relocations-SameBase (middle resolved) patched
        relocated
      ∙ middle-SameBase resolved
      ∙ gate_option-SameBase resolve_symbols resolve_symbols-SameBase (gate apply_pre_layout ctx)
          resolved r in
    rw (same, base) (gate-pre_layout-page ctx page)
