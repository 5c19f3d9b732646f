-- ===== src/Mlink/Link/Stands.antt =====
-- tools/dev/mlink/cli.c: the whole of `main` after the inputs are loaded, from the sections that the
-- object reader leaves to the bytes of the output file.
use one_tool.Common.{
  ◌≡◌, refl, inl, inr, Bool, true, false, Option, some, arith, All, Bool-cases, Option-cases, ◌==◌,
}
use one_tool.Mlink.Bytes.{Buffer}
use one_tool.Mlink.Types.{Context}
use one_tool.Mlink.Symtab.{inject_defsyms, report_undefined}
use one_tool.Mlink.Resolve.{resolve_symbols}
use one_tool.Mlink.Macros.{apply_pre_layout, inject_symbols, apply_post_layout}
use one_tool.Mlink.Layout.{layout, layout_sections}
use one_tool.Mlink.Layout.Segments.{HasRoom}
use one_tool.Mlink.Reloc.Rounds.{apply_relocations}
use one_tool.Mlink.Emit.Contents.{copied, AllApart, StandsIn}
use one_tool.Mlink.Emit.Output.{emit_image-StandsIn}
use one_tool.Mlink.Emit.Disjoint.{IsPlaced}
use one_tool.Mlink.Emit.Filed.{AreRead}
use one_tool.Mlink.Link.{gate, gate_option, middle, finish, link_all, exit_code}
use one_tool.Mlink.Link.Clean.{finish-written, finish-stuck, gate-stuck, gate_option-stuck}
use one_tool.Mlink.Link.Keeps.{
  SameInput, SameInput-trans, SameInput-HasRoom, gate-SameInput, inject_defsyms-SameInput,
  inject_symbols-SameInput, report_undefined-SameInput, apply_post_layout-SameInput,
  layout-SameInput, resolved-AreRead,
}
use one_tool.Mlink.Link.Filed.{
  IsFiled, SameInput-IsFiled, SameInput-AreRead, layout-AreRead, layout_sections-IsFiled,
  apply_relocations-IsFiled,
}

-- The steps before the layout, and those from the layout to relocation.
abbrev before_layout : Context → Context
before_layout ctx = gate inject_symbols (gate inject_defsyms ctx)

abbrev after_layout : Context → Context
after_layout ctx = gate apply_post_layout (gate report_undefined ctx)

before_layout-SameInput : (ctx : Context) → SameInput ctx (before_layout ctx)
before_layout-SameInput ctx =
    SameInput-trans ctx (gate inject_defsyms ctx) (before_layout ctx)
      (gate-SameInput inject_defsyms inject_defsyms-SameInput ctx)
      (gate-SameInput inject_symbols inject_symbols-SameInput (gate inject_defsyms ctx))

after_layout-SameInput : (ctx : Context) → SameInput ctx (after_layout ctx)
after_layout-SameInput ctx =
    SameInput-trans ctx (gate report_undefined ctx) (after_layout ctx)
      (gate-SameInput report_undefined report_undefined-SameInput ctx)
      (gate-SameInput apply_post_layout apply_post_layout-SameInput (gate report_undefined ctx))

finish-clean :
    (map_ok : Bool) (write : Buffer → Bool) (ctx ctx' : Context) (out : Buffer)
    → finish map_ok write ctx ≡ (ctx', some out)
    → (ctx.error_count == 0) ≡ true
finish-clean map_ok write ctx ctx' out h = elim (Bool-cases (ctx.error_count == 0)) [
  | inl e ↦ e
  | inr e ↦ let stuck = finish-stuck map_ok write ctx e in cc
]

gate_go :
    (step : Context → Context) (ctx : Context)
    → (ctx.error_count == 0) ≡ true
    → gate step ctx ≡ step ctx
unfolding gate
gate_go step ctx h = rw h refl

-- An error before a step that may have no result is an error after it.
gate_option-clean :
    (step : Context → Option Context) (ctx ctx' : Context)
    → gate_option step ctx ≡ some ctx'
    → (ctx'.error_count == 0) ≡ true
    → step ctx ≡ some ctx'
unfolding gate_option
gate_option-clean step ctx ctx' h clean = elim (Bool-cases (ctx.error_count == 0)) [
  | inl e ↦ rw e at h
  | inr e ↦
      let same : ctx ≡ ctx' = ground (arith, e) in
      let dirty : (ctx'.error_count == 0) ≡ false = rw (← same) e in cc
]

middle_go :
    (resolved : Context)
    → ((before_layout resolved).error_count == 0) ≡ true
    → middle resolved ≡ after_layout (layout (before_layout resolved))
unfolding middle
middle_go resolved e = rw (gate_go layout (before_layout resolved) e) refl

middle_stop :
    (resolved : Context)
    → ((before_layout resolved).error_count == 0) ≡ false
    → middle resolved ≡ before_layout resolved
unfolding middle
middle_stop resolved e =
    rw
      (
        gate-stuck layout (before_layout resolved) e,
        gate-stuck report_undefined (before_layout resolved) e,
        gate-stuck apply_post_layout (before_layout resolved) e,
      )
      refl

middle-IsFiled :
    (resolved : Context)
    → AreRead resolved.objects
    → HasRoom resolved
    → ((before_layout resolved).error_count == 0) ≡ true
    → AreRead (middle resolved).objects × IsFiled (middle resolved)
middle-IsFiled resolved read fits e =
    let pre = before_layout resolved in
    let same = before_layout-SameInput resolved in
    let read' = SameInput-AreRead resolved pre same read in
    let laid =
      SameInput-IsFiled (layout_sections pre) (layout pre) (layout-SameInput pre)
        (layout_sections-IsFiled pre (SameInput-HasRoom resolved pre same fits) read') in
    rw (middle_go resolved e) (
      SameInput-AreRead (layout pre) (after_layout (layout pre))
          (after_layout-SameInput (layout pre)) (layout-AreRead pre read'),
      SameInput-IsFiled (layout pre) (after_layout (layout pre))
          (after_layout-SameInput (layout pre)) laid,
    )

-- A link with no error at the end has laid out and relocated its sections.
patched-IsFiled :
    (resolved patched : Context)
    → AreRead resolved.objects
    → HasRoom resolved
    → gate_option apply_relocations (middle resolved) ≡ some patched
    → (patched.error_count == 0) ≡ true
    → IsFiled patched
patched-IsFiled resolved patched read fits h clean =
    elim (Bool-cases ((before_layout resolved).error_count == 0)) [
      | inl e ↦
          let (read', filed) = middle-IsFiled resolved read fits e in
          apply_relocations-IsFiled (middle resolved) patched read'
            (gate_option-clean apply_relocations (middle resolved) patched h clean) filed
      | inr e ↦
          let stays =
            gate_option-stuck apply_relocations (middle resolved) (rw (middle_stop resolved e) e) in
          let same : middle resolved ≡ patched = ground (arith, stays) in
          let dirty : (patched.error_count == 0) ≡ false = rw (← same, middle_stop resolved e) e in
          cc
    ]

pub link_all-parts :
    (map_ok : Bool) (write : Buffer → Bool) (ctx ctx' resolved : Context) (out : Buffer)
    → gate_option resolve_symbols (gate apply_pre_layout ctx) ≡ some resolved
    → link_all map_ok write ctx ≡ some (ctx', some out)
    → (patched : Context) × (gate_option apply_relocations (middle resolved) ≡ some patched)
      × (finish map_ok write patched ≡ (ctx', some out))
unfolding link_all
link_all-parts map_ok write ctx ctx' resolved out r h =
    elim (Option-cases (gate_option apply_relocations (middle resolved))) [
      | inl e ↦ ground (arith, r, e)
      | inr (patched, e) ↦ (patched, e, ground (arith, r, e))
    ]

-- If the sections of the inputs are as the object reader leaves them, and the image of the resolved
-- inputs fits below 2 ^ 64, then a link that writes a file ends with exit code 0, and in the file
-- each section that goes into it stands at its offset; no two of them share a byte of the file, each
-- is aligned, and its address is the base plus its offset.
pub link_all-StandsIn :
    (map_ok : Bool) (write : Buffer → Bool) (ctx ctx' resolved : Context) (out : Buffer)
    → AreRead ctx.objects
    → gate_option resolve_symbols (gate apply_pre_layout ctx) ≡ some resolved
    → HasRoom resolved
    → link_all map_ok write ctx ≡ some (ctx', some out)
    → (exit_code ctx' ≡ 0)
      × All (StandsIn out) (copied ctx'.objects)
      × AllApart (copied ctx'.objects)
      × All (IsPlaced ctx'.base_addr) (copied ctx'.objects)
link_all-StandsIn map_ok write ctx ctx' resolved out read r fits h =
    let (patched, relocated, finished) = link_all-parts map_ok write ctx ctx' resolved out r h in
    let (code, same, _, _, image) = finish-written map_ok write patched ctx' out finished in
    let clean = finish-clean map_ok write patched ctx' out finished in
    let filed =
      patched-IsFiled resolved patched (resolved-AreRead ctx resolved r read) fits relocated
        clean in
    (
      code,
      rw same (emit_image-StandsIn patched out filed.whole filed.apart image),
      rw same filed.apart,
      rw same filed.placed,
    )
