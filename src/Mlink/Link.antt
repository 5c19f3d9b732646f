-- ===== src/Mlink/Link.antt =====
-- tools/dev/mlink/cli.c: `main` after the command line is read and the inputs are loaded. Writing
-- the map (`map_ok` says if that succeeds) and the output is up to the file system.
pub mod Clean
pub mod Filed
pub mod Stands
pub mod Page
pub mod Keeps
pub mod Ranges
use one_tool.Common.{ℕ, ◌+◌, Bool, true, false, ◌&&◌, Option, none, some, ◌==◌, if◌then◌else◌}
use one_tool.Mlink.Bytes.{Buffer}
use one_tool.Mlink.Types.{Context, report}
use one_tool.Mlink.Symtab.{inject_defsyms, report_undefined}
use one_tool.Mlink.Resolve.{resolve_symbols}
use one_tool.Mlink.Layout.{layout}
use one_tool.Mlink.Macros.{apply_pre_layout, inject_symbols, apply_post_layout}
use one_tool.Mlink.Reloc.Rounds.{apply_relocations}
use one_tool.Mlink.Emit.{emit_output}

-- `if (ctx.error_count == 0) { step(&ctx); }`
unfoldable pub gate : (Context → Context) → Context → Context
gate step ctx = if ctx.error_count == 0 then step ctx else ctx

-- The same for a step that may have no result.
unfoldable pub gate_option : (Context → Option Context) → Context → Option Context
gate_option step ctx = if ctx.error_count == 0 then step ctx else some ctx

-- The steps between resolution and relocation.
unfoldable pub middle : Context → Context
middle ctx =
    gate apply_post_layout
      (gate report_undefined (gate layout (gate inject_symbols (gate inject_defsyms ctx))))

unfoldable pub finish :
    (map_ok : Bool) → (write : Buffer → Bool) → Context → Context × Option Buffer
finish map_ok write ctx =
    let ctx' = gate (λ c. if map_ok then c else report c) ctx in
    if ctx'.error_count == 0 then emit_output write ctx' else (ctx', none)

-- `none` is a run with no defined result: a signed sum overflows in a relocation. The loop over
-- archive members, the other step with fuel, always ends.
unfoldable pub link_all :
    (map_ok : Bool) → (write : Buffer → Bool) → Context → Option (Context × Option Buffer)
link_all map_ok write ctx = elim (gate_option resolve_symbols (gate apply_pre_layout ctx)) [
  | none ↦ none
  | some resolved ↦ elim (gate_option apply_relocations (middle resolved)) [
    | none ↦ none
    | some patched ↦ some (finish map_ok write patched)
  ]
]

-- `rc = ctx.error_count == 0 ? 0 : 1`.
abbrev pub exit_code : Context → ℕ
exit_code ctx = if ctx.error_count == 0 then 0 else 1
