-- ===== src/Mlink/Resolve.antt =====
-- tools/dev/mlink/symtab.c: `ml_resolve_symbols`, the walk over the selected objects.
pub mod Spec
pub mod Effect
pub mod Winner
pub mod Names
use one_tool.Common.{
  ℕ, ◌+◌, Bool, true, false, not, ◌||◌, List, [], ◌∷◌, Option, none, some, if◌then◌else◌,
}
use one_tool.Mlink.Types.{Symbol, Object, Global, Context, report}
use one_tool.Mlink.Symtab.{is_global_symbol, symbol_has_name, define_global, record_undefined}
use one_tool.Mlink.Select.{select_archive_members}

-- The body of the loops of `ml_resolve_symbols`; true is `return 1`.
unfoldable pub resolve_symbol : ℕ → Symbol → List Global → Bool × List Global
resolve_symbol obj sym gs =
    if not (symbol_has_name sym) || not (is_global_symbol sym)
    then (false, gs)
    else if sym.undefined
    then (false, record_undefined sym gs)
    else define_global obj sym gs

unfoldable pub resolve_object : ℕ → List Symbol → List Global → Bool × List Global
resolve_object obj [] gs = (false, gs)
resolve_object obj (sym ∷ syms) gs =
    let (stop, gs') = resolve_symbol obj sym gs in
    let rest = resolve_object obj syms gs' in if stop then (true, gs') else rest

unfoldable pub resolve_objects : ℕ → List Object → List Global → Bool × List Global
resolve_objects i [] gs = (false, gs)
resolve_objects i (obj ∷ objs) gs =
    let (stop, gs') = if obj.selected then resolve_object i obj.symbols gs else (false, gs) in
    let rest = resolve_objects (i + 1) objs gs' in if stop then (true, gs') else rest

-- `none` is the loop over the archive members running out of fuel.
unfoldable pub resolve_symbols : Context → Option Context
resolve_symbols ctx = elim (select_archive_members ctx.objects) [
  | none ↦ none
  | some objs ↦
      let (stop, gs) = resolve_objects 0 objs ctx.globals in
      let ctx' = record ctx { objects = objs; globals = gs } in
      some (if stop then report ctx' else ctx')
]
