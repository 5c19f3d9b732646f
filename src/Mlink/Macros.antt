-- ===== src/Mlink/Macros.antt =====
-- tools/dev/mlink/macro.c: the directives of the .mlink.macro sections, carried out. The texts of
-- messages are not kept, an ASSERT's own among them.
pub mod Parse
pub mod Effects
pub mod Fuel
pub mod Asserts
pub mod Inject
use one_tool.Common.{
  ℕ, ◌+◌, ◌-◌, ◌*◌, ◌%◌, ◌^◌, Bool, true, false, not, ◌&&◌, ◌||◌, List, [], ◌∷◌, ◌++◌, Option, none,
  some, ltb, leb, ◌==◌, if◌then◌else◌, get_or, set,
}
use one_tool.Common.Bits.{u64}
use one_tool.Common.Text.{str_eq}
use one_tool.Mlink.Types.{
  Global, Macro, MacroKind, provide, define, entry, base, stack_exec, keep, assertion, AssertOp,
  op_lt, op_le, op_gt, op_ge, op_eq, op_ne, TermPart, symbol_part, value_part, Context, Name, blank,
  report,
}
use one_tool.Mlink.Symtab.{find_global}

unfoldable pub eval_op : (l : ℕ) → AssertOp → (r : ℕ) → Bool
eval_op l op_lt r = ltb l r
eval_op l op_le r = leb l r
eval_op l op_gt r = ltb r l
eval_op l op_ge r = leb r l
eval_op l op_eq r = l == r
eval_op l op_ne r = not (l == r)

unfoldable pub resolve_part : List Global → TermPart → Option ℕ
resolve_part gs (value_part negative v) = some v
resolve_part gs (symbol_part negative name) = elim (find_global gs name) [
  | none ↦ none
  | some i ↦
      let g = get_or gs i (blank name) in if g.defined || g.common then some g.value else none
]

unfoldable pub is_negative : TermPart → Bool
is_negative (value_part negative v) = negative
is_negative (symbol_part negative name) = negative

-- The loop of `resolve_term` from a running total; `none` is the error.
unfoldable pub resolve_parts : List TermPart → List Global → (total : ℕ) → Option ℕ
resolve_parts [] gs total = some total
resolve_parts (p ∷ ps) gs total = elim (resolve_part gs p) [
  | none ↦ none
  | some v ↦
      let next = if is_negative p then u64 (total + 2 ^ 64 - u64 v) else u64 (total + v) in
      resolve_parts ps gs next
]

abbrev pub resolve_term : List TermPart → List Global → Option ℕ
resolve_term parts gs = resolve_parts parts gs 0

abbrev pub is_assertion : Macro → Bool
is_assertion m = elim m.kind [ assertion ↦ true | _ ↦ false ]

-- One round of `ml_macros_apply_post_layout`: whether it reports an error.
unfoldable pub assertion_fails : List Global → Macro → Bool
assertion_fails gs m = elim (resolve_term m.lhs gs) [
  | none ↦ true
  | some l ↦ elim (resolve_term m.rhs gs) [ none ↦ true | some r ↦ not (eval_op l m.op r) ]
]

unfoldable pub count_failures : List Macro → List Global → ℕ
count_failures [] gs = 0
count_failures (m ∷ ms) gs =
    (if is_assertion m && assertion_fails gs m then 1 else 0) + count_failures ms gs

unfoldable pub apply_post_layout : Context → Context
apply_post_layout ctx = record ctx {
  error_count = ctx.error_count + count_failures ctx.macros ctx.globals;
}

-- What the loop of `ml_macros_apply_pre_layout` carries: `entry_origin` and `base_origin` are
-- pointers there, and only tested for NULL.
pub record PreLayout : Type 0 where
  pub ctx : Context
  pub entry_seen : Bool
  pub base_seen : Bool

unfoldable pub apply_entry : PreLayout → Macro → PreLayout
apply_entry s m =
    if s.ctx.entry_from_cli
    then s
    else if s.entry_seen && not (str_eq s.ctx.entry_name m.name)
    then record s { ctx = report s.ctx }
    else record s { ctx = record s.ctx { entry_name = m.name }; entry_seen = true }

unfoldable pub apply_base : PreLayout → Macro → PreLayout
apply_base s m =
    if s.ctx.base_from_cli
    then s
    else if not (m.value % 0x1000 == 0)
    then record s { ctx = report s.ctx }
    else if s.base_seen && not (s.ctx.base_addr == m.value)
    then record s { ctx = report s.ctx }
    else record s { ctx = record s.ctx { base_addr = m.value }; base_seen = true }

unfoldable pub apply_macro : PreLayout → Macro → PreLayout
apply_macro s m = elim m.kind [
  | entry ↦ apply_entry s m
  | base ↦ apply_base s m
  | stack_exec ↦ record s { ctx = record s.ctx { stack_exec = true } }
  | _ ↦ s
]

unfoldable pub apply_macros : List Macro → PreLayout → PreLayout
apply_macros [] s = s
apply_macros (m ∷ ms) s = apply_macros ms (apply_macro s m)

unfoldable pub apply_pre_layout : Context → Context
apply_pre_layout ctx =
    (apply_macros ctx.macros (record { ctx = ctx; entry_seen = false; base_seen = false })).ctx

-- The entry that PROVIDE (`weak`) or DEFINE leaves.
abbrev pub macro_entry : (weak : Bool) → Macro → Global → Global
macro_entry weak m g = record g {
  object = none;
  symbol = none;
  defined = true;
  weak = weak;
  common = false;
  absolute = true;
  value = m.value;
  size = 0;
}

-- One round of `ml_macros_inject_symbols` for such a macro; `none` is the conflict that ends it.
unfoldable pub inject_macro : (weak : Bool) → Macro → List Global → Option (List Global)
inject_macro weak m gs = elim (find_global gs m.name) [
  | none ↦ some (gs ++ macro_entry weak m (blank m.name) ∷ [])
  | some i ↦
      let g = get_or gs i (blank m.name) in
      if g.defined then if weak then some gs else none else some (set gs i (macro_entry weak m g))
]

unfoldable pub inject_one : Macro → List Global → Option (List Global)
inject_one m gs = elim m.kind [
  | provide ↦ inject_macro true m gs
  | define ↦ inject_macro false m gs
  | _ ↦ some gs
]

-- The table when the loop ends, and whether it ended with the error.
unfoldable pub inject_macros : List Macro → List Global → Bool × List Global
inject_macros [] gs = (false, gs)
inject_macros (m ∷ ms) gs = elim (inject_one m gs) [
  | none ↦ (true, gs)
  | some gs' ↦ inject_macros ms gs'
]

unfoldable pub inject_symbols : Context → Context
inject_symbols ctx =
    let (failed, gs) = inject_macros ctx.macros ctx.globals in
    record ctx { globals = gs; error_count = ctx.error_count + (if failed then 1 else 0) }
