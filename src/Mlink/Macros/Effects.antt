-- ===== src/Mlink/Macros/Effects.antt =====
-- tools/dev/mlink/macro.c: ENTRY, BASE and STACK_EXEC, applied before the layout.
use one_tool.Common.{◌%◌, ◌≤◌, true, false, List, [], ◌∷◌, ◌≡◌, refl, arith}
use one_tool.Mlink.Types.{Macro, entry, base, stack_exec, Context}
use one_tool.Mlink.Macros.{
  PreLayout, apply_entry, apply_base, apply_macro, apply_macros, apply_pre_layout,
}

-- What the loop of `ml_macros_apply_pre_layout` keeps: the base stays on a page, and the command
-- line's choices stay.
record Kept (start : Context) (s : PreLayout) : Type 0 where
  page : start.base_addr % 0x1000 ≡ 0 → s.ctx.base_addr % 0x1000 ≡ 0
  base_flag : s.ctx.base_from_cli ≡ start.base_from_cli
  entry_flag : s.ctx.entry_from_cli ≡ start.entry_from_cli
  base_same : start.base_from_cli ≡ true → s.ctx.base_addr ≡ start.base_addr
  entry_same : start.entry_from_cli ≡ true → s.ctx.entry_name ≡ start.entry_name
  more : start.error_count ≤ s.ctx.error_count

apply_entry-Kept :
    (start : Context) (s : PreLayout) (m : Macro) → Kept start s → Kept start (apply_entry s m)
unfolding apply_entry
apply_entry-Kept start s m k = record {
  page = λ p. ground (arith, k.page, k.base_flag, k.entry_flag, k.base_same, k.entry_same, k.more);
  base_flag = ground (arith, k.page, k.base_flag, k.entry_flag, k.base_same, k.entry_same, k.more);
  entry_flag = ground (arith, k.page, k.base_flag, k.entry_flag, k.base_same, k.entry_same, k.more);
  base_same =
      λ p. ground (arith, k.page, k.base_flag, k.entry_flag, k.base_same, k.entry_same, k.more);
  entry_same =
      λ p. ground (arith, k.page, k.base_flag, k.entry_flag, k.base_same, k.entry_same, k.more);
  more = ground (arith, k.page, k.base_flag, k.entry_flag, k.base_same, k.entry_same, k.more);
}

apply_base-Kept :
    (start : Context) (s : PreLayout) (m : Macro) → Kept start s → Kept start (apply_base s m)
unfolding apply_base
apply_base-Kept start s m k = record {
  page = λ p. ground (arith, k.page, k.base_flag, k.entry_flag, k.base_same, k.entry_same, k.more);
  base_flag = ground (arith, k.page, k.base_flag, k.entry_flag, k.base_same, k.entry_same, k.more);
  entry_flag = ground (arith, k.page, k.base_flag, k.entry_flag, k.base_same, k.entry_same, k.more);
  base_same =
      λ p. ground (arith, k.page, k.base_flag, k.entry_flag, k.base_same, k.entry_same, k.more);
  entry_same =
      λ p. ground (arith, k.page, k.base_flag, k.entry_flag, k.base_same, k.entry_same, k.more);
  more = ground (arith, k.page, k.base_flag, k.entry_flag, k.base_same, k.entry_same, k.more);
}

apply_macro-Kept :
    (start : Context) (s : PreLayout) (m : Macro) → Kept start s → Kept start (apply_macro s m)
unfolding apply_macro
apply_macro-Kept start s m k =
    elim m.kind
      as (λ kind. Kept start (elim kind [
        | entry ↦ apply_entry s m
        | base ↦ apply_base s m
        | stack_exec ↦ record s { ctx = record s.ctx { stack_exec = true } }
        | _ ↦ s
      ])) [
        | entry ↦ apply_entry-Kept start s m k
        | base ↦ apply_base-Kept start s m k
        | stack_exec ↦ record {
          page = k.page;
          base_flag = k.base_flag;
          entry_flag = k.entry_flag;
          base_same = k.base_same;
          entry_same = k.entry_same;
          more = k.more;
        }
        | _ ↦ k
      ]

apply_macros-Kept :
    (ms : List Macro) (start : Context) (s : PreLayout)
    → Kept start s
    → Kept start (apply_macros ms s)
unfolding apply_macros
apply_macros-Kept [] start s k = k
apply_macros-Kept (m ∷ ms) start s k =
    apply_macros-Kept ms start (apply_macro s m) (apply_macro-Kept start s m k)

-- Whatever the ENTRY and BASE directives of the inputs are, a base on a page stays on a page, and
-- a base or an entry symbol chosen on the command line stays as chosen.
pub apply_pre_layout-kept :
    (ctx : Context)
    → (ctx.base_addr % 0x1000 ≡ 0 → (apply_pre_layout ctx).base_addr % 0x1000 ≡ 0)
      × (ctx.base_from_cli ≡ true → (apply_pre_layout ctx).base_addr ≡ ctx.base_addr)
      × (ctx.entry_from_cli ≡ true → (apply_pre_layout ctx).entry_name ≡ ctx.entry_name)
unfolding apply_pre_layout
apply_pre_layout-kept ctx =
    let start : PreLayout = record { ctx = ctx; entry_seen = false; base_seen = false } in
    let k = apply_macros-Kept ctx.macros ctx start record {
      page = λ p. p;
      base_flag = refl;
      entry_flag = refl;
      base_same = λ p. refl;
      entry_same = λ p. refl;
      more = omega arith;
    } in
    (k.page, k.base_same, k.entry_same)
