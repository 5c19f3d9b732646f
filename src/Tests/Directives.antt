-- ===== src/Tests/Directives.antt =====
-- Runs of the directives of a .mlink.macro section (macro.c).
use one_tool.Common.{◌%◌, ◌≡◌, ◌≢◌, ◌↔◌, true, false, List, [], ◌∷◌, refl, arith, All}
use one_tool.Common.Text.{codes}
use one_tool.Mlink.Types.{Context, Global}
use one_tool.Mlink.Symtab.{find_global}
use one_tool.Mlink.Macros.{
  inject_macros, inject_one, inject_macro, apply_post_layout, apply_pre_layout, is_assertion,
}
use one_tool.Mlink.Macros.Parse.{parse_parts, out_of_fuel}
use one_tool.Mlink.Macros.Effects.{apply_pre_layout-kept}
use one_tool.Mlink.Macros.Asserts.{apply_post_layout-Holds, Holds}
use one_tool.Mlink.Macros.Inject.{inject_macros-Met, Met}
use one_tool.Mlink.Macros.Fuel.{parse_parts-ends}
use one_tool.Tests.{one_call, define_f, assert_f, decimal}

abbrev with_f : List Global
with_f = (inject_macros (define_f ∷ []) []).1

inject_macros-Met_example : All (Met with_f) (define_f ∷ [])
unfolding inject_macros inject_one inject_macro find_global
inject_macros-Met_example = inject_macros-Met (define_f ∷ []) [] with_f refl

abbrev asserting : Context
asserting = record one_call { macros = define_f ∷ assert_f ∷ []; globals = with_f }

apply_post_layout-Holds_example :
    ((apply_post_layout asserting).error_count ≡ asserting.error_count)
    ↔ All (λ m. is_assertion m ≡ true → Holds asserting.globals m) asserting.macros
apply_post_layout-Holds_example = apply_post_layout-Holds asserting

apply_pre_layout-kept_example :
    (asserting.base_addr % 0x1000 ≡ 0 → (apply_pre_layout asserting).base_addr % 0x1000 ≡ 0)
    × (asserting.base_from_cli ≡ true
        → (apply_pre_layout asserting).base_addr ≡ asserting.base_addr)
    × (asserting.entry_from_cli ≡ true
        → (apply_pre_layout asserting).entry_name ≡ asserting.entry_name)
apply_pre_layout-kept_example = apply_pre_layout-kept asserting

-- _end - f + 12
parse_parts-ends_example : parse_parts decimal 14 false (codes "_end - f + 12") ≢ out_of_fuel
parse_parts-ends_example = parse_parts-ends decimal 14 false (codes "_end - f + 12") (omega arith)
