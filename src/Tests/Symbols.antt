-- ===== src/Tests/Symbols.antt =====
-- Runs of symbol resolution and archive selection (symtab.c) and of the layout (layout.c).
use one_tool.Common.{ℕ, ◌+◌, ◌<◌, ◌≡◌, ◌↔◌, ◌%◌, ◌≤◌, ◌*◌, true, List, [], ◌∷◌, some, refl, arith}
use one_tool.Common.Text.{codes, str_eq}
use one_tool.Mlink.Bytes.{align_up}
use one_tool.Mlink.Bytes.Align.{align_up_least}
use one_tool.Mlink.Types.{Object, Context, blank, kind_eq}
use one_tool.Mlink.Symtab.{
  define_global, intern_global, find_global, merge_symbol, symbol_has_name, is_global_symbol,
  is_weak_symbol,
}
use one_tool.Mlink.Symtab.Table.{entry, Unique}
use one_tool.Mlink.Select.{select_archive_members}
use one_tool.Mlink.Select.Steps.{Pulls, IsClosed}
use one_tool.Mlink.Select.Loop.{select_archive_members-closes}
use one_tool.Mlink.Resolve.{resolve_objects, resolve_object, resolve_symbol}
use one_tool.Mlink.Resolve.Spec.{entries, winner, clash}
use one_tool.Mlink.Resolve.Winner.{resolve_objects-winner, resolve_objects-clash}
use one_tool.Mlink.Resolve.Effect.{HeldBy}
use one_tool.Mlink.Resolve.Names.{resolve_objects-Unique}
use one_tool.Mlink.Layout.{layout_sections, common_cursor_start, compute_global_values}
use one_tool.Mlink.Layout.Commons.{compute_global_values-Blocks, Blocks}
use one_tool.Mlink.Layout.Segments.{layout_sections-IsLaidOut, IsLaidOut, HasRoom}
use one_tool.Tests.{two_objects, program_and_archive, one_call, object_with, f_symbol}

resolve_objects-winner_example :
    HeldBy
      (entry (resolve_objects 0 two_objects []).1 (codes "f"))
      (winner (codes "f") (entries 0 two_objects))
unfolding resolve_objects resolve_object resolve_symbol define_global intern_global find_global
    merge_symbol symbol_has_name is_global_symbol is_weak_symbol str_eq
resolve_objects-winner_example = resolve_objects-winner two_objects (codes "f") refl

resolve_objects-clash_example :
    ((resolve_objects 0 two_objects []).0 ≡ true)
    ↔ ((name : List ℕ) × (clash name (entries 0 two_objects) ≡ true))
resolve_objects-clash_example = resolve_objects-clash two_objects

select_archive_members-closes_example :
    (chosen : List Object) × (select_archive_members program_and_archive ≡ some chosen)
    × Pulls program_and_archive chosen
    × IsClosed chosen
select_archive_members-closes_example = select_archive_members-closes program_and_archive

one_call-HasRoom : HasRoom one_call
unfolding kind_eq
one_call-HasRoom = record { aligned = ((omega arith, (omega arith, tt)), tt); room = omega arith }

layout_sections-IsLaidOut_example : IsLaidOut (layout_sections one_call)
layout_sections-IsLaidOut_example = layout_sections-IsLaidOut one_call one_call-HasRoom

align_up_least_example :
    (align_up 0x1234 0x1000 % 0x1000 ≡ 0)
    × (0x1234 ≤ align_up 0x1234 0x1000)
    × (align_up 0x1234 0x1000 < 0x1234 + 0x1000)
    × ((k : ℕ) → 0x1234 ≤ k * 0x1000 → align_up 0x1234 0x1000 ≤ k * 0x1000)
align_up_least_example = align_up_least 0x1234 0x1000 (omega arith) (omega arith)

-- A weak definition after a strong one is reported as a duplicate.
weak_after_strong :
    (resolve_objects 0 (object_with (f_symbol 1 ∷ f_symbol 2 ∷ []) [] ∷ []) []).0 ≡ true
unfolding resolve_objects resolve_object resolve_symbol define_global intern_global find_global
    merge_symbol symbol_has_name is_global_symbol is_weak_symbol str_eq
weak_after_strong = refl

resolve_objects-Unique_example : Unique (resolve_objects 0 two_objects []).1
resolve_objects-Unique_example = resolve_objects-Unique two_objects 0 [] tt

-- Five bytes and eight bytes aligned to eight, behind a data segment of three bytes.
abbrev two_commons : Context
two_commons = record one_call {
  globals =
      record (blank (codes "x")) { common = true; size = 5; common_align = 1 }
      ∷ record (blank (codes "y")) { common = true; size = 8; common_align = 8 }
      ∷ [];
  data_offset = 0x1000;
  data_memsz = 3;
}

compute_global_values-Blocks_example :
    (last : ℕ) × Blocks two_commons.base_addr
      (common_cursor_start two_commons)
      last
      (compute_global_values two_commons).globals
    × (two_commons.data_offset + two_commons.data_memsz ≤ common_cursor_start two_commons)
    × (common_cursor_start two_commons < last
        → (last ≤ two_commons.data_offset + (compute_global_values two_commons).data_memsz)
          × ((compute_global_values two_commons).has_rw_segment ≡ true))
compute_global_values-Blocks_example = compute_global_values-Blocks two_commons (omega arith)
