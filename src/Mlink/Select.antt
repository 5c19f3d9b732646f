-- ===== src/Mlink/Select.antt =====
-- tools/dev/mlink/symtab.c: which members of archives take part in the link.
pub mod Steps
pub mod Loop
use one_tool.Common.{
  ℕ, zero, suc, ◌+◌, Bool, true, false, not, ◌&&◌, ◌||◌, List, Option, none, some, if◌then◌else◌,
  length, get_elem?, set, any,
}
use one_tool.Common.Text.{str_eq}
use one_tool.Mlink.Types.{Name, Symbol, Object}
use one_tool.Mlink.Symtab.{is_global_symbol, is_weak_symbol, symbol_has_name}

-- The test of the loops over symbols: a named, global definition that is no common block.
unfoldable pub defines : Symbol → Bool
defines sym = symbol_has_name sym && not sym.undefined && not sym.common && is_global_symbol sym

unfoldable pub selected_objects_define : List Object → Name → Bool
selected_objects_define objs name =
    any (λ obj. obj.selected && any (λ sym. defines sym && str_eq sym.name name) obj.symbols) objs

unfoldable pub strongly_refers : Symbol → Bool
strongly_refers sym =
    symbol_has_name sym && sym.undefined && is_global_symbol sym && not (is_weak_symbol sym)

unfoldable pub selected_objects_reference : List Object → Name → Bool
selected_objects_reference objs name =
    if selected_objects_define objs name
    then false
    else any
        (λ obj.
          obj.selected && any (λ sym. strongly_refers sym && str_eq sym.name name) obj.symbols)
        objs

unfoldable pub archive_member_needed : List Object → Object → Bool
archive_member_needed objs obj =
    any (λ sym. defines sym && selected_objects_reference objs sym.name) obj.symbols

-- The body of the loop over objects, on the object at index `i`: whether it was selected now.
unfoldable pub select_member : ℕ → List Object → Bool × List Object
select_member i objs = elim (get_elem? objs i) [
  | none ↦ (false, objs)
  | some obj ↦
      if obj.selected || not obj.from_archive
      then (false, objs)
      else if archive_member_needed objs obj
      then (true, set objs i (record obj { selected = true }))
      else (false, objs)
]

-- One round over the objects from index `i`, with `left` of them to go. A member selected early in
-- a round counts for those after it.
unfoldable pub select_round : (left i : ℕ) → List Object → Bool × List Object
select_round zero i objs = (false, objs)
select_round (suc left) i objs =
    let (now, objs') = select_member i objs in
    let (later, objs'') = select_round left (i + 1) objs' in (now || later, objs'')

-- `while (changed)`; `none` means that the fuel ran out.
unfoldable pub select_loop : ℕ → List Object → Option (List Object)
select_loop zero objs = none
select_loop (suc fuel) objs =
    let (changed, objs') = select_round (length objs) 0 objs in
    let rest = select_loop fuel objs' in if changed then rest else some objs'

unfoldable pub select_archive_members : List Object → Option (List Object)
select_archive_members objs = select_loop (length objs + 1) objs
