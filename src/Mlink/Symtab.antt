-- ===== src/Mlink/Symtab.antt =====
-- tools/dev/mlink/symtab.c: the table of global symbols, the choice of archive members, and what
-- the command line and the linker itself define. A pointer into the table is an index.
pub mod Table
use mathlib.Core.Option
use one_tool.Common.{
  ℕ, suc, ◌+◌, Bool, true, false, not, ◌&&◌, ◌||◌, List, [], ◌∷◌, ◌++◌, Option, none, some, ltb,
  ◌==◌, if◌then◌else◌, length, get_or, set,
}
use one_tool.Common.Bits.{u64}
use one_tool.Common.Text.{codes, str_eq, is_empty}
use one_tool.Mlink.Types.{Name, Symbol, Global, Defsym, Context, blank, report}

-- STB_GLOBAL, STB_WEAK and SHN_ABS of <elf.h>.
abbrev pub stb_global : ℕ
stb_global = 1

abbrev pub stb_weak : ℕ
stb_weak = 2

abbrev pub shn_abs : ℕ
shn_abs = 0xfff1

unfoldable pub is_global_symbol : Symbol → Bool
is_global_symbol sym = sym.bind == stb_global || sym.bind == stb_weak

unfoldable pub is_weak_symbol : Symbol → Bool
is_weak_symbol sym = sym.bind == stb_weak

unfoldable pub symbol_has_name : Symbol → Bool
symbol_has_name sym = not (is_empty sym.name)

unfoldable pub find_global : List Global → Name → Option ℕ
find_global [] name = none
find_global (g ∷ gs) name =
    if str_eq g.name name then some 0 else Option.map suc (find_global gs name)

-- The index of the entry, and the table with the entry in it.
unfoldable pub intern_global : List Global → Name → ℕ × List Global
intern_global gs name = elim (find_global gs name) [
  | some i ↦ (i, gs)
  | none ↦ (length gs, gs ++ blank name ∷ [])
]

-- `g = intern_global(ctx, name)`, and the writes through `g` that follow.
unfoldable pub update_global : List Global → Name → (Global → Global) → List Global
update_global gs name f =
    let (i, gs') = intern_global gs name in set gs' i (f (get_or gs' i (blank name)))

-- `define_global` on the entry `*g` itself: whether a duplicate is reported, and the new entry.
unfoldable pub merge_symbol : ℕ → Symbol → Global → Bool × Global
merge_symbol obj sym g =
    if sym.common
    then (
      false,
      if not g.defined && (not g.common || ltb g.size sym.size)
          then record g {
            common = true;
            weak = is_weak_symbol sym;
            object = some obj;
            symbol = some sym;
            size = sym.size;
            common_align = (if sym.value == 0 then 1 else sym.value);
          }
          else g,
    )
    else if g.defined && not (g.weak && not (is_weak_symbol sym))
    then (not (g.weak && is_weak_symbol sym), g)
    else (
      false,
      record g {
        defined = true;
        common = false;
        weak = is_weak_symbol sym;
        absolute = sym.shndx == shn_abs;
        object = some obj;
        symbol = some sym;
        size = sym.size;
      },
    )

unfoldable pub define_global : ℕ → Symbol → List Global → Bool × List Global
define_global obj sym gs =
    let (i, gs') = intern_global gs sym.name in
    let (duplicate, g) = merge_symbol obj sym (get_or gs' i (blank sym.name)) in
    (duplicate, set gs' i g)

unfoldable pub refer : Symbol → Global → Global
refer sym g = record g { referenced = true; strong_ref = g.strong_ref || not (is_weak_symbol sym) }

unfoldable pub record_undefined : Symbol → List Global → List Global
record_undefined sym gs =
    if symbol_has_name sym && is_global_symbol sym
    then update_global gs sym.name (refer sym)
    else gs

-- An absolute definition written over the entry `*g`.
abbrev pub absolute_entry : Bool → ℕ → Global → Global
absolute_entry weak value g = record g {
  defined = true;
  absolute = true;
  common = false;
  weak = weak;
  object = none;
  symbol = none;
  value = value;
  size = 0;
}

unfoldable pub inject_defsym_list : List Defsym → List Global → Bool × List Global
inject_defsym_list [] gs = (false, gs)
inject_defsym_list (d ∷ ds) gs =
    let (i, gs') = intern_global gs d.name in
    let g = get_or gs' i (blank d.name) in
    let rest = inject_defsym_list ds (set gs' i (absolute_entry false d.value g)) in
    if g.defined then (true, gs') else rest

unfoldable pub inject_defsyms : Context → Context
inject_defsyms ctx =
    let (stop, gs) = inject_defsym_list ctx.defsyms ctx.globals in
    let ctx' = record ctx { globals = gs } in if stop then report ctx' else ctx'

unfoldable pub define_linker_symbol : Name → ℕ → List Global → List Global
define_linker_symbol name value gs =
    let (i, gs') = intern_global gs name in
    let g = get_or gs' i (blank name) in
    if g.defined then gs' else set gs' i (absolute_entry true value g)

unfoldable pub linker_symbols : Context → List Global → List Global
linker_symbols ctx gs =
    let text_end = u64 (ctx.base_addr + ctx.rx_filesz) in
    let data_end_file =
      if ctx.has_rw_segment
      then u64 (ctx.base_addr + ctx.data_offset + ctx.data_filesz)
      else if ctx.has_rodata_segment
      then u64 (ctx.base_addr + ctx.ro_offset + ctx.ro_filesz)
      else text_end in
    let image_end =
      if ctx.has_rw_segment
      then u64 (ctx.base_addr + ctx.data_offset + ctx.data_memsz)
      else data_end_file in
    let gs1 = define_linker_symbol (codes "__executable_start") ctx.base_addr gs in
    let gs2 = define_linker_symbol (codes "_etext") text_end gs1 in
    let gs3 = define_linker_symbol (codes "etext") text_end gs2 in
    let gs4 = define_linker_symbol (codes "_edata") data_end_file gs3 in
    let gs5 = define_linker_symbol (codes "edata") data_end_file gs4 in
    let gs6 = define_linker_symbol (codes "__bss_start") data_end_file gs5 in
    let gs7 = define_linker_symbol (codes "_end") image_end gs6 in
    let gs8 = define_linker_symbol (codes "end") image_end gs7 in
    define_linker_symbol (codes "_GLOBAL_OFFSET_TABLE_") ctx.base_addr gs8

unfoldable pub inject_linker_symbols : Context → Context
inject_linker_symbols ctx = record ctx { globals = linker_symbols ctx ctx.globals }

unfoldable pub is_missing : Global → Bool
is_missing g = g.referenced && g.strong_ref && not g.defined && not g.common

unfoldable pub count_missing : List Global → ℕ
count_missing [] = 0
count_missing (g ∷ gs) = (if is_missing g then 1 else 0) + count_missing gs

-- One error for each entry that is missing; the result is `error_count != 0`.
unfoldable pub report_undefined : Context → Context
report_undefined ctx = record ctx { error_count = ctx.error_count + count_missing ctx.globals }
