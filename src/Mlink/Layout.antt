-- ===== src/Mlink/Layout.antt =====
-- tools/dev/mlink/layout.c: where each section goes, and what each global symbol stands for.
-- A `uint64_t` sum wraps at 2 ^ 64.
pub mod Packing
pub mod Objects
pub mod Stages
pub mod Segments
pub mod Commons
use one_tool.Common.{
  ℕ, ◌+◌, ◌-◌, ◌*◌, ◌^◌, Bool, true, false, not, ◌&&◌, ◌||◌, List, [], ◌∷◌, Option, none, some, ltb,
  leb, ◌==◌, if◌then◌else◌, length, get_elem?, get_or, any,
}
use one_tool.Common.Bits.{u16, u64}
use one_tool.Mlink.Bytes.{align_up}
use one_tool.Mlink.Types.{
  SectionKind, sec_skip, sec_text, sec_rodata, sec_data, sec_bss, kind_eq, Section, Symbol, Object,
  Global, Context, report, blank,
}
use one_tool.Mlink.Symtab.{find_global, inject_linker_symbols, shn_abs}

abbrev pub page_size : ℕ
page_size = 0x1000

-- sizeof(Elf64_Ehdr), sizeof(Elf64_Phdr) and SHN_COMMON of <elf.h>.
abbrev pub ehdr_size : ℕ
ehdr_size = 64

abbrev pub phdr_size : ℕ
phdr_size = 56

abbrev pub shn_common : ℕ
shn_common = 0xfff2

-- a - b of two `uint64_t`.
abbrev pub sub64 : ℕ → ℕ → ℕ
sub64 a b = u64 (a + 2 ^ 64 - b)

-- The section takes part in the pass over sections of this kind.
abbrev pub takes_part : SectionKind → Section → Bool
takes_part k s = kind_eq s.kind k && not (s.size == 0)

unfoldable pub has_kind : SectionKind → List Object → Bool
has_kind k objs = any (λ obj. obj.selected && any (takes_part k) obj.sections) objs

-- The body of each of the four loops over sections: the cursor after it, and the section.
unfoldable pub place_section : SectionKind → (base cursor : ℕ) → Section → ℕ × Section
place_section k base cursor s =
    if takes_part k s
    then (
      u64 (align_up cursor s.align + s.size),
      record s {
        out_offset = align_up cursor s.align;
        out_addr = u64 (base + align_up cursor s.align);
      },
    )
    else (cursor, s)

unfoldable pub place_sections : SectionKind → (base cursor : ℕ) → List Section → ℕ × List Section
place_sections k base cursor [] = (cursor, [])
place_sections k base cursor (s ∷ ss) =
    let (next, s') = place_section k base cursor s in
    let (last, ss') = place_sections k base next ss in (last, s' ∷ ss')

unfoldable pub place_object : SectionKind → (base cursor : ℕ) → Object → ℕ × Object
place_object k base cursor obj =
    let (last, ss) = place_sections k base cursor obj.sections in
    if obj.selected then (last, record obj { sections = ss }) else (cursor, obj)

unfoldable pub place_objects : SectionKind → (base cursor : ℕ) → List Object → ℕ × List Object
place_objects k base cursor [] = (cursor, [])
place_objects k base cursor (obj ∷ objs) =
    let (next, obj') = place_object k base cursor obj in
    let (last, objs') = place_objects k base next objs in (last, obj' ∷ objs')

-- A pass that the code skips where the segment is not there.
abbrev pub place_if : Bool → SectionKind → (base cursor : ℕ) → List Object → ℕ × List Object
place_if on k base cursor objs = if on then place_objects k base cursor objs else (cursor, objs)

abbrev pub count_if : Bool → ℕ
count_if b = if b then 1 else 0

-- `has_ro` and `has_rw`, the number of program headers and the place after the headers.
unfoldable pub has_ro : Context → Bool
has_ro ctx = has_kind sec_rodata ctx.objects

unfoldable pub has_rw : Context → Bool
has_rw ctx =
    has_kind sec_data ctx.objects
    || has_kind sec_bss ctx.objects
    || any (λ (g : Global). g.common) ctx.globals

unfoldable pub header_count : Context → ℕ
header_count ctx =
    u16 (1 + count_if (has_ro ctx) + count_if (has_rw ctx) + count_if (not ctx.no_gnu_stack))

unfoldable pub header_size : Context → ℕ
header_size ctx = ehdr_size + header_count ctx * phdr_size

-- The four passes in order, and where each starts.
unfoldable pub text_pass : Context → ℕ × List Object
text_pass ctx = place_objects sec_text ctx.base_addr (align_up (header_size ctx) 16) ctx.objects

unfoldable pub ro_start : Context → ℕ
ro_start ctx = if has_ro ctx then align_up (text_pass ctx).0 page_size else (text_pass ctx).0

unfoldable pub ro_pass : Context → ℕ × List Object
ro_pass ctx = place_if (has_ro ctx) sec_rodata ctx.base_addr (ro_start ctx) (text_pass ctx).1

unfoldable pub data_start : Context → ℕ
data_start ctx = if has_rw ctx then align_up (ro_pass ctx).0 page_size else (ro_pass ctx).0

unfoldable pub data_pass : Context → ℕ × List Object
data_pass ctx = place_if (has_rw ctx) sec_data ctx.base_addr (data_start ctx) (ro_pass ctx).1

unfoldable pub bss_pass : Context → ℕ × List Object
bss_pass ctx = place_if (has_rw ctx) sec_bss ctx.base_addr (data_pass ctx).0 (data_pass ctx).1

-- `ml_layout` up to the call of `compute_global_values`.
unfoldable pub layout_sections : Context → Context
layout_sections ctx = record ctx {
  objects = (bss_pass ctx).1;
  has_rodata_segment = has_ro ctx;
  has_rw_segment = has_rw ctx;
  phnum = header_count ctx;
  rx_filesz = (text_pass ctx).0;
  ro_offset = ro_start ctx;
  ro_filesz = (if has_ro ctx then sub64 (ro_pass ctx).0 (ro_start ctx) else ctx.ro_filesz);
  data_offset = data_start ctx;
  data_filesz = (if has_rw ctx then sub64 (data_pass ctx).0 (data_start ctx) else ctx.data_filesz);
  data_memsz = (if has_rw ctx then sub64 (bss_pass ctx).0 (data_start ctx) else ctx.data_memsz);
}

unfoldable pub common_cursor_start : Context → ℕ
common_cursor_start ctx = align_up (u64 (ctx.data_offset + ctx.data_memsz)) 16

-- `none` is the result 1.
unfoldable pub local_symbol_addr : List Section → Symbol → Option ℕ
local_symbol_addr sections sym =
    if sym.shndx == shn_abs
    then some sym.value
    else if sym.shndx == shn_common || sym.undefined
    then none
    else elim (get_elem? sections sym.shndx) [
      | none ↦ none
      | some s ↦ if kind_eq s.kind sec_skip then none else some (u64 (s.out_addr + sym.value))
    ]

-- The address of a definition; an entry with no object or symbol never gets here.
unfoldable pub defined_value : List Object → Global → Option ℕ
defined_value objs g = elim g.symbol [
  | none ↦ none
  | some sym ↦ elim g.object [
    | none ↦ none
    | some i ↦ elim (get_elem? objs i) [
      | none ↦ none
      | some obj ↦ local_symbol_addr obj.sections sym
    ]
  ]
]

-- Where a common block starts: at its alignment, which is at most a page.
unfoldable pub common_start : (cursor : ℕ) → Global → ℕ
common_start cursor g =
    let asked = if g.common_align == 0 then 1 else g.common_align in
    align_up cursor (if ltb 4096 asked then 4096 else asked)

-- One round of the loop of `compute_global_values`: errors, the cursor, and the entry.
unfoldable pub global_value : List Object → (base cursor : ℕ) → Global → ℕ × ℕ × Global
global_value objs base cursor g =
    if g.defined
    then if g.absolute
      then (0, cursor, elim g.symbol [ none ↦ g | some sym ↦ record g { value = sym.value } ])
      else elim (defined_value objs g) [
        | none ↦ (1, cursor, g)
        | some v ↦ (0, cursor, record g { value = v })
      ]
    else if g.common
    then (
      0,
      u64 (common_start cursor g + g.size),
      record g {
        common_addr = u64 (base + common_start cursor g);
        value = u64 (base + common_start cursor g);
      },
    )
    else (0, cursor, g)

unfoldable pub global_values : List Object → (base cursor : ℕ) → List Global → ℕ × ℕ × List Global
global_values objs base cursor [] = (0, cursor, [])
global_values objs base cursor (g ∷ gs) =
    let (e, next, g') = global_value objs base cursor g in
    let (es, last, gs') = global_values objs base next gs in (e + es, last, g' ∷ gs')

unfoldable pub compute_global_values : Context → Context
compute_global_values ctx =
    let start = common_cursor_start ctx in
    let (errors, last, gs) = global_values ctx.objects ctx.base_addr start ctx.globals in
    let common_end = sub64 last ctx.data_offset in
    let ctx' = record ctx { globals = gs; error_count = ctx.error_count + errors } in
    if ltb start last
    then record ctx' {
      data_memsz = (if ltb ctx.data_memsz common_end then common_end else ctx.data_memsz);
      has_rw_segment = true;
    }
    else ctx'

unfoldable pub output_size : Context → ℕ
output_size ctx =
    if ctx.has_rw_segment
    then u64 (ctx.data_offset + ctx.data_filesz)
    else if ctx.has_rodata_segment
    then u64 (ctx.ro_offset + ctx.ro_filesz)
    else ctx.rx_filesz

-- The end of `ml_layout`: the entry symbol must be there.
unfoldable pub set_entry : Context → Context
set_entry ctx = elim (find_global ctx.globals ctx.entry_name) [
  | none ↦ report ctx
  | some i ↦
      let g = get_or ctx.globals i (blank ctx.entry_name) in
      if not g.defined && not g.common then report ctx else record ctx { entry_addr = g.value }
]

-- `ml_layout`. It stops after `compute_global_values` if any error was counted, before it too.
unfoldable pub layout : Context → Context
layout ctx =
    let ctx' = compute_global_values (layout_sections ctx) in
    if ctx'.error_count == 0
    then set_entry (inject_linker_symbols (record ctx' { final_file_size = output_size ctx' }))
    else ctx'
