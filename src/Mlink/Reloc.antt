-- ===== src/Mlink/Reloc.antt =====
-- tools/dev/mlink/reloc.c: patching the fields that relocations name. The C code adds signed
-- 64-bit numbers, whose overflow has no defined result: `overflowed` stands for that run.
pub mod Signed
pub mod Field
pub mod Whole
pub mod Rounds
pub mod Places
pub mod Apply
use one_tool.Common.{
  ℕ, ◌+◌, ◌-◌, ◌^◌, Bool, true, false, not, ◌&&◌, ◌||◌, List, [], ◌∷◌, Option, none, some, ltb, leb,
  ◌==◌, if◌then◌else◌, get_elem?, get_or, set,
}
use one_tool.Common.Bits.{u64}
use one_tool.Common.Int.{ℤ, pos, ◌+ℤ◌}
use one_tool.Common.Text.{is_empty}
use one_tool.Mlink.Bytes.{Buffer, get8, get16, get32, get64, put16, put32, put64}
use one_tool.Mlink.Types.{sec_skip, kind_eq, Section, Symbol, Reloc, Object, Global, Context, blank}
use one_tool.Mlink.Symtab.{find_global, shn_abs, stb_weak}
use one_tool.Mlink.Reloc.Signed.{
  signed, unsigned, add_int64, pc_relative, checked_i32, checked_i16, checked_i8, checked_u32,
  checked_u16, checked_u8,
}

-- The relocation types of <elf.h> that the switches name.
pub data RelocType : Type 0 where
  r_none r_64 r_pc64 r_size64 r_pc32 r_plt32 r_32 r_32s r_size32 : RelocType
  r_gotpcrel r_gotpcrelx r_rex_gotpcrelx r_16 r_pc16 r_8 r_pc8 r_other : RelocType

unfoldable pub reloc_type : ℕ → RelocType
reloc_type t =
    if t == 0
    then r_none
    else if t == 1
    then r_64
    else if t == 2
    then r_pc32
    else if t == 4
    then r_plt32
    else if t == 9
    then r_gotpcrel
    else if t == 10
    then r_32
    else if t == 11
    then r_32s
    else if t == 12
    then r_16
    else if t == 13
    then r_pc16
    else if t == 14
    then r_8
    else if t == 15
    then r_pc8
    else if t == 24
    then r_pc64
    else if t == 32
    then r_size32
    else if t == 33
    then r_size64
    else if t == 41
    then r_gotpcrelx
    else if t == 42
    then r_rex_gotpcrelx
    else r_other

unfoldable pub reloc_width : RelocType → ℕ
reloc_width r_none = 0
reloc_width r_64 = 8
reloc_width r_pc64 = 8
reloc_width r_size64 = 8
reloc_width r_pc32 = 4
reloc_width r_plt32 = 4
reloc_width r_32 = 4
reloc_width r_32s = 4
reloc_width r_size32 = 4
reloc_width r_gotpcrel = 4
reloc_width r_gotpcrelx = 4
reloc_width r_rex_gotpcrelx = 4
reloc_width r_16 = 2
reloc_width r_pc16 = 2
reloc_width r_8 = 1
reloc_width r_pc8 = 1
reloc_width r_other = 0

-- `*out = g->value` or `*out = g->size` of the global of that name, if it is there.
unfoldable pub global_of : List Global → Symbol → Option Global
global_of gs sym = if is_empty sym.name then none else elim (find_global gs sym.name) [
  | none ↦ none
  | some i ↦ let g = get_or gs i (blank sym.name) in if g.defined || g.common then some g else none
]

-- `none` is the result 1, with one error reported.
unfoldable pub value_of : List Global → List Section → Symbol → Option ℕ
value_of gs sections sym =
    if sym.shndx == shn_abs
    then some sym.value
    else if not (sym.shndx == 0) && not (sym.shndx == 0xfff2)
    then elim (get_elem? sections sym.shndx) [
      | none ↦ none
      | some s ↦ if kind_eq s.kind sec_skip then none else some (u64 (s.out_addr + sym.value))
    ]
    else elim (global_of gs sym) [
      | some g ↦ some g.value
      | none ↦ if not (is_empty sym.name) && sym.bind == stb_weak then some 0 else none
    ]

unfoldable pub get_symbol_value : List Global → Object → (symbol_index : ℕ) → Option ℕ
get_symbol_value gs obj i = elim (get_elem? obj.symbols i) [
  | none ↦ none
  | some sym ↦ value_of gs obj.sections sym
]

unfoldable pub get_symbol_size : List Global → Object → (symbol_index : ℕ) → Option ℕ
get_symbol_size gs obj i = elim (get_elem? obj.symbols i) [
  | none ↦ none
  | some sym ↦ elim (global_of gs sym) [ none ↦ some sym.size | some g ↦ some g.size ]
]

-- How a patch ends: the result 1 (one error reported) and 0, with the image left behind.
pub data Outcome : Type 0 where
  overflowed : Outcome
  refused : Buffer → Outcome
  patched : Buffer → Outcome

-- Stores what the check lets through.
unfoldable pub store : {A : Type 0} → Option A → (A → Option ℕ) → (ℕ → Buffer) → Buffer → Outcome
store none check put image = overflowed
store (some v) check put image = elim (check v) [ none ↦ refused image | some n ↦ patched (put n) ]

-- The opcode before the field, rewritten; `none` if it is not one of the three known.
unfoldable pub relaxed : Buffer → (offset : ℕ) → Option Buffer
relaxed image at =
    if get8 image (at - 2) == 0x8b
    then some (set image (at - 2) 0x8d)
    else if get8 image (at - 2) == 0xff && get8 image (at - 1) == 0x15
    then some (set (set image (at - 2) 0x67) (at - 1) 0xe8)
    else if get8 image (at - 2) == 0xff && get8 image (at - 1) == 0x25
    then some (set (set image (at - 2) 0x67) (at - 1) 0xe9)
    else none

unfoldable pub relax_gotpcrel : Buffer → (offset s : ℕ) → (addend : ℤ) → (p_addr : ℕ) → Outcome
relax_gotpcrel image at s a p = if ltb at 2 then refused image else elim (relaxed image at) [
  | none ↦ refused image
  | some image' ↦ store (pc_relative s a p) checked_i32 (put32 image' at) image'
]

unfoldable pub reloc_fits_section : Section → Reloc → (width : ℕ) → Bool
reloc_fits_section sec rel width =
    leb rel.offset sec.file_size && leb width (sec.file_size - rel.offset)

-- The field's own value, read as a signed number.
unfoldable pub field_value : Buffer → (offset width : ℕ) → ℤ
field_value image at width =
    if width == 8
    then signed 64 (get64 image at)
    else if width == 4
    then signed 32 (get32 image at)
    else if width == 2
    then signed 16 (get16 image at)
    else signed 8 (get8 image at)

unfoldable pub read_implicit_addend : Section → Reloc → Option ℤ
read_implicit_addend sec rel =
    let width = reloc_width (reloc_type rel.type) in
    if ltb sec.file_size rel.offset
    then none
    else if width == 0
    then some (pos 0)
    else if reloc_fits_section sec rel width
    then some (field_value sec.image rel.offset width)
    else none

-- The switch of `patch_reloc`; `z` is what `get_symbol_size` gives.
unfoldable pub patch_field :
    RelocType → Buffer → (offset s : ℕ) → (addend : ℤ) → (p_addr : ℕ) → (z : Option ℕ) → Outcome
patch_field r_64 image at s a p z = patched (put64 image at (u64 (s + unsigned 64 a)))
patch_field r_pc64 image at s a p z =
    patched (put64 image at (u64 (s + unsigned 64 a + 2 ^ 64 - p)))
patch_field r_pc32 image at s a p z = store (pc_relative s a p) checked_i32 (put32 image at) image
patch_field r_plt32 image at s a p z = store (pc_relative s a p) checked_i32 (put32 image at) image
patch_field r_pc16 image at s a p z = store (pc_relative s a p) checked_i16 (put16 image at) image
patch_field r_pc8 image at s a p z = store (pc_relative s a p) checked_i8 (set image at) image
patch_field r_32 image at s a p z =
    store (add_int64 (signed 64 s) a) checked_u32 (put32 image at) image
patch_field r_32s image at s a p z =
    store (add_int64 (signed 64 s) a) checked_i32 (put32 image at) image
patch_field r_16 image at s a p z =
    store (add_int64 (signed 64 s) a) checked_u16 (put16 image at) image
patch_field r_8 image at s a p z = store (add_int64 (signed 64 s) a) checked_u8 (set image at) image
patch_field r_size32 image at s a p none = refused image
patch_field r_size32 image at s a p (some z) =
    store (add_int64 (signed 64 z) a) checked_u32 (put32 image at) image
patch_field r_size64 image at s a p none = refused image
patch_field r_size64 image at s a p (some z) = patched (put64 image at (u64 (z + unsigned 64 a)))
patch_field r_gotpcrel image at s a p z = relax_gotpcrel image at s a p
patch_field r_gotpcrelx image at s a p z = relax_gotpcrel image at s a p
patch_field r_rex_gotpcrelx image at s a p z = relax_gotpcrel image at s a p
patch_field r_none image at s a p z = refused image
patch_field r_other image at s a p z = refused image

unfoldable pub addend_of : Section → Reloc → Option ℤ
addend_of sec rel = if rel.has_addend then some rel.addend else read_implicit_addend sec rel

unfoldable pub patch_reloc : List Global → Object → Section → Reloc → Outcome
patch_reloc gs obj sec rel =
    let type = reloc_type rel.type in
    if rel.type == 0
    then patched sec.image
    else if not (reloc_fits_section sec rel (reloc_width type)) || reloc_width type == 0
    then refused sec.image
    else elim (get_symbol_value gs obj rel.symbol_index) [
      | none ↦ refused sec.image
      | some s ↦ elim (addend_of sec rel) [
        | none ↦ refused sec.image
        | some a ↦
            patch_field type sec.image rel.offset s a (u64 (sec.out_addr + rel.offset))
              (get_symbol_size gs obj rel.symbol_index)
      ]
    ]
