-- ===== src/Mlink/Reader.antt =====
-- tools/dev/mlink/elf-reader.c: an object file becomes sections, symbols and relocations. The
-- guards come before each read, in the source's order; `none` is the result 1 and stands for one
-- error reported. `strtoull` is a parameter, for the directives of a .mlink.macro section.
pub mod Loaded
use one_tool.Common.{
  ℕ, zero, suc, ◌+◌, ◌-◌, ◌*◌, ◌/◌, ◌%◌, ◌^◌, Bool, true, false, not, ◌&&◌, ◌||◌, List, [], ◌∷◌,
  ◌++◌, Option, none, some, ltb, leb, ◌==◌, if◌then◌else◌, length, drop, take, get_or, bit_and,
}
use one_tool.Common.Int.{ℤ, pos}
use one_tool.Common.Text.{codes, str_eq}
use one_tool.Elf.{Header, File, range_ok, strdup_from_strtab, no_header}
use one_tool.Mlink.Bytes.{Buffer, get8, get16, get32, get64}
use one_tool.Mlink.Types.{
  SectionKind, sec_skip, sec_text, sec_rodata, sec_data, sec_bss, kind_eq, Section, Symbol, Reloc,
  Object, Context, Name, report,
}
use one_tool.Mlink.Macros.Parse.{Number, add_from_object}
use one_tool.Mlink.Reloc.Signed.{signed}

unfoldable pub classify_section : (type flags : ℕ) → (name : Name) → SectionKind
classify_section type flags name =
    if bit_and flags 2 == 0
    then sec_skip
    else if not (bit_and flags 4 == 0)
    then sec_text
    else if not (bit_and flags 1 == 0)
    then if type == 8 then sec_bss else sec_data
    else if str_eq name (codes ".eh_frame")
        || str_eq name (codes ".comment")
        || str_eq name (codes ".note.GNU-stack")
    then sec_skip
    else sec_rodata

-- The section before its bytes are read.
unfoldable pub empty_section : Header → Section
empty_section h = record {
  name = h.name;
  type = h.type;
  flags = h.flags;
  align = if h.addralign == 0 then 1 else h.addralign;
  size = h.size;
  file_size = 0;
  image = [];
  kind = classify_section h.type h.flags h.name;
  out_offset = 0;
  out_addr = 0;
}

abbrev pub slice : Buffer → (off size : ℕ) → Buffer
slice file off size = take size (drop off file)

abbrev pub is_macro : Header → Bool
is_macro h = str_eq h.name (codes ".mlink.macro") && ltb 0 h.size && not (h.type == 8)

-- The section has no bytes of its own to read.
abbrev pub is_unread : Header → Bool
is_unread h =
    kind_eq (classify_section h.type h.flags h.name) sec_skip || h.type == 8 || h.size == 0

unfoldable pub filled_section : Buffer → Header → Section
filled_section file h = record (empty_section h) {
  image = slice file h.offset h.size;
  file_size = h.size;
}

abbrev pub cons_section :
    Section → Context × Option (List Section) → Context × Option (List Section)
cons_section s r = (r.0, elim r.1 [ none ↦ none | some ss ↦ some (s ∷ ss) ])

unfoldable pub load_sections :
    (strtoull : Name → Number) → List Header → Buffer → Context → Context × Option (List Section)
load_sections strtoull [] file ctx = (ctx, some [])
load_sections strtoull (h ∷ hs) file ctx =
    if is_macro h
    then if range_ok (length file) h.offset h.size
      then (let added = add_from_object strtoull ctx (slice file h.offset h.size) in
          let rest = load_sections strtoull hs file added.0 in
          if added.1 then (added.0, none) else cons_section (empty_section h) rest)
      else (report ctx, none)
    else if is_unread h
    then cons_section (empty_section h) (load_sections strtoull hs file ctx)
    else if range_ok (length file) h.offset h.size
    then cons_section (filled_section file h) (load_sections strtoull hs file ctx)
    else (report ctx, none)

-- `ELF64_ST_BIND` and `ELF64_ST_TYPE` are the halves of `st_info`.
unfoldable pub symbol_at : Buffer → (strtab : Header) → (p : ℕ) → Symbol
symbol_at file strtab p = record {
  name = strdup_from_strtab (drop strtab.offset file) strtab.size (get32 file p);
  bind = get8 file (p + 4) / 16;
  type = get8 file (p + 4) % 16;
  shndx = get16 file (p + 6);
  value = get64 file (p + 8);
  size = get64 file (p + 16);
  undefined = get16 file (p + 6) == 0;
  common = get16 file (p + 6) == 0xfff2;
}

unfoldable pub symbols_from : (count : ℕ) → Buffer → (strtab : Header) → (p : ℕ) → List Symbol
symbols_from zero file strtab p = []
symbols_from (suc n) file strtab p = symbol_at file strtab p ∷ symbols_from n file strtab (p + 24)

-- `memset` to zero and an empty name.
abbrev pub null_symbol : Symbol
null_symbol = record {
  name = [];
  bind = 0;
  type = 0;
  shndx = 0;
  value = 0;
  size = 0;
  undefined = false;
  common = false;
}

unfoldable pub load_symbol_table : List Header → Buffer → Header → Option (List Symbol)
load_symbol_table sections file h =
    if not (h.entsize == 24)
      || leb (length sections) h.link
      || not (range_ok (length file) h.offset h.size)
    then none
    else (let strtab = get_or sections h.link no_header in
        if range_ok (length file) strtab.offset strtab.size
        then some (symbols_from (h.size / 24) file strtab h.offset)
        else none)

-- The first symbol table is the one that counts.
unfoldable pub load_symbols : (rest all : List Header) → Buffer → Option (List Symbol)
load_symbols [] sections file = some (null_symbol ∷ [])
load_symbols (h ∷ hs) sections file =
    if h.type == 2 then load_symbol_table sections file h else load_symbols hs sections file

-- `ELF64_R_SYM` and `ELF64_R_TYPE` are the halves of `r_info`.
unfoldable pub reloc_at : Buffer → Header → (p : ℕ) → Reloc
reloc_at file h p = record {
  target_section = h.info;
  symbol_index = get64 file (p + 8) / 2 ^ 32;
  type = get64 file (p + 8) % 2 ^ 32;
  offset = get64 file p;
  addend = if h.type == 4 then signed 64 (get64 file (p + 16)) else pos 0;
  has_addend = h.type == 4;
}

unfoldable pub relocs_from : (count : ℕ) → (entsize : ℕ) → Buffer → Header → (p : ℕ) → List Reloc
relocs_from zero entsize file h p = []
relocs_from (suc n) entsize file h p =
    reloc_at file h p ∷ relocs_from n entsize file h (p + entsize)

abbrev pub reloc_entsize : Header → ℕ
reloc_entsize h = if h.type == 4 then 24 else 16

unfoldable pub reloc_section_ok : (section_count : ℕ) → Buffer → Header → Bool
reloc_section_ok count file h =
    not (leb count h.info || leb count h.link || not (range_ok (length file) h.offset h.size))
    && not (not (h.entsize == 0) && not (h.entsize == reloc_entsize h))
    && h.size % reloc_entsize h == 0

unfoldable pub load_relocs : List Header → (section_count : ℕ) → Buffer → Option (List Reloc)
load_relocs [] count file = some []
load_relocs (h ∷ hs) count file =
    let rest = load_relocs hs count file in
    if not (h.type == 4) && not (h.type == 9)
    then rest
    else if reloc_section_ok count file h
    then elim rest [
      | none ↦ none
      | some rs ↦
          some (relocs_from (h.size / reloc_entsize h) (reloc_entsize h) file h h.offset ++ rs)
    ]
    else none

-- The object once its parts are loaded.
abbrev pub object_of :
    (name : Name)
    → Buffer
    → (selected from_archive : Bool) → List Section
    → List Symbol
    → List Reloc
    → Object
object_of name file selected from_archive ss syms rels = record {
  name = name;
  contents = file;
  from_archive = from_archive;
  selected = selected;
  sections = ss;
  symbols = syms;
  relocs = rels;
}

-- `ml_parse_elf_object`: the context with its errors, and the object.
unfoldable pub parse_elf_object :
    (strtoull : Name → Number)
    → Context
    → (name : Name) → Buffer
    → (selected from_archive : Bool) → Context × Option Object
parse_elf_object strtoull ctx name file selected from_archive = elim (one_tool.Elf.parse file) [
  | none ↦ (report ctx, none)
  | some elf ↦
      if not (elf.type == 1) || not (elf.machine == 62)
      then (report ctx, none)
      else (let loaded = load_sections strtoull elf.sections file ctx in
          elim loaded.1 [
            | none ↦ (loaded.0, none)
            | some ss ↦ elim (load_symbols elf.sections elf.sections file) [
              | none ↦ (report loaded.0, none)
              | some syms ↦ elim (load_relocs elf.sections (length elf.sections) file) [
                | none ↦ (report loaded.0, none)
                | some rels ↦
                    (loaded.0, some (object_of name file selected from_archive ss syms rels))
              ]
            ]
          ])
]
