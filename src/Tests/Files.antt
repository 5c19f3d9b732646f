-- ===== src/Tests/Files.antt =====
-- Runs of the ELF parser (libs/elf/elf.c) and of the object loader (elf-reader.c) on a file of two
-- section headers, the second a text section of four bytes that also holds the names.
use one_tool.Common.{
  ◌+◌, ◌*◌, ◌<◌, ◌≤◌, ◌≡◌, true, false, [], ◌∷◌, none, some, refl, All, length, replicate, set,
}
use one_tool.Common.Text.{codes, str_eq}
use one_tool.Elf.{
  parse, file_of, has_magic, has_class, table_ok, names_ok, range_ok, headers_from, header_at,
  strdup_from_strtab, c_string,
}
use one_tool.Elf.Ranges.{parse-ranges, IsCString}
use one_tool.Mlink.Bytes.{Buffer, get16, get32, get64}
use one_tool.Mlink.Types.{Object, IsWhole, kind_eq}
use one_tool.Mlink.Reader.{
  parse_elf_object, load_sections, load_symbols, load_relocs, classify_section,
}
use one_tool.Mlink.Reader.Loaded.{parse_elf_object-IsWhole}
use one_tool.Tests.{one_call, object_with, decimal}

-- A null header, then SHT_PROGBITS with SHF_ALLOC and SHF_EXECINSTR, at offset 0 and of size 4.
abbrev pub section_table : Buffer
section_table = set (set (set (replicate 128 0) 68 1) 72 6) 96 4

-- The identification, ET_REL and EM_X86_64, then the place and the shape of the section table.
abbrev pub file : Buffer
file =
    0x7f ∷ 0x45 ∷ 0x4c ∷ 0x46 ∷ 2 ∷ 1 ∷ 1 ∷ 0 ∷ 0 ∷ 0 ∷ 0 ∷ 0 ∷ 0 ∷ 0 ∷ 0 ∷ 0 ∷ 1 ∷ 0 ∷ 62 ∷ 0 ∷ 1
    ∷ 0 ∷ 0 ∷ 0 ∷ 0 ∷ 0 ∷ 0 ∷ 0 ∷ 0 ∷ 0 ∷ 0 ∷ 0 ∷ 0 ∷ 0 ∷ 0 ∷ 0 ∷ 0 ∷ 0 ∷ 0 ∷ 0 ∷ 64 ∷ 0 ∷ 0 ∷ 0 ∷ 0
    ∷ 0 ∷ 0 ∷ 0 ∷ 0 ∷ 0 ∷ 0 ∷ 0 ∷ 64 ∷ 0 ∷ 0 ∷ 0 ∷ 0 ∷ 0 ∷ 64 ∷ 0 ∷ 2 ∷ 0 ∷ 1 ∷ 0 ∷ section_table

parse-ranges_example :
    (length (file_of file).sections ≡ get16 file 60)
    × (get64 file 40 + 64 * length (file_of file).sections ≤ length file)
    × ((file_of file).shstrndx < length (file_of file).sections)
    × All (λ h. IsCString h.name) (file_of file).sections
unfolding parse has_magic has_class table_ok names_ok range_ok headers_from header_at get16 get32
    get64
parse-ranges_example = parse-ranges file (file_of file) refl

abbrev loaded : Object
loaded = elim (parse_elf_object decimal one_call (codes "a.o") file true false).1 [
  | none ↦ object_with [] []
  | some obj ↦ obj
]

parse_elf_object-IsWhole_example : All IsWhole loaded.sections
unfolding parse has_magic has_class table_ok names_ok range_ok headers_from header_at get16 get32
    get64 parse_elf_object load_sections load_symbols load_relocs classify_section kind_eq
    strdup_from_strtab c_string str_eq
parse_elf_object-IsWhole_example =
    parse_elf_object-IsWhole decimal one_call (codes "a.o") file true false loaded refl
