-- ===== src/Elf.antt =====
-- libs/elf/elf.c: reading the section table of an ELF64 file. Its little-endian fields are read
-- as in tools/dev/mlink/bytes.c, which has the same functions.
pub mod Ranges
use one_tool.Common.{
  ℕ, zero, suc, ◌+◌, ◌-◌, ◌*◌, Bool, true, false, not, ◌&&◌, ◌||◌, List, [], ◌∷◌, Option, none,
  some, ltb, leb, ◌==◌, if◌then◌else◌, length, drop, get_or, map,
}
use one_tool.Common.Text.{codes}
use one_tool.Mlink.Bytes.{Buffer, get8, get16, get32, get64}

abbrev pub Name : Type 0
Name = List ℕ

pub record Header : Type 0 where
  pub name : Name
  pub name_offset : ℕ
  pub type : ℕ
  pub flags : ℕ
  pub addr : ℕ
  pub offset : ℕ
  pub size : ℕ
  pub link : ℕ
  pub info : ℕ
  pub addralign : ℕ
  pub entsize : ℕ

pub record File : Type 0 where
  pub contents : Buffer
  pub type : ℕ
  pub machine : ℕ
  pub entry : ℕ
  pub shstrndx : ℕ
  pub sections : List Header

unfoldable pub range_ok : (file_size off size : ℕ) → Bool
range_ok file_size off size = leb off file_size && leb size (file_size - off)

-- The bytes up to the first zero among the first `left`; `none` if there is no zero.
unfoldable pub c_string : (bytes : Buffer) → (left : ℕ) → Option Name
c_string [] left = none
c_string (b ∷ bs) zero = none
c_string (b ∷ bs) (suc left) =
    let rest = c_string bs left in
    if b == 0 then some [] else elim rest [ none ↦ none | some s ↦ some (b ∷ s) ]

-- `base` is the file's bytes from the table on, `size` the table's size.
unfoldable pub strdup_from_strtab : (base : Buffer) → (size off : ℕ) → Name
strdup_from_strtab bytes size off =
    if leb size off
    then codes "<badstr>"
    else elim (c_string (drop off bytes) (size - off)) [ none ↦ codes "<badstr>" | some s ↦ s ]

-- One entry of the section table, its name not read yet.
unfoldable pub header_at : Buffer → (p : ℕ) → Header
header_at file p = record {
  name = [];
  name_offset = get32 file p;
  type = get32 file (p + 4);
  flags = get64 file (p + 8);
  addr = get64 file (p + 16);
  offset = get64 file (p + 24);
  size = get64 file (p + 32);
  link = get32 file (p + 40);
  info = get32 file (p + 44);
  addralign = get64 file (p + 48);
  entsize = get64 file (p + 56);
}

unfoldable pub headers_from : (count : ℕ) → Buffer → (p : ℕ) → List Header
headers_from zero file p = []
headers_from (suc n) file p = header_at file p ∷ headers_from n file (p + 64)

abbrev pub no_header : Header
no_header = record {
  name = [];
  name_offset = 0;
  type = 0;
  flags = 0;
  addr = 0;
  offset = 0;
  size = 0;
  link = 0;
  info = 0;
  addralign = 0;
  entsize = 0;
}

abbrev pub with_name : Buffer → Header → Header → Header
with_name file table h = record h {
  name = strdup_from_strtab (drop table.offset file) table.size h.name_offset;
}

-- `ELFMAG`, then the 64-bit class, little-endian data and the version.
unfoldable pub has_magic : Buffer → Bool
has_magic file =
    get8 file 0 == 0x7f && get8 file 1 == 0x45 && get8 file 2 == 0x4c && get8 file 3 == 0x46

unfoldable pub has_class : Buffer → Bool
has_class file = get8 file 4 == 2 && get8 file 5 == 1 && get8 file 6 == 1

-- The guards of `ot_elf_parse` on the section table.
unfoldable pub table_ok : Buffer → Bool
table_ok file =
    get16 file 58 == 64
    && not (get16 file 60 == 0)
    && range_ok (length file) (get64 file 40) (get16 file 58 * get16 file 60)

unfoldable pub names_ok : Buffer → Bool
names_ok file = not (get16 file 62 == 0) && ltb (get16 file 62) (get16 file 60)

abbrev pub table_of : Buffer → List Header
table_of file = headers_from (get16 file 60) file (get64 file 40)

abbrev pub name_table : Buffer → Header
name_table file = get_or (table_of file) (get16 file 62) no_header

-- What is filled in once every guard is passed.
abbrev pub file_of : Buffer → File
file_of file = record {
  contents = file;
  type = get16 file 16;
  machine = get16 file 18;
  entry = get64 file 24;
  shstrndx = get16 file 62;
  sections = map (with_name file (name_table file)) (table_of file);
}

-- `none` is the result 1; the error's text is not kept.
unfoldable pub parse : Buffer → Option File
parse file =
    if ltb (length file) 16 || not (has_magic file)
    then none
    else if ltb (length file) 64 || not (has_class file)
    then none
    else if not (table_ok file) || not (names_ok file)
    then none
    else if range_ok (length file) (name_table file).offset (name_table file).size
    then some (file_of file)
    else none
