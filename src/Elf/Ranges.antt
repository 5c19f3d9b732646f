-- ===== src/Elf/Ranges.antt =====
-- libs/elf/elf.c: what a parsed file guarantees to its readers.
use mathlib.Core.Path.{subst}
use one_tool.Common.{
  ℕ, zero, suc, ◌+◌, ◌-◌, ◌*◌, ◌≤◌, ◌<◌, true, false, List, [], ◌∷◌, some, leb, ◌==◌, length, drop,
  map, ◌≡◌, refl, ap, ◌∙◌, inl, inr, arith, All, Bool-cases, Option-cases,
}
use one_tool.Common.Text.{codes}
use one_tool.Mlink.Bytes.{Buffer, get16, get64}
use one_tool.Elf.{
  Header, File, range_ok, c_string, strdup_from_strtab, headers_from, with_name, table_ok, names_ok,
  parse, name_table, table_of, file_of,
}

-- A C string has no zero inside.
pub IsCString : List ℕ → Type 0
IsCString s = All (λ c. (c == 0) ≡ false) s

c_string-IsCString :
    (bytes : Buffer) (left : ℕ) (s : List ℕ) → c_string bytes left ≡ some s → IsCString s
unfolding c_string IsCString
c_string-IsCString [] left s h = cc
c_string-IsCString (b ∷ bs) zero s h = cc
c_string-IsCString (b ∷ bs) (suc left) s h = elim (Bool-cases (b == 0)) [
  | inl e ↦ let same : [] ≡ s = ground (arith, e) in subst IsCString same tt
  | inr e ↦ elim (Option-cases (c_string bs left)) [
    | inl none_e ↦ ground (arith, e, none_e)
    | inr (t, some_e) ↦
        let same : b ∷ t ≡ s = ground (arith, e, some_e) in
        subst IsCString same (e, c_string-IsCString bs left t some_e)
  ]
]

bad_name : IsCString (codes "<badstr>")
unfolding IsCString
bad_name = (refl, (refl, (refl, (refl, (refl, (refl, (refl, (refl, tt))))))))

pub strdup-IsCString :
    (bytes : Buffer) (size off : ℕ) → IsCString (strdup_from_strtab bytes size off)
unfolding strdup_from_strtab IsCString
strdup-IsCString bytes size off = elim (Bool-cases (leb size off)) [
  | inl e ↦ rw e bad_name
  | inr e ↦ elim (Option-cases (c_string (drop off bytes) (size - off))) [
    | inl e' ↦ rw (e, e') bad_name
    | inr (t, e') ↦ rw (e, e') (c_string-IsCString (drop off bytes) (size - off) t e')
  ]
]

length-headers_from : (n : ℕ) (file : Buffer) (p : ℕ) → length (headers_from n file p) ≡ n
unfolding headers_from
length-headers_from zero file p = refl
length-headers_from (suc n) file p = ap suc (length-headers_from n file (p + 64))

length-map : {A B : Type 0} (f : A → B) (xs : List A) → length (map f xs) ≡ length xs
length-map f [] = refl
length-map f (x ∷ xs) = ap suc (length-map f xs)

names-IsCString :
    (file : Buffer) (table : Header) (hs : List Header)
    → All (λ h. IsCString h.name) (map (with_name file table) hs)
names-IsCString file table [] = tt
names-IsCString file table (h ∷ hs) = (
  strdup-IsCString (drop table.offset file) table.size h.name_offset,
  names-IsCString file table hs,
)

-- A parse that succeeds passed every guard.
parse_cases :
    (file : Buffer) (elf : File)
    → parse file ≡ some elf
    → (file_of file ≡ elf)
      × (64 ≤ length file)
      × (table_ok file ≡ true)
      × (names_ok file ≡ true)
      × (range_ok (length file) (name_table file).offset (name_table file).size ≡ true)
unfolding parse
parse_cases file elf h = (ground arith, ground arith, ground arith, ground arith, ground arith)

table_ok_lem :
    (file : Buffer) → table_ok file ≡ true → get64 file 40 + 64 * get16 file 60 ≤ length file
unfolding table_ok range_ok
table_ok_lem file h = ground arith

names_ok_lem : (file : Buffer) → names_ok file ≡ true → get16 file 62 < get16 file 60
unfolding names_ok
names_ok_lem file h = ground arith

-- A file that `ot_elf_parse` accepts has its whole section table inside its bytes, as many
-- sections as its header says and among them the one that holds the names; and every name that it
-- hands out is a C string.
pub parse-ranges :
    (file : Buffer) (elf : File)
    → parse file ≡ some elf
    → (length elf.sections ≡ get16 file 60)
      × (get64 file 40 + 64 * length elf.sections ≤ length file)
      × (elf.shstrndx < length elf.sections)
      × All (λ h. IsCString h.name) elf.sections
parse-ranges file elf h =
    let (same, _, table, names, _) = parse_cases file elf h in
    let count : length (file_of file).sections ≡ get16 file 60 =
      length-map (with_name file (name_table file)) (table_of file)
      ∙ length-headers_from (get16 file 60) file (get64 file 40) in
    rw (← same) (
      count,
      omega (arith, table_ok_lem file table, count),
      omega (arith, names_ok_lem file names, count),
      names-IsCString file (name_table file) (table_of file),
    )
