-- ===== src/Mlink/Reader/Loaded.antt =====
-- tools/dev/mlink/elf-reader.c: what a loaded object guarantees to the linker.
use mathlib.Core.Path.{subst}
use one_tool.Common.{
  ℕ, Bool, true, false, not, ◌&&◌, ◌||◌, List, [], ◌∷◌, Option, none, some, ◌==◌, length, drop,
  length-take, length-drop, ◌≡◌, refl, inl, inr, arith, All, Bool-cases, Option-cases,
}
use one_tool.Elf.{Header, range_ok}
use one_tool.Mlink.Bytes.{Buffer}
use one_tool.Mlink.Types.{Section, Object, Context, Name, IsWhole, kind_eq, sec_skip}
use one_tool.Mlink.Emit.{is_copied}
use one_tool.Mlink.Emit.Filed.{holds_bytes, IsRead}
use one_tool.Mlink.Macros.Parse.{Number, add_from_object}
use one_tool.Mlink.Reader.{
  empty_section, filled_section, slice, is_macro, is_unread, cons_section, load_sections,
  parse_elf_object, classify_section,
}

length-slice :
    (file : Buffer) (off size : ℕ)
    → range_ok (length file) off size ≡ true
    → length (slice file off size) ≡ size
unfolding range_ok
length-slice file off size h =
    length-take size (drop off file) (ground (arith, length-drop off file))

cons-some :
    (s : Section) (r : Context × Option (List Section)) (ss : List Section)
    → (cons_section s r).1 ≡ some ss
    → (tail : List Section) × (r.1 ≡ some tail) × (s ∷ tail ≡ ss)
cons-some s (ctx, none) ss h = cc
cons-some s (ctx, some tail) ss h = (tail, refl, ground arith)

-- The bytes of the section are read.
abbrev is_filled : Buffer → Header → Bool
is_filled file h = not (is_unread h) && range_ok (length file) h.offset h.size

module _ (strtoull : Name → Number) (P : Section → Type 0)
    (empty : (h : Header) → P (empty_section h))
    (filled : (file : Buffer) (h : Header)
      → is_filled file h ≡ true
      → P (filled_section file h)) where
  cons-All :
      (s : Section) (r : Context × Option (List Section)) (ss : List Section)
      → (cons_section s r).1 ≡ some ss
      → P s
      → ((tail : List Section) → r.1 ≡ some tail → All P tail)
      → All P ss
  cons-All s r ss h first rest =
      let (tail, e, same) = cons-some s r ss h in subst (λ t. All P t) same (first, rest tail e)

  load_sections-All :
      (hs : List Header) (file : Buffer) (ctx : Context) (ss : List Section)
      → (load_sections strtoull hs file ctx).1 ≡ some ss
      → All P ss
  unfolding load_sections
  load_sections-All [] file ctx ss h =
      let same : [] ≡ ss = ground arith in subst (λ t. All P t) same tt
  load_sections-All (h ∷ hs) file ctx ss e = elim (Bool-cases (is_macro h)) [
    | inl m ↦ elim (Bool-cases (range_ok (length file) h.offset h.size)) [
      | inl ok ↦
          let added = add_from_object strtoull ctx (slice file h.offset h.size) in
          elim (Bool-cases added.1) [
            | inl bad ↦ ground (arith, m, ok, bad)
            | inr good ↦
                cons-All (empty_section h) (load_sections strtoull hs file added.0) ss
                  (rw (m, ok, good) at e) (empty h) (λ tail. load_sections-All hs file added.0 tail)
          ]
      | inr ok ↦ ground (arith, m, ok)
    ]
    | inr m ↦ elim (Bool-cases (is_unread h)) [
      | inl u ↦
          cons-All (empty_section h) (load_sections strtoull hs file ctx) ss (rw (m, u) at e)
            (empty h) (λ tail. load_sections-All hs file ctx tail)
      | inr u ↦ elim (Bool-cases (range_ok (length file) h.offset h.size)) [
        | inl ok ↦
            cons-All (filled_section file h) (load_sections strtoull hs file ctx) ss
              (rw (m, u, ok) at e) (filled file h (rw (u, ok) refl))
              (λ tail. load_sections-All hs file ctx tail)
        | inr ok ↦ ground (arith, m, u, ok)
      ]
    ]
  ]

  parse_elf_object-All :
      (ctx : Context) (name : Name) (file : Buffer) (selected from_archive : Bool) (obj : Object)
      → (parse_elf_object strtoull ctx name file selected from_archive).1 ≡ some obj
      → All P obj.sections
  unfolding parse_elf_object
  parse_elf_object-All ctx name file selected from_archive obj h =
      elim (Option-cases (one_tool.Elf.parse file)) [
        | inl e ↦ ground (arith, e)
        | inr (elf, e) ↦ elim (Bool-cases (not (elf.type == 1) || not (elf.machine == 62))) [
          | inl f ↦ ground (arith, e, f)
          | inr f ↦ elim (Option-cases (load_sections strtoull elf.sections file ctx).1) [
            | inl g ↦ ground (arith, e, f, g)
            | inr (ss, g) ↦
                let same : ss ≡ obj.sections = ground (arith, e, f, g) in
                subst (λ t. All P t) same (load_sections-All elf.sections file ctx ss g)
          ]
        ]
      ]

empty-IsWhole : (h : Header) → IsWhole (empty_section h)
unfolding IsWhole empty_section
empty-IsWhole h = refl

filled-IsWhole :
    (file : Buffer) (h : Header) → is_filled file h ≡ true → IsWhole (filled_section file h)
unfolding IsWhole filled_section
filled-IsWhole file h ok = length-slice file h.offset h.size (ground arith)

empty-IsRead : (h : Header) → IsRead (empty_section h)
unfolding empty_section is_copied
empty-IsRead h = record {
  whole = empty-IsWhole h;
  sized = λ e. ground arith;
  filed = λ e. ground arith;
}

-- The classes of sections with bytes.
classify_section-holds_bytes :
    (type flags : ℕ) (name : Name)
    → (type == 8) ≡ false
    → kind_eq (classify_section type flags name) sec_skip ≡ false
    → holds_bytes (classify_section type flags name) ≡ true
unfolding classify_section holds_bytes kind_eq
classify_section-holds_bytes type flags name data_type used = ground arith

filled-IsRead :
    (file : Buffer) (h : Header) → is_filled file h ≡ true → IsRead (filled_section file h)
unfolding filled_section empty_section is_copied
filled-IsRead file h ok = record {
  whole = filled-IsWhole file h ok;
  sized = λ e. refl;
  filed = λ e. classify_section-holds_bytes h.type h.flags h.name (ground arith) (ground arith);
}

-- Every section of an object that `ml_parse_elf_object` accepts has an image of exactly
-- `file_size` bytes.
pub parse_elf_object-IsWhole :
    (strtoull : Name → Number) (ctx : Context) (name : Name) (file : Buffer)
    (selected from_archive : Bool) (obj : Object)
    → (parse_elf_object strtoull ctx name file selected from_archive).1 ≡ some obj
    → All IsWhole obj.sections
parse_elf_object-IsWhole strtoull ctx name file selected from_archive obj h =
    parse_elf_object-All strtoull IsWhole empty-IsWhole filled-IsWhole ctx name file selected
      from_archive obj h

-- And those that go into the output are of a kind with bytes, as large as their bytes.
pub parse_elf_object-IsRead :
    (strtoull : Name → Number) (ctx : Context) (name : Name) (file : Buffer)
    (selected from_archive : Bool) (obj : Object)
    → (parse_elf_object strtoull ctx name file selected from_archive).1 ≡ some obj
    → All IsRead obj.sections
parse_elf_object-IsRead strtoull ctx name file selected from_archive obj h =
    parse_elf_object-All strtoull IsRead empty-IsRead filled-IsRead ctx name file selected
      from_archive obj h
