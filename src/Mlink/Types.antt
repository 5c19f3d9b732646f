-- ===== src/Mlink/Types.antt =====
-- tools/dev/mlink/mlink.h: the linker's data. Arrays are lists; a pointer to an object is its
-- index in `objects`. Symbols do not change once loaded, so a pointer to one is the symbol. Every
-- name is allocated by the loader, so no name is NULL. Counters of errors do not wrap.
use one_tool.Common.{ℕ, ◌+◌, Bool, true, false, List, Option, none, length, ◌≡◌}
use one_tool.Common.Int.{ℤ}
use one_tool.Mlink.Bytes.{Buffer}

abbrev pub Name : Type 0
Name = List ℕ

pub data SectionKind : Type 0 where
  sec_skip sec_text sec_rodata sec_data sec_bss : SectionKind

-- `a == b` on the enumeration.
unfoldable pub kind_eq : SectionKind → SectionKind → Bool
kind_eq sec_skip sec_skip = true
kind_eq sec_text sec_text = true
kind_eq sec_rodata sec_rodata = true
kind_eq sec_data sec_data = true
kind_eq sec_bss sec_bss = true
kind_eq _ _ = false

pub record Section : Type 0 where
  pub name : Name
  pub type : ℕ
  pub flags : ℕ
  pub align : ℕ
  pub size : ℕ
  pub file_size : ℕ
  pub image : Buffer
  pub kind : SectionKind
  pub out_offset : ℕ
  pub out_addr : ℕ

-- The image has the size that the section claims.
unfoldable pub IsWhole : Section → Type 0
IsWhole s = length s.image ≡ s.file_size

pub record Symbol : Type 0 where
  pub name : Name
  pub bind : ℕ
  pub type : ℕ
  pub shndx : ℕ
  pub value : ℕ
  pub size : ℕ
  pub undefined : Bool
  pub common : Bool

pub record Reloc : Type 0 where
  pub target_section : ℕ
  pub symbol_index : ℕ
  pub type : ℕ
  pub offset : ℕ
  pub addend : ℤ
  pub has_addend : Bool

-- `contents` is the pair `data`, `size`.
pub record Object : Type 0 where
  pub name : Name
  pub contents : Buffer
  pub from_archive : Bool
  pub selected : Bool
  pub sections : List Section
  pub symbols : List Symbol
  pub relocs : List Reloc

pub record Global : Type 0 where
  pub name : Name
  pub object : Option ℕ
  pub symbol : Option Symbol
  pub defined : Bool
  pub weak : Bool
  pub common : Bool
  pub absolute : Bool
  pub referenced : Bool
  pub strong_ref : Bool
  pub value : ℕ
  pub size : ℕ
  pub common_align : ℕ
  pub common_addr : ℕ

pub record Defsym : Type 0 where
  pub name : Name
  pub value : ℕ

pub data MacroKind : Type 0 where
  provide define entry base stack_exec keep assertion : MacroKind

pub data AssertOp : Type 0 where
  op_lt op_le op_gt op_ge op_eq op_ne : AssertOp

-- `negative` is `sign < 0`; a part is a symbol's name or a number.
pub data TermPart : Type 0 where
  symbol_part : (negative : Bool) → Name → TermPart
  value_part : (negative : Bool) → ℕ → TermPart

pub record Macro : Type 0 where
  pub kind : MacroKind
  pub name : Name
  pub value : ℕ
  pub lhs : List TermPart
  pub rhs : List TermPart
  pub op : AssertOp

pub record Context : Type 0 where
  pub entry_name : Name
  pub base_addr : ℕ
  pub dry_run : Bool
  pub no_gnu_stack : Bool
  pub stack_exec : Bool
  pub entry_from_cli : Bool
  pub base_from_cli : Bool
  pub defsyms : List Defsym
  pub objects : List Object
  pub globals : List Global
  pub macros : List Macro
  pub error_count : ℕ
  pub phnum : ℕ
  pub has_rodata_segment : Bool
  pub has_rw_segment : Bool
  pub rx_filesz : ℕ
  pub ro_offset : ℕ
  pub ro_filesz : ℕ
  pub data_offset : ℕ
  pub data_filesz : ℕ
  pub data_memsz : ℕ
  pub final_file_size : ℕ
  pub entry_addr : ℕ

-- `memset(g, 0, sizeof(*g)); g->name = name;`
abbrev pub blank : Name → Global
blank name = record {
  name = name;
  object = none;
  symbol = none;
  defined = false;
  weak = false;
  common = false;
  absolute = false;
  referenced = false;
  strong_ref = false;
  value = 0;
  size = 0;
  common_align = 0;
  common_addr = 0;
}

-- `ml_error`: the message goes to stderr, the count is kept.
abbrev pub report : Context → Context
report ctx = record ctx { error_count = ctx.error_count + 1 }
