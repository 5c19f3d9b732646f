-- ===== src/Tests.antt =====
-- Small inputs for the tests of tools/dev/mlink: two objects that define one symbol, a section
-- with a relocation, and the directives of a .mlink.macro section.
mod Symbols
mod Images
mod Files
mod Directives
mod Shading
mod Sharing
mod Drawing
mod Recording
mod Urls
mod Links
mod Archives
mod Robots
use one_tool.Common.{
  ℕ, ◌+◌, ◌*◌, ◌-◌, true, false, List, [], ◌∷◌, none, replicate, if◌then◌else◌, leb, ◌&&◌, ◌==◌,
  not,
}
use one_tool.Common.Int.{ℤ, pos, negsuc}
use one_tool.Common.Text.{codes}
use one_tool.Mlink.Types.{
  sec_text, sec_skip, Section, Symbol, Reloc, Object, Context, Name, Macro, define, assertion,
  provide, op_le, op_lt, symbol_part, value_part,
}
use one_tool.Mlink.Macros.Parse.{Number}

-- A function `f`, weak or strong, at the start of section 1.
abbrev pub f_symbol : (bind : ℕ) → Symbol
f_symbol bind = record {
  name = codes "f";
  bind = bind;
  type = 2;
  shndx = 1;
  value = 0;
  size = 4;
  undefined = false;
  common = false;
}

abbrev pub f_wanted : Symbol
f_wanted = record (f_symbol 1) { shndx = 0; size = 0; undefined = true }

abbrev pub null_section : Section
null_section = record {
  name = [];
  type = 0;
  flags = 0;
  align = 1;
  size = 0;
  file_size = 0;
  image = [];
  kind = sec_skip;
  out_offset = 0;
  out_addr = 0;
}

abbrev pub text_section : Section
text_section = record null_section {
  name = codes ".text";
  type = 1;
  flags = 6;
  align = 16;
  size = 8;
  file_size = 8;
  image = replicate 8 0x90;
  kind = sec_text;
  out_offset = 288;
  out_addr = 0x400120;
}

-- A call of `f` from the section's second byte.
abbrev pub call_f : Reloc
call_f = record {
  target_section = 1;
  symbol_index = 0;
  type = 2;
  offset = 1;
  addend = negsuc 3;
  has_addend = true;
}

abbrev pub object_with : List Symbol → (selected : List Reloc) → Object
object_with syms rels = record {
  name = codes "a.o";
  contents = [];
  from_archive = false;
  selected = true;
  sections = null_section ∷ text_section ∷ [];
  symbols = syms;
  relocs = rels;
}

abbrev pub two_objects : List Object
two_objects = object_with (f_symbol 2 ∷ []) [] ∷ object_with (f_symbol 1 ∷ []) [] ∷ []

-- An object that wants `f`, and an archive member that has it.
abbrev pub program_and_archive : List Object
program_and_archive =
    object_with (f_wanted ∷ []) []
    ∷ record (object_with (f_symbol 1 ∷ []) []) { from_archive = true; selected = false }
    ∷ []

abbrev pub context_with : List Object → Context
context_with objs = record {
  entry_name = codes "f";
  base_addr = 0x400000;
  dry_run = false;
  no_gnu_stack = false;
  stack_exec = false;
  entry_from_cli = false;
  base_from_cli = false;
  defsyms = [];
  objects = objs;
  globals = [];
  macros = [];
  error_count = 0;
  phnum = 2;
  has_rodata_segment = false;
  has_rw_segment = false;
  rx_filesz = 296;
  ro_offset = 0;
  ro_filesz = 0;
  data_offset = 0;
  data_filesz = 0;
  data_memsz = 0;
  final_file_size = 296;
  entry_addr = 0x400120;
}

abbrev pub one_call : Context
one_call = context_with (object_with (f_symbol 1 ∷ []) (call_f ∷ []) ∷ [])

-- `strtoull` on decimal digits, enough for these texts.
unfoldable pub decimal_from : Name → (value read : ℕ) → Number
decimal_from [] value read = record { value = value; read = read; failed = false }
decimal_from (c ∷ cs) value read =
    let more = decimal_from cs (value * 10 + (c - 48)) (read + 1) in
    if leb 48 c && leb c 57 then more else record { value = value; read = read; failed = false }

abbrev pub decimal : Name → Number
decimal s = decimal_from s 0 0

abbrev pub define_f : Macro
define_f = record { kind = define; name = codes "f"; value = 7; lhs = []; rhs = []; op = op_lt }

-- ASSERT f <= 9
abbrev pub assert_f : Macro
assert_f = record {
  kind = assertion;
  name = [];
  value = 0;
  lhs = symbol_part false (codes "f") ∷ [];
  rhs = value_part false 9 ∷ [];
  op = op_le;
}
