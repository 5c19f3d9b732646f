-- ===== src/Tests/Links.antt =====
-- A whole run of the linker (cli.c) on the file of two section headers.
use one_tool.Common.{◌≡◌, ℕ, Bool, Option, List, true, false, [], ◌∷◌, none, some, refl, arith}
use one_tool.Common.Int.{pos, ◌+ℤ◌, ◌-ℤ◌}
use one_tool.Mlink.Bytes.{Buffer}
use one_tool.Mlink.Types.{Context, Name, kind_eq}
use one_tool.Mlink.Layout.Segments.{HasRoom}
use one_tool.Mlink.Main.{Platform, load_options, link_inputs, run_main}
use one_tool.Mlink.Args.{
  Options, init_options, init_context, exits, accepted, parse_args, parse_arg, parse_flag,
  parse_output, parse_library, set_entry_name, add_defsym, add_input_path, checked,
}
use one_tool.Mlink.Macros.Parse.{parse_u64, span}
use one_tool.Mlink.Main.Whole.{IsLinked, run_main-IsLinked}
use one_tool.Mlink.Input.{load_inputs, load_input, starts_with, add_object}
use one_tool.Common.Text.{codes, str_eq}
use one_tool.Elf.{
  parse, has_magic, has_class, table_ok, names_ok, range_ok, headers_from, header_at,
  strdup_from_strtab, c_string,
}
use one_tool.Mlink.Reader.{
  parse_elf_object, load_sections, load_symbols, load_relocs, classify_section, empty_section,
  filled_section, symbol_at, reloc_section_ok, symbols_from, relocs_from, load_symbol_table,
}
use one_tool.Tests.{decimal, decimal_from}
use one_tool.Tests.Files.{file}
use one_tool.Mlink.Link.{gate, gate_option, middle, finish, link_all}
use one_tool.Mlink.Resolve.{resolve_symbol, resolve_object, resolve_objects, resolve_symbols}
use one_tool.Mlink.Select.{
  defines, selected_objects_define, strongly_refers, selected_objects_reference,
  archive_member_needed, select_member, select_round, select_loop, select_archive_members,
}
use one_tool.Mlink.Symtab.{
  is_global_symbol, is_weak_symbol, symbol_has_name, find_global, intern_global, update_global,
  merge_symbol, define_global, refer, record_undefined, inject_defsym_list, inject_defsyms,
  define_linker_symbol, linker_symbols, inject_linker_symbols, is_missing, count_missing,
  report_undefined,
}
use one_tool.Mlink.Macros.{
  eval_op, resolve_part, is_negative, resolve_parts, assertion_fails, count_failures,
  apply_post_layout, apply_entry, apply_base, apply_macro, apply_macros, apply_pre_layout,
  inject_macro, inject_one, inject_macros, inject_symbols,
}
use one_tool.Mlink.Layout.{
  has_kind, place_section, place_sections, place_object, place_objects, has_ro, has_rw,
  header_count, header_size, text_pass, ro_start, ro_pass, data_start, data_pass, bss_pass,
  layout_sections, common_cursor_start, local_symbol_addr, defined_value, common_start,
  global_value, global_values, compute_global_values, output_size, set_entry, layout,
}
use one_tool.Mlink.Reloc.{
  reloc_type, reloc_width, global_of, value_of, get_symbol_value, get_symbol_size, store, relaxed,
  relax_gotpcrel, reloc_fits_section, field_value, read_implicit_addend, patch_field, addend_of,
  patch_reloc,
}
use one_tool.Mlink.Reloc.Rounds.{apply_reloc, apply_relocs, apply_objects, apply_relocations}
use one_tool.Mlink.Reloc.Signed.{
  signed, unsigned, int64, add_int64, pc_relative, checked_u32, checked_u16, checked_u8,
  checked_i32, checked_i16, checked_i8,
}
use one_tool.Mlink.Emit.{
  put_ident, put_ehdr, put_phdr, put_gnu_stack, put_ro, put_rw, put_stack, put_headers, is_copied,
  copy_section, copy_object, copy_sections, emit_image, emit_output,
}
use one_tool.Mlink.Bytes.{align_up, get16, get32, get64, put16, put32, put64, fill, copy}
use one_tool.Common.{any}

-- mlink --defsym=f=4194592 -e f a.o
abbrev arguments : List Name
arguments = codes "--defsym=f=4194592" ∷ codes "-e" ∷ codes "f" ∷ codes "a.o" ∷ []

-- No library and no archive is read.
abbrev one_file : Platform
one_file = record {
  strtoull = decimal;
  strtol = λ s. record { value = pos 0; read = 0 };
  readable = λ path. false;
  read_file = λ path. some file;
  map_ok = true;
  write = λ out. true;
}

abbrev options : Options
options = elim (parse_args decimal (λ path. false) arguments init_options) [
  | exits code ↦ init_options
  | accepted o ↦ o
]

abbrev loaded_file : Context
loaded_file = elim (load_options one_file options) [ none ↦ init_context | some ctx ↦ ctx ]

abbrev resolved_file : Context
resolved_file = elim (gate_option resolve_symbols (gate apply_pre_layout loaded_file)) [
  | none ↦ init_context
  | some ctx ↦ ctx
]

written : Option (ℕ × Option Buffer) → Bool
written none = false
written (some (code, none)) = false
written (some (code, some out)) = true

code_of : Option (ℕ × Option Buffer) → ℕ
code_of none = 1
code_of (some (code, out)) = code

bytes_of : Option (ℕ × Option Buffer) → Buffer
bytes_of (some (code, some out)) = out
bytes_of run = []

written_parts :
    (run : Option (ℕ × Option Buffer))
    → written run ≡ true
    → run ≡ some (code_of run, some (bytes_of run))
unfolding written code_of bytes_of
written_parts none h = cc
written_parts (some (code, none)) h = cc
written_parts (some (code, some out)) h = refl

options_lem : parse_args decimal (λ path. false) arguments init_options ≡ accepted options
unfolding parse_args parse_arg parse_flag parse_output parse_library set_entry_name add_defsym
    add_input_path checked parse_u64 span decimal_from load_options str_eq starts_with
options_lem = refl

loaded_file_lem : load_options one_file options ≡ some loaded_file
unfolding parse_args parse_arg parse_flag parse_output parse_library set_entry_name add_defsym
    add_input_path checked parse_u64 span decimal_from load_options parse has_magic has_class
    table_ok names_ok range_ok headers_from header_at strdup_from_strtab c_string parse_elf_object
    load_sections load_symbols load_relocs classify_section empty_section filled_section symbol_at
    reloc_section_ok symbols_from relocs_from load_symbol_table load_inputs load_input starts_with
    add_object get16 get32 get64 str_eq kind_eq
loaded_file_lem = refl

resolved_file_lem :
    gate_option resolve_symbols (gate apply_pre_layout loaded_file) ≡ some resolved_file
unfolding parse_args parse_arg parse_flag parse_output parse_library set_entry_name add_defsym
    add_input_path checked parse_u64 span decimal_from load_options parse has_magic has_class
    table_ok names_ok range_ok headers_from header_at strdup_from_strtab c_string parse_elf_object
    load_sections load_symbols load_relocs classify_section empty_section filled_section symbol_at
    reloc_section_ok symbols_from relocs_from load_symbol_table load_inputs load_input starts_with
    add_object get16 get32 get64 gate_option gate resolve_symbols select_archive_members select_loop
    select_round select_member archive_member_needed selected_objects_reference
    selected_objects_define strongly_refers defines resolve_objects resolve_object resolve_symbol
    define_global intern_global find_global merge_symbol symbol_has_name is_global_symbol
    is_weak_symbol apply_pre_layout apply_macros str_eq any kind_eq
resolved_file_lem = refl

resolved_file-HasRoom : HasRoom resolved_file
unfolding parse_args parse_arg parse_flag parse_output parse_library set_entry_name add_defsym
    add_input_path checked parse_u64 span decimal_from load_options parse has_magic has_class
    table_ok names_ok range_ok headers_from header_at strdup_from_strtab c_string parse_elf_object
    load_sections load_symbols load_relocs classify_section empty_section filled_section symbol_at
    reloc_section_ok symbols_from relocs_from load_symbol_table load_inputs load_input starts_with
    add_object get16 get32 get64 gate_option gate resolve_symbols select_archive_members select_loop
    select_round select_member archive_member_needed selected_objects_reference
    selected_objects_define strongly_refers defines resolve_objects resolve_object resolve_symbol
    define_global intern_global find_global merge_symbol symbol_has_name is_global_symbol
    is_weak_symbol apply_pre_layout apply_macros str_eq any kind_eq
resolved_file-HasRoom = record {
  aligned = ((omega arith, (omega arith, tt)), tt);
  room = omega arith;
}

run_written : written (run_main one_file arguments) ≡ true
unfolding parse_args parse_arg parse_flag parse_output parse_library set_entry_name add_defsym
    add_input_path checked parse_u64 span decimal_from load_options link_inputs run_main written
    parse has_magic has_class table_ok names_ok range_ok headers_from header_at strdup_from_strtab
    c_string parse_elf_object load_sections load_symbols load_relocs classify_section empty_section
    filled_section symbol_at reloc_section_ok symbols_from relocs_from load_symbol_table load_inputs
    load_input starts_with add_object gate gate_option middle finish link_all resolve_symbol
    resolve_object resolve_objects resolve_symbols defines selected_objects_define strongly_refers
    selected_objects_reference archive_member_needed select_member select_round select_loop
    select_archive_members is_global_symbol is_weak_symbol symbol_has_name find_global intern_global
    update_global merge_symbol define_global refer record_undefined inject_defsym_list
    inject_defsyms define_linker_symbol linker_symbols inject_linker_symbols is_missing
    count_missing report_undefined eval_op resolve_part is_negative resolve_parts assertion_fails
    count_failures apply_post_layout apply_entry apply_base apply_macro apply_macros
    apply_pre_layout inject_macro inject_one inject_macros inject_symbols has_kind place_section
    place_sections place_object place_objects has_ro has_rw header_count header_size text_pass
    ro_start ro_pass data_start data_pass bss_pass layout_sections common_cursor_start
    local_symbol_addr defined_value common_start global_value global_values compute_global_values
    output_size set_entry layout reloc_type reloc_width global_of value_of get_symbol_value
    get_symbol_size store relaxed relax_gotpcrel reloc_fits_section field_value read_implicit_addend
    patch_field addend_of patch_reloc apply_reloc apply_relocs apply_objects apply_relocations
    signed unsigned int64 add_int64 pc_relative checked_u32 checked_u16 checked_u8 checked_i32
    checked_i16 checked_i8 put_ident put_ehdr put_phdr put_gnu_stack put_ro put_rw put_stack
    put_headers is_copied copy_section copy_object copy_sections emit_image emit_output align_up
    get16 get32 get64 put16 put32 put64 fill copy str_eq any kind_eq ◌+ℤ◌ ◌-ℤ◌
run_written = refl

run_main-IsLinked_example :
    (code_of (run_main one_file arguments) ≡ 0)
    × (ctx : Context) × (link_inputs one_file options
        ≡ some (ctx, some (bytes_of (run_main one_file arguments))))
    × IsLinked ctx (bytes_of (run_main one_file arguments))
run_main-IsLinked_example =
    run_main-IsLinked one_file arguments options loaded_file resolved_file
      (code_of (run_main one_file arguments)) (bytes_of (run_main one_file arguments)) options_lem
      loaded_file_lem resolved_file_lem resolved_file-HasRoom
      (written_parts (run_main one_file arguments) run_written)
