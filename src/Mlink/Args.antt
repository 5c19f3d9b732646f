-- ===== src/Mlink/Args.antt =====
-- tools/dev/mlink/cli.c and object.c: the command line. The texts printed are left out; `readable`
-- is `access(path, R_OK) == 0`.
pub mod Base
use one_tool.Common.{
  ℕ, ◌%◌, Bool, true, false, not, ◌&&◌, List, [], ◌∷◌, ◌++◌, Option, none, some, ◌==◌,
  if◌then◌else◌, take, drop, ◌||◌,
}
use one_tool.Common.Text.{codes, str_eq, is_empty}
use one_tool.Mlink.Types.{Name, Defsym, Context}
use one_tool.Mlink.Macros.Parse.{Number, parse_u64, span}
use one_tool.Mlink.Input.{starts_with}

-- The context, and what of it only the command line and the output use.
pub record Options : Type 0 where
  pub ctx : Context
  pub inputs : List Name
  pub lib_paths : List Name
  pub output_path : Name
  pub map_path : Option Name
  pub verbose : Bool
  pub print_map : Bool
  pub print_symbols : Bool

-- `ml_context_init`.
abbrev pub init_context : Context
init_context = record {
  entry_name = codes "_start";
  base_addr = 0x400000;
  dry_run = false;
  no_gnu_stack = false;
  stack_exec = false;
  entry_from_cli = false;
  base_from_cli = false;
  defsyms = [];
  objects = [];
  globals = [];
  macros = [];
  error_count = 0;
  phnum = 0;
  has_rodata_segment = false;
  has_rw_segment = false;
  rx_filesz = 0;
  ro_offset = 0;
  ro_filesz = 0;
  data_offset = 0;
  data_filesz = 0;
  data_memsz = 0;
  final_file_size = 0;
  entry_addr = 0;
}

abbrev pub init_options : Options
init_options = record {
  ctx = init_context;
  inputs = [];
  lib_paths = [];
  output_path = codes "a.out";
  map_path = none;
  verbose = false;
  print_map = false;
  print_symbols = false;
}

-- What an argument leads to: `return code`, the next argument, the one after its value, or, after
-- `--`, only inputs.
pub data ArgStep : Type 0 where
  stop : (code : ℕ) → ArgStep
  next : Options → ArgStep
  skip : Options → ArgStep
  only_inputs : Options → ArgStep

unfoldable pub add_input_path : Name → Options → Options
add_input_path path o = record o { inputs = o.inputs ++ path ∷ [] }

unfoldable pub add_lib_path : Name → Options → Options
add_lib_path path o = record o { lib_paths = o.lib_paths ++ path ∷ [] }

-- `snprintf` into a buffer of PATH_MAX characters.
unfoldable pub lib_file : (dir name : Name) → Name
lib_file dir [] = take 4095 (dir ++ codes "/lib" ++ codes ".a")
lib_file dir (c ∷ name) =
    if c == 58
    then take 4095 (dir ++ (47 ∷ name))
    else take 4095 (dir ++ (codes "/lib" ++ (c ∷ name ++ codes ".a")))

-- The loop of `ml_add_lib_name` over the library paths; `none` is the error.
unfoldable pub find_lib :
    (readable : Name → Bool) → (dirs : List Name) → (name : Name) → Option Name
find_lib readable [] name = none
find_lib readable (dir ∷ dirs) name =
    if readable (lib_file dir name) then some (lib_file dir name) else find_lib readable dirs name

unfoldable pub add_lib_name : (readable : Name → Bool) → Name → Options → Option Options
add_lib_name readable name o = elim (find_lib readable o.lib_paths name) [
  | none ↦ none
  | some path ↦ some (add_input_path path o)
]

-- The step after an operation that may fail.
abbrev pub or_stop : (Options → ArgStep) → Option Options → ArgStep
or_stop f r = elim r [ none ↦ stop 1 | some o ↦ f o ]

-- The value behind an option, `stop 1` if there is none.
abbrev pub with_value : Option Name → (Name → ArgStep) → ArgStep
with_value value f = elim value [ none ↦ stop 1 | some v ↦ f v ]

unfoldable pub set_entry_name : Name → Options → Options
set_entry_name name o = record o { ctx = record o.ctx { entry_name = name; entry_from_cli = true } }

-- The options in force, or the code that `parse_args` returns.
pub data Parsed : Type 0 where
  exits : (code : ℕ) → Parsed
  accepted : Options → Parsed

-- The test behind the loop.
unfoldable pub checked : Options → Parsed
checked o = elim o.inputs [ [] ↦ exits 1 | i ∷ is ↦ accepted o ]

unfoldable pub add_inputs : List Name → Options → Options
add_inputs [] o = o
add_inputs (path ∷ paths) o = add_inputs paths (add_input_path path o)

module _ (strtoull : Name → Number) where
  unfoldable pub add_defsym : (spec : Name) → Options → Option Options
  add_defsym spec o =
      let sides = span (λ c. c == 61) spec in
      if is_empty sides.1 || is_empty sides.0
      then none
      else elim (parse_u64 strtoull (drop 1 sides.1)) [
        | none ↦ none
        | some v ↦ some (record o {
          ctx = record o.ctx {
            defsyms = o.ctx.defsyms ++ record { name = sides.0; value = v } ∷ [];
          };
        })
      ]

  -- `none` for no number, and for a base that is not on a page.
  unfoldable pub set_base : Name → Options → Option Options
  set_base text o = elim (parse_u64 strtoull text) [
    | none ↦ none
    | some v ↦
        if v % 0x1000 == 0
        then some (record o { ctx = record o.ctx { base_addr = v; base_from_cli = true } })
        else none
  ]

  -- The options without a value.
  unfoldable pub parse_flag : (arg : Name) → Options → Option ArgStep
  parse_flag arg o =
      if str_eq arg (codes "--")
      then some (only_inputs o)
      else if str_eq arg (codes "-h") || str_eq arg (codes "--help")
      then some (stop 2)
      else if str_eq arg (codes "-v") || str_eq arg (codes "--verbose")
      then some (next (record o { verbose = true }))
      else if str_eq arg (codes "--dry-run")
      then some (next (record o { ctx = record o.ctx { dry_run = true } }))
      else if str_eq arg (codes "--no-gnu-stack")
      then some (next (record o { ctx = record o.ctx { no_gnu_stack = true } }))
      else if str_eq arg (codes "--print-map")
      then some (next (record o { print_map = true }))
      else if str_eq arg (codes "--print-symbols")
      then some (next (record o { print_symbols = true }))
      else none

  -- The output, the entry symbol and the base.
  unfoldable pub parse_output : (arg : Name) → (value : Option Name) → Options → Option ArgStep
  parse_output arg value o =
      if str_eq arg (codes "-o")
      then some (with_value value (λ v. skip (record o { output_path = v })))
      else if starts_with (codes "-o=") arg
      then some (next (record o { output_path = drop 3 arg }))
      else if starts_with (codes "--output=") arg
      then some (next (record o { output_path = drop 9 arg }))
      else if str_eq arg (codes "-e")
      then some (with_value value (λ v. skip (set_entry_name v o)))
      else if starts_with (codes "-e=") arg
      then some (next (set_entry_name (drop 3 arg) o))
      else if starts_with (codes "--entry=") arg
      then some (next (set_entry_name (drop 8 arg) o))
      else if str_eq arg (codes "--base")
      then some (with_value value (λ v. or_stop skip (set_base v o)))
      else if starts_with (codes "--base=") arg
      then some (or_stop next (set_base (drop 7 arg) o))
      else none

  -- The map, the libraries and the symbols.
  unfoldable pub parse_library :
      (readable : Name → Bool) → (arg : Name) → (value : Option Name) → Options → Option ArgStep
  parse_library readable arg value o =
      if str_eq arg (codes "-Map")
      then some (with_value value (λ v. skip (record o { map_path = some v })))
      else if starts_with (codes "-Map=") arg
      then some (next (record o { map_path = some (drop 5 arg) }))
      else if str_eq arg (codes "-L")
      then some (with_value value (λ v. skip (add_lib_path v o)))
      else if starts_with (codes "-L") arg && not (is_empty (drop 2 arg))
      then some (next (add_lib_path (drop 2 arg) o))
      else if str_eq arg (codes "-l")
      then some (with_value value (λ v. or_stop skip (add_lib_name readable v o)))
      else if starts_with (codes "-l") arg && not (is_empty (drop 2 arg))
      then some (or_stop next (add_lib_name readable (drop 2 arg) o))
      else if str_eq arg (codes "--defsym")
      then some (with_value value (λ v. or_stop skip (add_defsym v o)))
      else if starts_with (codes "--defsym=") arg
      then some (or_stop next (add_defsym (drop 9 arg) o))
      else none

  -- One round of the loop of `parse_args`; `value` is the argument behind `arg`.
  unfoldable pub parse_arg :
      (readable : Name → Bool) → (arg : Name) → (value : Option Name) → Options → ArgStep
  parse_arg readable arg value o = elim (parse_flag arg o) [
    | some step ↦ step
    | none ↦ elim (parse_output arg value o) [
      | some step ↦ step
      | none ↦ elim (parse_library readable arg value o) [
        | some step ↦ step
        | none ↦ if starts_with (codes "-") arg then stop 1 else next (add_input_path arg o)
      ]
    ]
  ]

  unfoldable pub parse_args : (readable : Name → Bool) → (args : List Name) → Options → Parsed
  parse_args readable [] o = checked o
  parse_args readable (arg ∷ []) o = elim (parse_arg readable arg none o) [
    | stop code ↦ exits code
    | next o' ↦ checked o'
    | skip o' ↦ checked o'
    | only_inputs o' ↦ checked o'
  ]
  parse_args readable (arg ∷ value ∷ args) o = elim (parse_arg readable arg (some value) o) [
    | stop code ↦ exits code
    | next o' ↦ parse_args readable (value ∷ args) o'
    | skip o' ↦ parse_args readable args o'
    | only_inputs o' ↦ checked (add_inputs (value ∷ args) o')
  ]
