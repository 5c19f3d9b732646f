-- ===== src/Mlink/Main.antt =====
-- tools/dev/mlink/cli.c: `main`. The command line is parsed, the inputs are loaded, then linked.
pub mod Whole
use one_tool.Common.{ℕ, Bool, List, Option, none, some, ◌==◌, if◌then◌else◌}
use one_tool.Mlink.Bytes.{Buffer}
use one_tool.Mlink.Types.{Name, Context}
use one_tool.Mlink.Macros.Parse.{Number}
use one_tool.Mlink.Args.{Options, init_options, Parsed, exits, accepted, parse_args}
use one_tool.Mlink.Input.{Long, load_inputs}
use one_tool.Mlink.Link.{link_all, exit_code}

-- What the run needs of the C library and of the file system.
pub record Platform : Type 0 where
  pub strtoull : Name → Number
  pub strtol : Name → Long
  pub readable : Name → Bool
  pub read_file : Name → Option Buffer
  pub map_ok : Bool
  pub write : Buffer → Bool

unfoldable pub load_options : Platform → Options → Option Context
load_options sys o = load_inputs sys.strtoull sys.strtol sys.read_file o.inputs o.ctx

unfoldable pub link_inputs : Platform → Options → Option (Context × Option Buffer)
link_inputs sys o = elim (load_options sys o) [
  | none ↦ none
  | some loaded ↦ link_all sys.map_ok sys.write loaded
]

-- The exit code and the file written; `none` is a run with no defined result. Code 2 of
-- `parse_args` is a request for help.
unfoldable pub run_main : Platform → (args : List Name) → Option (ℕ × Option Buffer)
run_main sys args = elim (parse_args sys.strtoull sys.readable args init_options) [
  | exits code ↦ some (if code == 2 then 0 else 1, none)
  | accepted o ↦ elim (link_inputs sys o) [
    | none ↦ none
    | some (ctx, out) ↦ some (exit_code ctx, out)
  ]
]
