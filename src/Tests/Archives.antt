-- ===== src/Tests/Archives.antt =====
-- Runs of the archive reader (object.c): an object file and a text of odd length.
use one_tool.Common.{◌≡◌, ◌++◌, List, [], ◌∷◌, some, refl, All}
use one_tool.Common.Int.{pos}
use one_tool.Common.Text.{codes}
use one_tool.Mlink.Bytes.{Buffer}
use one_tool.Mlink.Types.{Name, Context}
use one_tool.Mlink.Args.{init_context}
use one_tool.Mlink.Input.{Long, armag, parse_ar_decimal, until_zero, load_archive, load_inputs}
use one_tool.Mlink.Input.Archive.{Member, IsFramed, encode, load_members, load_archive-encode}
use one_tool.Mlink.Input.Loads.{Grows, load_inputs-Grows}
use one_tool.Tests.{decimal, decimal_from}
use one_tool.Tests.Files.{file}

-- `strtol` on decimal digits.
abbrev decimal_long : Name → Long
decimal_long s = record { value = pos (decimal s).value; read = (decimal s).read }

abbrev member_of : (name size : Name) → Buffer → Member
member_of name size body = record {
  header = name ++ (codes "0           0     0     644     " ++ (size ++ 96 ∷ 10 ∷ []));
  body = body;
}

abbrev members : List Member
members =
    member_of (codes "a.o/            ") (codes "192       ") file
    ∷ member_of (codes "notes/          ") (codes "5         ") (codes "hello")
    ∷ []

members-IsFramed : All (IsFramed decimal_long) members
unfolding parse_ar_decimal until_zero decimal_from
members-IsFramed = (
  record { size = refl; grave = refl; newline = refl; reads = refl },
  (record { size = refl; grave = refl; newline = refl; reads = refl }, tt),
)

load_archive-encode_example :
    load_archive decimal decimal_long (codes "lib.a") (armag ++ encode members) init_context
    ≡ some (load_members decimal decimal_long (codes "lib.a") [] members init_context)
load_archive-encode_example =
    load_archive-encode decimal decimal_long (codes "lib.a") members init_context members-IsFramed

load_inputs-Grows_example :
    (ctx : Context) × (load_inputs decimal decimal_long
        (λ path. some (armag ++ encode members))
        (codes "lib.a" ∷ [])
        init_context
      ≡ some ctx)
    × Grows init_context ctx
load_inputs-Grows_example =
    load_inputs-Grows decimal decimal_long (λ path. some (armag ++ encode members))
      (codes "lib.a" ∷ []) init_context
