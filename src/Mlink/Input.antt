-- ===== src/Mlink/Input.antt =====
-- tools/dev/mlink/object.c: reading inputs, which are objects or archives of them. What `strtol`
-- and `strtoull` read and what `ml_read_file` finds are parameters. Sums of sizes do not wrap: a
-- file's size and a `long` are below 2 ^ 63.
pub mod Archive
pub mod Loads
use one_tool.Common.{
  ℕ, zero, suc, ◌+◌, ◌%◌, Bool, true, false, not, ◌&&◌, ◌||◌, List, [], ◌∷◌, ◌++◌, Option, none,
  some, ltb, leb, ◌==◌, if◌then◌else◌, length, take, drop,
}
use one_tool.Common.Int.{ℤ, pos, negsuc}
use one_tool.Common.Text.{codes}
use one_tool.Mlink.Bytes.{Buffer, get8}
use one_tool.Mlink.Types.{Name, Object, Context, report}
use one_tool.Mlink.Macros.Parse.{Number}
use one_tool.Mlink.Reader.{slice, parse_elf_object}

-- What `strtol(s, &end, 10)` returns, and how many characters it read.
pub record Long : Type 0 where
  pub value : ℤ
  pub read : ℕ

-- `size >= strlen(magic) && memcmp(data, magic, strlen(magic)) == 0`.
unfoldable pub starts_with : (magic data_bytes : Buffer) → Bool
starts_with [] bytes = true
starts_with (m ∷ ms) [] = false
starts_with (m ∷ ms) (b ∷ bs) = m == b && starts_with ms bs

-- The C string in a copy that ends with a zero.
unfoldable pub until_zero : Buffer → Name
until_zero [] = []
until_zero (b ∷ bs) = if b == 0 then [] else b ∷ until_zero bs

-- `ARMAG` of <ar.h> and `ELFMAG` of <elf.h>.
abbrev pub armag : Buffer
armag = 33 ∷ 60 ∷ 97 ∷ 114 ∷ 99 ∷ 104 ∷ 62 ∷ 10 ∷ []

abbrev pub elfmag : Buffer
elfmag = 0x7f ∷ 0x45 ∷ 0x4c ∷ 0x46 ∷ []

unfoldable pub add_object : Context → Object → Context
add_object ctx obj = record ctx { objects = ctx.objects ++ obj ∷ [] }

-- `none` is the result -1. The callers' fields are shorter than the function's buffer.
unfoldable pub parse_ar_decimal : (strtol : Name → Long) → (field : Buffer) → Option ℕ
parse_ar_decimal strtol field =
    let v = strtol (until_zero field) in
    if v.read == 0 then none else elim v.value [ pos n ↦ some n | negsuc n ↦ none ]

-- The text without the spaces at its end.
unfoldable pub trim_spaces : Buffer → Buffer
trim_spaces [] = []
trim_spaces (b ∷ bs) = elim (trim_spaces bs) [
  | [] ↦ if b == 32 then [] else b ∷ []
  | c ∷ cs ↦ b ∷ c ∷ cs
]

-- The text without one `/` at its end.
unfoldable pub trim_slash : Buffer → Buffer
trim_slash [] = []
trim_slash (b ∷ []) = if b == 47 then [] else b ∷ []
trim_slash (b ∷ c ∷ bs) = b ∷ trim_slash (c ∷ bs)

unfoldable pub trim_ar_name : (raw : Buffer) → Name
trim_ar_name raw = until_zero (trim_slash (trim_spaces raw))

unfoldable pub until_end : Buffer → Buffer
until_end [] = []
until_end (b ∷ bs) = if b == 10 || b == 47 then [] else b ∷ until_end bs

-- `off` is `none` for -1.
unfoldable pub gnu_long_name : (strtab : Buffer) → (off : Option ℕ) → Name
gnu_long_name strtab off = elim off [
  | none ↦ codes "<bad-long-name>"
  | some at ↦
      if leb (length strtab) at
      then codes "<bad-long-name>"
      else until_zero (until_end (drop at strtab))
]

-- The name of a member, and how many bytes of its body the name takes; `none` is the error.
unfoldable pub member_name : (strtol : Name → Long) → (hdr body strtab : Buffer) → Option (Name × ℕ)
member_name strtol hdr body strtab =
    if starts_with (codes "#1/") hdr
    then elim (parse_ar_decimal strtol (slice hdr 3 13)) [
      | none ↦ none
      | some len ↦ if ltb (length body) len then none else some (until_zero (take len body), len)
    ]
    else if get8 hdr 0 == 47 && leb 48 (get8 hdr 1) && leb (get8 hdr 1) 57
    then some (gnu_long_name strtab (parse_ar_decimal strtol (slice hdr 1 15)), 0)
    else some (trim_ar_name (take 16 hdr), 0)

-- `snprintf(full_name, sizeof(full_name), "%s(%s)", path, member_name)`.
unfoldable pub full_name : (path member : Name) → Name
full_name path member = take 1023 (path ++ (40 ∷ (member ++ 41 ∷ [])))

module _ (strtoull : Name → Number) (strtol : Name → Long) where
  -- The contents of a member; the second part is true for `return 1`.
  unfoldable pub load_contents :
      (path member : Name) → (contents : Buffer) → Context → Context × Bool
  load_contents path member contents ctx =
      if starts_with elfmag contents
      then (let r = parse_elf_object strtoull ctx (full_name path member) contents false true in
          elim r.1 [ none ↦ (r.0, true) | some obj ↦ (add_object r.0 obj, false) ])
      else (ctx, false)

  -- A member with its header; the string table that later members use comes along.
  unfoldable pub load_member :
      (path : Name) → (hdr body strtab : Buffer) → Context → Context × Option Buffer
  load_member path hdr body strtab ctx =
      if starts_with (codes "//") hdr
      then (ctx, some body)
      else if get8 hdr 0 == 47 && get8 hdr 1 == 32 || starts_with (codes "/SYM64/") hdr
      then (ctx, some strtab)
      else elim (member_name strtol hdr body strtab) [
        | none ↦ (report ctx, none)
        | some named ↦
            let r = load_contents path named.0 (drop named.1 body) ctx in
            (r.0, if r.1 then none else some strtab)
      ]

  -- One round of the loop at `off`: the next offset and the string table, or `return 1`.
  unfoldable pub archive_round :
      (path : Name)
      → (archive : Buffer) → (off : ℕ) → (strtab : Buffer) → Context
      → Context × Option (ℕ × Buffer)
  archive_round path archive off strtab ctx =
      let hdr = drop off archive in
      if not (get8 hdr 58 == 96) || not (get8 hdr 59 == 10)
      then (report ctx, none)
      else elim (parse_ar_decimal strtol (slice hdr 48 10)) [
        | none ↦ (report ctx, none)
        | some size ↦
            if ltb (length archive) (off + 60 + size)
            then (report ctx, none)
            else (let r = load_member path hdr (slice hdr 60 size) strtab ctx in
                let end = off + 60 + size in
                (
                  r.0,
                  elim r.1 [
                    | none ↦ none
                    | some table ↦ some (if end % 2 == 1 then end + 1 else end, table)
                  ],
                ))
      ]

  -- `none` means that the fuel ran out.
  unfoldable pub archive_loop :
      ℕ
      → (path : Name) → (archive : Buffer) → (off : ℕ) → (strtab : Buffer) → Context
      → Option Context
  archive_loop zero path archive off strtab ctx = none
  archive_loop (suc fuel) path archive off strtab ctx =
      let r = archive_round path archive off strtab ctx in
      if leb (off + 60) (length archive)
      then elim r.1 [
        | none ↦ some r.0
        | some (next, table) ↦ archive_loop fuel path archive next table r.0
      ]
      else some ctx

  unfoldable pub load_archive : (path : Name) → (archive : Buffer) → Context → Option Context
  load_archive path archive ctx = archive_loop (length archive + 1) path archive 8 [] ctx

  -- `ml_load_input`; its result is not used by `main`.
  unfoldable pub load_input :
      (read_file : Name → Option Buffer) → (path : Name) → Context → Option Context
  load_input read_file path ctx = elim (read_file path) [
    | none ↦ some (report ctx)
    | some bytes ↦
        if starts_with armag bytes
        then load_archive path bytes ctx
        else if starts_with elfmag bytes
        then (let r = parse_elf_object strtoull ctx path bytes true false in
            some (elim r.1 [ none ↦ r.0 | some obj ↦ add_object r.0 obj ]))
        else some (report ctx)
  ]

  -- The loop of `main` over the inputs.
  unfoldable pub load_inputs :
      (read_file : Name → Option Buffer) → (paths : List Name) → Context → Option Context
  load_inputs read_file [] ctx = some ctx
  load_inputs read_file (path ∷ paths) ctx = elim (load_input read_file path ctx) [
    | none ↦ none
    | some ctx' ↦ load_inputs read_file paths ctx'
  ]
