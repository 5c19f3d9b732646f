-- ===== src/Mlink/Macros/Parse.antt =====
-- tools/dev/mlink/macro.c and `ml_parse_u64` of bytes.c: the directives' text. A pointer into a
-- string is the rest of the string. `strtoull` of the C library is a parameter.
use one_tool.Common.{
  ℕ, zero, suc, ◌+◌, Bool, true, false, not, ◌&&◌, ◌||◌, List, [], ◌∷◌, ◌++◌, Option, none, some,
  leb, ◌==◌, if◌then◌else◌, length,
}
use one_tool.Common.Bits.{u64}
use one_tool.Common.Text.{str_eq, is_empty, codes}
use one_tool.Mlink.Bytes.{Buffer}
use one_tool.Mlink.Types.{
  Macro, MacroKind, provide, define, entry, base, stack_exec, keep, assertion, AssertOp, op_lt,
  op_le, op_gt, op_ge, op_eq, op_ne, TermPart, symbol_part, value_part, Context, Name,
}

-- What `strtoull(s, &end, 0)` reports: the value, how many bytes it read, and `errno != 0`.
pub record Number : Type 0 where
  pub value : ℕ
  pub read : ℕ
  pub failed : Bool

abbrev pub is_space : ℕ → Bool
is_space c = c == 32 || c == 9

unfoldable pub skip_spaces : Name → Name
skip_spaces [] = []
skip_spaces (c ∷ cs) = if is_space c then skip_spaces cs else c ∷ cs

-- The characters up to the first that stops the scan, and the rest.
unfoldable pub span : (ℕ → Bool) → Name → Name × Name
span stop [] = ([], [])
span stop (c ∷ cs) = let (w, rest) = span stop cs in if stop c then ([], c ∷ cs) else (c ∷ w, rest)

-- Spaces at the end are cut off.
unfoldable pub trim_end : Name → Name
trim_end [] = []
trim_end (c ∷ cs) = let rest = trim_end cs in if is_empty rest && is_space c then [] else c ∷ rest

unfoldable pub take_word : Name → Option (Name × Name)
take_word p =
    let (w, rest) = span (λ c. is_space c || c == 44 || c == 61) (skip_spaces p) in
    if is_empty w then none else some (w, rest)

abbrev pub is_operator : ℕ → Bool
is_operator c = c == 60 || c == 62 || c == 61 || c == 33

unfoldable pub take_term : Name → Option (Name × Name)
take_term p =
    let (w, rest) = span (λ c. c == 44 || is_operator c) (skip_spaces p) in
    if is_empty (trim_end w) then none else some (trim_end w, rest)

unfoldable pub op_at : Name → Option (Name × Name)
op_at [] = none
op_at (c ∷ []) = if is_operator c then some (c ∷ [], []) else none
op_at (c ∷ d ∷ cs) =
    if is_operator c then if d == 61 then some (c ∷ d ∷ [], cs) else some (c ∷ [], d ∷ cs) else none

abbrev pub take_op : Name → Option (Name × Name)
take_op p = op_at (skip_spaces p)

unfoldable pub parse_op : Name → Option AssertOp
parse_op s =
    if str_eq s (codes "<")
    then some op_lt
    else if str_eq s (codes "<=")
    then some op_le
    else if str_eq s (codes ">")
    then some op_gt
    else if str_eq s (codes ">=")
    then some op_ge
    else if str_eq s (codes "==")
    then some op_eq
    else if str_eq s (codes "!=")
    then some op_ne
    else none

-- The lines of a section: the pieces between zero bytes and line ends.
unfoldable pub pieces : Buffer → Name × List Name
pieces [] = ([], [])
pieces (b ∷ bs) = let (w, ws) = pieces bs in if b == 0 || b == 10 then ([], w ∷ ws) else (b ∷ w, ws)

unfoldable pub parts_of : Name → Option (Name × Name)
parts_of [] = none
parts_of (c ∷ cs) =
    if c == 61
    then some ([], cs)
    else elim (parts_of cs) [ none ↦ none | some r ↦ some (c ∷ r.0, r.1) ]

-- A line's result: 0 with no macro, 0 with one, or 1 with one error reported.
pub data Line : Type 0 where
  no_macro : Line
  found : Macro → Line
  bad : Line

abbrev pub macro_of : MacroKind → Name → (value : ℕ) → Macro
macro_of kind name value = record {
  kind = kind;
  name = name;
  value = value;
  lhs = [];
  rhs = [];
  op = op_lt;
}

-- How the loop of `parse_expr` ends: not at all, with the fuel there was; with an error; or with the
-- parts of the expression.
pub data Parts : Type 0 where
  out_of_fuel : Parts
  malformed : Parts
  all_parts : List TermPart → Parts

abbrev pub more_parts : TermPart → Parts → Parts
more_parts part out_of_fuel = out_of_fuel
more_parts part malformed = malformed
more_parts part (all_parts parts) = all_parts (part ∷ parts)

abbrev pub parts_read : Parts → Option (List TermPart)
parts_read out_of_fuel = none
parts_read malformed = none
parts_read (all_parts parts) = some parts

module _ (strtoull : Name → Number) where
  unfoldable pub parse_u64 : Name → Option ℕ
  parse_u64 s =
      let n = strtoull s in
      if n.failed || n.read == 0 || not (n.read == length s) then none else some (u64 n.value)

  unfoldable pub parse_primary : (negative : Bool) → Name → Option TermPart
  parse_primary negative [] = some (symbol_part negative [])
  parse_primary negative (c ∷ cs) =
      if leb 48 c && leb c 57
      then elim (parse_u64 (c ∷ cs)) [ none ↦ none | some v ↦ some (value_part negative v) ]
      else some (symbol_part negative (c ∷ cs))

  -- The sign that follows a part, and what comes after it; `none` if it is another character.
  unfoldable pub next_sign : Name → Option (Bool × Name)
  next_sign [] = none
  next_sign (c ∷ cs) =
      if c == 43 then some (false, cs) else if c == 45 then some (true, cs) else none

  -- The loop of `parse_expr`; each round uses up a unit of fuel.
  unfoldable pub parse_parts : (fuel : ℕ) → (negative : Bool) → Name → Parts
  parse_parts zero negative p = out_of_fuel
  parse_parts (suc fuel) negative p =
      let (tok, rest) = span (λ c. is_space c || c == 43 || c == 45) (skip_spaces p) in
      let after = skip_spaces rest in
      if is_empty tok then malformed else elim (parse_primary negative tok) [
        | none ↦ malformed
        | some part ↦ if is_empty after then all_parts (part ∷ []) else elim (next_sign after) [
          | none ↦ malformed
          | some sign ↦ more_parts part (parse_parts fuel sign.0 sign.1)
        ]
      ]

  unfoldable pub parse_expr : Name → Option (List TermPart)
  parse_expr raw =
      let p = skip_spaces raw in
      if is_empty p then none else elim (next_sign p) [
        | none ↦ parts_read (parse_parts (suc (length p)) false p)
        | some sign ↦ parts_read (parse_parts (suc (length p)) sign.0 sign.1)
      ]

  unfoldable pub parse_name_eq_value : MacroKind → Name → Line
  parse_name_eq_value kind line = elim (parts_of line) [
    | none ↦ bad
    | some sides ↦
        if is_empty (trim_end sides.0) then bad else elim (parse_u64 (skip_spaces sides.1)) [
          | none ↦ bad
          | some v ↦ found (macro_of kind (trim_end sides.0) v)
        ]
  ]

  unfoldable pub parse_sides : (lhs op rhs : Name) → Line
  parse_sides lhs op rhs = elim (parse_op op) [
    | none ↦ bad
    | some o ↦ elim (parse_expr lhs) [
      | none ↦ bad
      | some l ↦ elim (parse_expr rhs) [
        | none ↦ bad
        | some r ↦ found (record (macro_of assertion [] 0) { lhs = l; rhs = r; op = o })
      ]
    ]
  ]

  -- The part before the first comma is the condition.
  unfoldable pub parse_assert : Name → Line
  parse_assert args =
      let expr = (span (λ c. c == 44) args).0 in
      elim (take_term expr) [
        | none ↦ bad
        | some l ↦ elim (take_op l.1) [
          | none ↦ bad
          | some o ↦
              if is_empty (skip_spaces o.1) then bad else parse_sides l.0 o.0 (skip_spaces o.1)
        ]
      ]

  unfoldable pub parse_keyword : Name → (rest : Name) → Line
  parse_keyword kw rest =
      if str_eq kw (codes "PROVIDE")
      then parse_name_eq_value provide rest
      else if str_eq kw (codes "DEFINE")
      then parse_name_eq_value define rest
      else if str_eq kw (codes "ENTRY")
      then if is_empty rest then bad else found (macro_of entry rest 0)
      else if str_eq kw (codes "BASE")
      then elim (parse_u64 rest) [ none ↦ bad | some v ↦ found (macro_of base [] v) ]
      else if str_eq kw (codes "STACK_EXEC")
      then found (macro_of stack_exec [] 0)
      else if str_eq kw (codes "KEEP")
      then if is_empty rest then bad else found (macro_of keep rest 0)
      else if str_eq kw (codes "ASSERT")
      then parse_assert rest
      else bad

  unfoldable pub starts_comment : Name → Bool
  starts_comment [] = true
  starts_comment (c ∷ cs) = c == 35

  unfoldable pub parse_macro_line : Name → Line
  parse_macro_line line =
      let p = skip_spaces line in
      if starts_comment p
      then no_macro
      else elim (take_word p) [ none ↦ no_macro | some w ↦ parse_keyword w.0 (skip_spaces w.1) ]

  -- The lines in order: the context, and `saw_error`.
  unfoldable pub add_lines : List Name → Context → Context × Bool
  add_lines [] ctx = (ctx, false)
  add_lines (line ∷ lines) ctx =
      if is_empty line then add_lines lines ctx else elim (parse_macro_line line) [
        | no_macro ↦ add_lines lines ctx
        | found m ↦ add_lines lines (record ctx { macros = ctx.macros ++ m ∷ [] })
        | bad ↦ ((add_lines lines (record ctx { error_count = ctx.error_count + 1 })).0, true)
      ]

  unfoldable pub add_from_object : Context → Buffer → Context × Bool
  add_from_object ctx bytes = let (w, ws) = pieces bytes in add_lines (w ∷ ws) ctx
