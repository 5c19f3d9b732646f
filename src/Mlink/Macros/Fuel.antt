-- ===== src/Mlink/Macros/Fuel.antt =====
-- tools/dev/mlink/macro.c: the rounds of the loop of `parse_expr`.
use one_tool.Common.{
  ℕ, zero, suc, ◌≤◌, ◌<◌, Bool, true, false, [], ◌∷◌, some, ◌==◌, length, ◌≡◌, ◌≢◌, refl, inl, inr,
  arith, Bool-cases, Option-cases, ◌||◌,
}
use one_tool.Common.Text.{is_empty}
use one_tool.Mlink.Types.{Name, TermPart}
use one_tool.Mlink.Macros.Parse.{
  Number, is_space, skip_spaces, span, next_sign, parse_primary, parse_parts, Parts, out_of_fuel,
  malformed, all_parts, more_parts,
}

skip_spaces-le : (p : Name) → length (skip_spaces p) ≤ length p
unfolding skip_spaces
skip_spaces-le [] = omega arith
skip_spaces-le (c ∷ cs) = ground (arith, skip_spaces-le cs)

span-le : (stop : ℕ → Bool) (p : Name) → length (span stop p).1 ≤ length p
unfolding span
span-le stop [] = omega arith
span-le stop (c ∷ cs) = ground (arith, span-le stop cs)

more-ends : (part : TermPart) (ps : Parts) → ps ≢ out_of_fuel → more_parts part ps ≢ out_of_fuel
more-ends part out_of_fuel h = λ e. h refl
more-ends part malformed h = λ e. cc
more-ends part (all_parts parts) h = λ e. cc

module _ (strtoull : Name → Number) where
  next_sign-lt :
      (p : Name) (sign : Bool × Name) → next_sign strtoull p ≡ some sign → length sign.1 < length p
  unfolding next_sign
  next_sign-lt [] sign h = cc
  next_sign-lt (c ∷ cs) sign h = elim (Bool-cases (c == 43)) [
    | inl e ↦ let same : (false, cs) ≡ sign = ground (arith, e) in rw (← same) (omega arith)
    | inr e ↦ elim (Bool-cases (c == 45)) [
      | inl f ↦ let same : (true, cs) ≡ sign = ground (arith, e, f) in rw (← same) (omega arith)
      | inr f ↦ ground (arith, e, f)
    ]
  ]

  -- With more fuel than the text has characters the loop of `parse_expr` ends, in an error or with
  -- the parts.
  pub parse_parts-ends :
      (n : ℕ) (negative : Bool) (p : Name)
      → length p < n
      → parse_parts strtoull n negative p ≢ out_of_fuel
  unfolding parse_parts
  parse_parts-ends zero negative p h = absurd (omega arith)
  parse_parts-ends (suc n) negative p h =
      let stop : ℕ → Bool = λ c. is_space c || c == 43 || c == 45 in
      let piece = span stop (skip_spaces p) in
      let after = skip_spaces piece.1 in
      let short : length after ≤ length p =
        omega (arith, skip_spaces-le p, span-le stop (skip_spaces p), skip_spaces-le piece.1) in
      elim (Bool-cases (is_empty piece.0)) [
        | inl a ↦ rw (parse_parts, a) (λ e. cc)
        | inr a ↦ elim (Option-cases (parse_primary strtoull negative piece.0)) [
          | inl b ↦ rw (parse_parts, a, b) (λ e. cc)
          | inr (part, b) ↦ elim (Bool-cases (is_empty after)) [
            | inl c ↦ rw (parse_parts, a, b, c) (λ e. cc)
            | inr c ↦ elim (Option-cases (next_sign strtoull after)) [
              | inl e ↦ rw (parse_parts, a, b, c, e) (λ e. cc)
              | inr (sign, e) ↦
                  let shorter = next_sign-lt after sign e in
                  rw (parse_parts, a, b, c, e)
                    (more-ends part (parse_parts strtoull n sign.0 sign.1)
                      (parse_parts-ends n sign.0 sign.1 (omega arith)))
            ]
          ]
        ]
      ]
