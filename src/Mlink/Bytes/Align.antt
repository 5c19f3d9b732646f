-- ===== src/Mlink/Bytes/Align.antt =====
-- `ml_align_up` rounds up to a multiple, unless the sum passes 2 ^ 64.
use one_tool.Common.{
  ℕ, ◌+◌, ◌-◌, ◌*◌, ◌/◌, ◌%◌, ◌^◌, ◌≤◌, ◌<◌, ◌≡◌, arith, leb, Bool-cases, inl, inr,
}
use native.Mathlib.Nat.{mod-eq_of_lt, div-add-mod', mod-lt, mul-mod_left}
use native.Mathlib.Decide.{dec_le}
use one_tool.Mlink.Bytes.{align_up}

-- The quotient that the code computes, with the division's remainder.
record IsRounded (value align r : ℕ) : Type 0 where
  quotient : ℕ
  multiple : r ≡ quotient * align
  above : value ≤ quotient * align
  close : quotient * align < value + align

align_up-IsRounded :
    (value align : ℕ)
    → 0 < align
    → value + align ≤ 2 ^ 64
    → IsRounded value align (align_up value align)
unfolding align_up
align_up-IsRounded value align pos fits = elim (Bool-cases (leb align 1)) [
  | inl one ↦ record {
    quotient = value;
    multiple = ground arith;
    above = ground arith;
    close = ground arith;
  }
  | inr more ↦ record {
    quotient = (value + align - 1) / align;
    multiple = ground (arith, mod-eq_of_lt {n = value + align - 1} {m = 2 ^ 64} (omega arith));
    above = omega (arith, div-add-mod' (value + align - 1) align, mod-lt (value + align - 1) pos);
    close = omega (arith, div-add-mod' (value + align - 1) align);
  }
]

multiple_close : (q k a v : ℕ) → q * a < v + a → v ≤ k * a → q * a ≤ k * a
multiple_close q k a v h e = elim (dec_le q k) [ yes p ↦ grind arith | no p ↦ absurd (grind arith) ]

-- Below 2 ^ 64 the result of `ml_align_up` is the least multiple of a positive alignment that is
-- not below the value: a multiple, at least the value, and at most any multiple `k * align` that
-- is at least the value.
pub align_up_least :
    (value align : ℕ)
    → 0 < align
    → value + align ≤ 2 ^ 64
    → (align_up value align % align ≡ 0)
      × (value ≤ align_up value align)
      × (align_up value align < value + align)
      × ((k : ℕ) → value ≤ k * align → align_up value align ≤ k * align)
unfolding align_up
align_up_least value align pos fits =
    let r = align_up-IsRounded value align pos fits in
    (
      rw r.multiple (mul-mod_left r.quotient align),
      omega (arith, r.multiple, r.above),
      omega (arith, r.multiple, r.close),
      λ k h. rw r.multiple (multiple_close r.quotient k align value r.close h),
    )
