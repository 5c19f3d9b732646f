-- ===== src/Mlink/Reloc/Signed.antt =====
-- tools/dev/mlink/reloc.c: the casts between signed and unsigned words, and the range checks.
use one_tool.Common.{
  ◌⊎◌, ℕ, ◌+◌, ◌-◌, ◌%◌, ◌^◌, ◌<◌, Bool, ◌&&◌, Option, none, some, ltb, if◌then◌else◌, ◌≡◌, refl,
  arith, inl, inr, Bool-cases,
}
use one_tool.Common.Bits.{u64}
use one_tool.Common.Int.{ℤ, pos, negsuc, ◌+ℤ◌, ◌-ℤ◌, leb_ℤ, sub_ℕ, pos_part, neg_part}

-- `(intN_t)n` of an unsigned word below 2 ^ bits.
unfoldable pub signed : (bits : ℕ) → ℕ → ℤ
signed bits n = if ltb n (2 ^ (bits - 1)) then pos n else negsuc (2 ^ bits - 1 - n)

-- `(uintN_t)v`.
unfoldable pub unsigned : (bits : ℕ) → ℤ → ℕ
unsigned bits (pos n) = n % 2 ^ bits
unsigned bits (negsuc n) = 2 ^ bits - 1 - n % 2 ^ bits

-- `min <= v && v <= max`.
abbrev pub between : ℤ → ℤ → ℤ → Bool
between low high v = leb_ℤ low v && leb_ℤ v high

-- A value of an `int64_t`.
unfoldable pub int64 : ℤ → Option ℤ
int64 v = if between (negsuc (2 ^ 63 - 1)) (pos (2 ^ 63 - 1)) v then some v else none

unfoldable pub add_int64 : ℤ → ℤ → Option ℤ
add_int64 a b = int64 (a +ℤ b)

-- `(int64_t)s + addend - (int64_t)p_addr`.
unfoldable pub pc_relative : (s : ℕ) → (addend : ℤ) → (p_addr : ℕ) → Option ℤ
pc_relative s a p = elim (add_int64 (signed 64 s) a) [
  | none ↦ none
  | some v ↦ int64 (v -ℤ signed 64 p)
]

-- The unsigned checks come after a test `v < 0`.
unfoldable pub checked_u32 : ℤ → Option ℕ
checked_u32 v = if between (pos 0) (pos 0xffffffff) v then some (unsigned 32 v) else none

unfoldable pub checked_u16 : ℤ → Option ℕ
checked_u16 v = if between (pos 0) (pos 0xffff) v then some (unsigned 16 v) else none

unfoldable pub checked_u8 : ℤ → Option ℕ
checked_u8 v = if between (pos 0) (pos 0xff) v then some (unsigned 8 v) else none

unfoldable pub checked_i32 : ℤ → Option ℕ
checked_i32 v =
    if between (negsuc 0x7fffffff) (pos 0x7fffffff) v then some (unsigned 32 v) else none

unfoldable pub checked_i16 : ℤ → Option ℕ
checked_i16 v = if between (negsuc 0x7fff) (pos 0x7fff) v then some (unsigned 16 v) else none

unfoldable pub checked_i8 : ℤ → Option ℕ
checked_i8 v = if between (negsuc 0x7f) (pos 0x7f) v then some (unsigned 8 v) else none

-- Adding a signed number is adding its unsigned cast, up to the wrap.
pub unsigned-sub_ℕ : (a b : ℕ) → u64 (unsigned 64 (sub_ℕ a b) + b) ≡ u64 a
unfolding unsigned
unsigned-sub_ℕ a b = ground arith

pub unsigned-parts : (v : ℤ) → u64 (unsigned 64 v + neg_part v) ≡ u64 (pos_part v)
unfolding unsigned
unsigned-parts (pos n) = omega arith
unsigned-parts (negsuc n) = omega arith

pub signed-parts : (s : ℕ) → s < 2 ^ 64 → u64 (s + neg_part (signed 64 s)) ≡ pos_part (signed 64 s)
unfolding signed
signed-parts s h = ground arith

pub int64_same : (v w : ℤ) → int64 v ≡ some w → v ≡ w
unfolding int64
int64_same v w h = ground arith

pub int64_cases : (v : ℤ) → (int64 v ≡ none) ⊎ (int64 v ≡ some v)
unfolding int64
int64_cases v = elim (Bool-cases (between (negsuc (2 ^ 63 - 1)) (pos (2 ^ 63 - 1)) v)) [
  | inl e ↦ inr (rw e refl)
  | inr e ↦ inl (rw e refl)
]

pub pc_relative_cases :
    (s : ℕ) (a : ℤ) (p : ℕ)
    → (pc_relative s a p ≡ none) ⊎ (pc_relative s a p ≡ some (signed 64 s +ℤ a -ℤ signed 64 p))
unfolding pc_relative add_int64
pc_relative_cases s a p = elim (int64_cases (signed 64 s +ℤ a)) [
  | inl e ↦ inl (rw (pc_relative, add_int64, e) refl)
  | inr e ↦ rw (pc_relative, add_int64, e) (int64_cases (signed 64 s +ℤ a -ℤ signed 64 p))
]

exact_sum :
    (s : ℕ) (a : ℤ) (p : ℕ)
    → s < 2 ^ 64
    → p < 2 ^ 64
    → u64 (p + unsigned 64 (signed 64 s +ℤ a -ℤ signed 64 p)) ≡ u64 (s + unsigned 64 a)
unfolding ◌+ℤ◌ ◌-ℤ◌ signed unsigned
exact_sum s (pos k) p hs hp = ground arith
exact_sum s (negsuc k) p hs hp = ground arith

pub pc_relative_lem :
    (s : ℕ) (a : ℤ) (p : ℕ) (v : ℤ)
    → s < 2 ^ 64
    → p < 2 ^ 64
    → pc_relative s a p ≡ some v
    → u64 (p + unsigned 64 v) ≡ u64 (s + unsigned 64 a)
pc_relative_lem s a p v hs hp h = elim (pc_relative_cases s a p) [
  | inl e ↦ ground arith
  | inr e ↦
      let same : signed 64 s +ℤ a -ℤ signed 64 p ≡ v = cc in rw (← same) (exact_sum s a p hs hp)
]

pub signed-checked_i32 : (v : ℤ) (n : ℕ) → checked_i32 v ≡ some n → signed 32 n ≡ v
unfolding checked_i32 signed unsigned
signed-checked_i32 (pos k) n h = ground arith
signed-checked_i32 (negsuc k) n h = ground arith
