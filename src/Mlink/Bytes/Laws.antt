-- ===== src/Mlink/Bytes/Laws.antt =====
-- Fields of a buffer read back as written, and writes touch their own bytes only.
use one_tool.Common.{
  ℕ, ◌+◌, ◌*◌, ◌/◌, ◌%◌, ◌^◌, ◌≤◌, ◌<◌, bit_and, ◌≡◌, ◌==◌, get_or-set, refl, ◌∙◌, ◌⊎◌, inl, arith,
  length, set, length-set, get_or_ext, if◌then◌else◌,
}
use one_tool.Common.Bits.{◌>>>◌, bit_or_shifted, bit_and_mask}
use one_tool.Mlink.Bytes.{Buffer, get8, get16, get32, get64, put32, put64}

-- Every element is a byte.
abbrev pub IsBytes : Buffer → Type 0
IsBytes buf = (i : ℕ) → get8 buf i < 256

pub and_ff : (v : ℕ) → bit_and v 0xff ≡ v % 256
and_ff v = bit_and_mask 8 v

pub and_ffffffff : (v : ℕ) → bit_and v 0xffffffff ≡ v % 2 ^ 32
and_ffffffff v = bit_and_mask 32 v

-- The bytes of a field, lowest first.
abbrev pub word16 : Buffer → ℕ → ℕ
word16 buf p = get8 buf p + get8 buf (p + 1) * 2 ^ 8

abbrev pub word32 : Buffer → ℕ → ℕ
word32 buf p = word16 buf p + get8 buf (p + 2) * 2 ^ 16 + get8 buf (p + 3) * 2 ^ 24

pub get16_as_sum : (buf : Buffer) (p : ℕ) → get8 buf p < 256 → get16 buf p ≡ word16 buf p
unfolding get16
get16_as_sum buf p h = bit_or_shifted 8 (get8 buf p) (get8 buf (p + 1)) h

pub get32_as_sum :
    (buf : Buffer) (p : ℕ)
    → get8 buf p < 256
    → get8 buf (p + 1) < 256
    → get8 buf (p + 2) < 256
    → get32 buf p ≡ word32 buf p
unfolding get32
get32_as_sum buf p h0 h1 h2 =
    rw
      (
        bit_or_shifted 8 (get8 buf p) (get8 buf (p + 1)) h0,
        bit_or_shifted 16 (word16 buf p) (get8 buf (p + 2)) (omega arith),
        bit_or_shifted 24 (word16 buf p + get8 buf (p + 2) * 2 ^ 16) (get8 buf (p + 3))
            (omega arith),
      )
      refl

-- The same, of a buffer of bytes.
get32_of_bytes : (buf : Buffer) (p : ℕ) → IsBytes buf → get32 buf p ≡ word32 buf p
get32_of_bytes buf p b = get32_as_sum buf p (b p) (b (p + 1)) (b (p + 2))

pub length-put32 : (buf : Buffer) (p v : ℕ) → length (put32 buf p v) ≡ length buf
unfolding put32
length-put32 buf p v = simp length-set

-- The bytes that `put32` leaves behind, at every index.
pub get8-put32 :
    (buf : Buffer) (p v j : ℕ)
    → p + 4 ≤ length buf
    → get8 (put32 buf p v) j ≡ (
        if p + 3 == j
        then v / 2 ^ 24 % 256
        else if p + 2 == j
        then v / 2 ^ 16 % 256
        else if p + 1 == j
        then v / 2 ^ 8 % 256
        else if p == j
        then v % 256
        else get8 buf j)
unfolding put32
get8-put32 buf p v j h =
    let b0 = set buf p (bit_and v 0xff) in
    let b1 = set b0 (p + 1) (bit_and (v >>> 8) 0xff) in
    let b2 = set b1 (p + 2) (bit_and (v >>> 16) 0xff) in
    ground (
      arith,
      and_ff v,
      and_ff (v >>> 8),
      and_ff (v >>> 16),
      and_ff (v >>> 24),
      length-set buf p (bit_and v 0xff),
      length-set b0 (p + 1) (bit_and (v >>> 8) 0xff),
      length-set b1 (p + 2) (bit_and (v >>> 16) 0xff),
      get_or-set buf p j (bit_and v 0xff) 0,
      get_or-set b0 (p + 1) j (bit_and (v >>> 8) 0xff) 0,
      get_or-set b1 (p + 2) j (bit_and (v >>> 16) 0xff) 0,
      get_or-set b2 (p + 3) j (bit_and (v >>> 24) 0xff) 0,
    )

-- The four bytes of a field, read back.
pub word32-put32 :
    (buf : Buffer) (p v : ℕ) → p + 4 ≤ length buf → v < 2 ^ 32 → word32 (put32 buf p v) p ≡ v
word32-put32 buf p v h hv = ground (
  arith,
  get8-put32 buf p v p,
  get8-put32 buf p v (p + 1),
  get8-put32 buf p v (p + 2),
  get8-put32 buf p v (p + 3),
)

pub put32-IsBytes :
    (buf : Buffer) (p v : ℕ) → p + 4 ≤ length buf → IsBytes buf → IsBytes (put32 buf p v)
put32-IsBytes buf p v h b j = ground (arith, get8-put32 buf p v j, b j)

pub get8-put32_outside :
    (buf : Buffer) (p v j : ℕ)
    → p + 4 ≤ length buf
    → (j < p) ⊎ (p + 4 ≤ j)
    → get8 (put32 buf p v) j ≡ get8 buf j
get8-put32_outside buf p v j h o = ground (arith, get8-put32 buf p v j)

-- A field just written reads as the sum of its bytes.
pub get32_of_put32 :
    (buf : Buffer) (p v : ℕ)
    → p + 4 ≤ length buf
    → get32 (put32 buf p v) p ≡ word32 (put32 buf p v) p
get32_of_put32 buf p v h =
    get32_as_sum (put32 buf p v) p (ground (arith, get8-put32 buf p v p h))
      (ground (arith, get8-put32 buf p v (p + 1) h)) (ground (arith, get8-put32 buf p v (p + 2) h))

-- A 32-bit value written inside a buffer is the value read back.
pub get32-put32 :
    (buf : Buffer) (p v : ℕ) → p + 4 ≤ length buf → v < 2 ^ 32 → get32 (put32 buf p v) p ≡ v
get32-put32 buf p v h hv = get32_of_put32 buf p v h ∙ word32-put32 buf p v h hv

pub length-put64 : (buf : Buffer) (p v : ℕ) → length (put64 buf p v) ≡ length buf
unfolding put64
length-put64 buf p v = simp length-put32

module _ (buf : Buffer) (p v : ℕ) (fits : p + 8 ≤ length buf) where
  abbrev low_half : Buffer
  low_half = put32 buf p (bit_and v 0xffffffff)

  low_fits : p + 4 + 4 ≤ length low_half
  low_fits = omega (arith, length-put32 buf p (bit_and v 0xffffffff))

  pub get8-put64_outside : (j : ℕ) → (j < p) ⊎ (p + 8 ≤ j) → get8 (put64 buf p v) j ≡ get8 buf j
  unfolding put64
  get8-put64_outside j o = ground (
    arith,
    low_fits,
    get8-put32_outside low_half (p + 4) (v >>> 32) j,
    get8-put32_outside buf p (bit_and v 0xffffffff) j,
  )

  same_low : (j : ℕ) → j < p + 4 → get8 (put64 buf p v) j ≡ get8 low_half j
  unfolding put64
  same_low j h = get8-put32_outside low_half (p + 4) (v >>> 32) j low_fits (inl h)

  low_word : get32 (put64 buf p v) p ≡ v % 2 ^ 32
  unfolding get32
  low_word =
      rw
        (
          same_low p (omega arith),
          same_low (p + 1) (omega arith),
          same_low (p + 2) (omega arith),
          same_low (p + 3) (omega arith),
        )
        (unfold get32 in
          get32-put32 buf p (bit_and v 0xffffffff) (omega arith) (omega (arith, and_ffffffff v))
          ∙ and_ffffffff v)

  high_word : v < 2 ^ 64 → get32 (put64 buf p v) (p + 4) ≡ v / 2 ^ 32
  unfolding put64
  high_word hv = get32-put32 low_half (p + 4) (v >>> 32) low_fits (omega arith)

  -- A 64-bit value written inside a buffer is the value read back.
  pub get64-put64 : v < 2 ^ 64 → get64 (put64 buf p v) p ≡ v
  unfolding get64
  get64-put64 hv =
      ground (arith, low_word, high_word hv, bit_or_shifted 32 (v % 2 ^ 32) (v / 2 ^ 32))

-- Writing back the 32 bits that stand in a buffer changes nothing.
pub put32-get32 :
    (buf : Buffer) (p : ℕ) → IsBytes buf → p + 4 ≤ length buf → put32 buf p (get32 buf p) ≡ buf
put32-get32 buf p b h =
    get_or_ext 0 (put32 buf p (get32 buf p)) buf (length-put32 buf p (get32 buf p)) λ j. ground (
      arith,
      get8-put32 buf p (get32 buf p) j h,
      get32_of_bytes buf p b,
      b p,
      b (p + 1),
      b (p + 2),
      b (p + 3),
    )

pub get32-lt : (buf : Buffer) (p : ℕ) → IsBytes buf → get32 buf p < 2 ^ 32
get32-lt buf p b = ground (arith, get32_of_bytes buf p b, b p, b (p + 1), b (p + 2), b (p + 3))

-- Writing back the 64 bits that stand in a buffer changes nothing.
pub put64-get64 :
    (buf : Buffer) (p : ℕ) → IsBytes buf → p + 8 ≤ length buf → put64 buf p (get64 buf p) ≡ buf
unfolding put64 get64
put64-get64 buf p b h =
    rw
      (
        bit_or_shifted 32 (get32 buf p) (get32 buf (p + 4)) (get32-lt buf p b),
        and_ffffffff (get32 buf p + get32 buf (p + 4) * 2 ^ 32),
        low,
        high,
        put32-get32 buf p b (omega arith),
      )
      (put32-get32 buf (p + 4) b (omega arith))
  where
    low : (get32 buf p + get32 buf (p + 4) * 2 ^ 32) % 2 ^ 32 ≡ get32 buf p
    low = omega (arith, get32-lt buf p b)

    high : (get32 buf p + get32 buf (p + 4) * 2 ^ 32) / 2 ^ 32 ≡ get32 buf (p + 4)
    high = omega (arith, get32-lt buf p b)
