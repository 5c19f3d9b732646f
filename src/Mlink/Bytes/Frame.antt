-- ===== src/Mlink/Bytes/Frame.antt =====
-- tools/dev/mlink/bytes.c: the bytes that a write leaves alone.
use one_tool.Common.{
  ℕ, zero, suc, ◌+◌, ◌≤◌, ◌<◌, bit_and, ◌≡◌, refl, ◌∙◌, ◌⊎◌, arith, length, set, length-set,
  get_or-set_self, get_or-set_ne,
}
use one_tool.Common.{[], ◌∷◌}
use one_tool.Mlink.Bytes.{Buffer, get8, get16, get32, get64, put16, put32, put64, fill, copy}
use one_tool.Common.Bits.{◌>>>◌}

-- Same length, and the same bytes outside [low, high).
unfoldable pub KeepsOutside : (low high : ℕ) → Buffer → Buffer → Type 0
KeepsOutside low high image image' =
    (length image' ≡ length image)
    × ((j : ℕ) → (j < low) ⊎ (high ≤ j) → get8 image' j ≡ get8 image j)

module _ (low high : ℕ) (image : Buffer) where
  pub keeps_self : KeepsOutside low high image image
  unfolding KeepsOutside
  keeps_self = (refl, λ j o. refl)

module _ (image : Buffer) (at : ℕ) where
  pub put8_keeps : (v : ℕ) → KeepsOutside at (at + 1) image (set image at v)
  unfolding KeepsOutside
  put8_keeps v = (length-set image at v, λ j o. get_or-set_ne image at j v 0 (omega arith))

pub KeepsOutside-trans :
    (low high : ℕ) (a b c : Buffer)
    → KeepsOutside low high a b
    → KeepsOutside low high b c
    → KeepsOutside low high a c
unfolding KeepsOutside
KeepsOutside-trans low high a b c (l1, k1) (l2, k2) = (l2 ∙ l1, λ j o. k2 j o ∙ k1 j o)

pub KeepsOutside-wider :
    (low high low' high' : ℕ) (a b : Buffer)
    → KeepsOutside low high a b
    → low' ≤ low
    → high ≤ high'
    → KeepsOutside low' high' a b
unfolding KeepsOutside
KeepsOutside-wider low high low' high' a b (l, k) h h' = (l, λ j o. k j (omega arith))

-- Each put is a row of single bytes.
module _ (image : Buffer) (at : ℕ) where
  next_byte :
      (low high p v : ℕ) (mid : Buffer)
      → KeepsOutside low high image mid
      → low ≤ p
      → p < high
      → KeepsOutside low high image (set mid p v)
  next_byte low high p v mid kept h h' =
      KeepsOutside-trans low high image mid (set mid p v) kept (
        KeepsOutside-wider p (p + 1) low high mid (set mid p v) (put8_keeps mid p v) h
          (omega arith))

  pub put16_keeps : (v : ℕ) → KeepsOutside at (at + 2) image (put16 image at v)
  unfolding put16
  put16_keeps v =
      let b0 = set image at (bit_and v 0xff) in
      next_byte at (at + 2) (at + 1) (bit_and (v >>> 8) 0xff) b0
        (next_byte at (at + 2) at (bit_and v 0xff) image (keeps_self at (at + 2) image)
          (omega arith) (omega arith))
        (omega arith) (omega arith)

  pub put32_keeps : (v : ℕ) → KeepsOutside at (at + 4) image (put32 image at v)
  unfolding put32
  put32_keeps v =
      let b0 = set image at (bit_and v 0xff) in
      let b1 = set b0 (at + 1) (bit_and (v >>> 8) 0xff) in
      let b2 = set b1 (at + 2) (bit_and (v >>> 16) 0xff) in
      let k0 =
        next_byte at (at + 4) at (bit_and v 0xff) image (keeps_self at (at + 4) image) (omega arith)
          (omega arith) in
      let k1 =
        next_byte at (at + 4) (at + 1) (bit_and (v >>> 8) 0xff) b0 k0 (omega arith) (omega arith) in
      let k2 =
        next_byte at (at + 4) (at + 2) (bit_and (v >>> 16) 0xff) b1 k1 (omega arith)
          (omega arith) in
      next_byte at (at + 4) (at + 3) (bit_and (v >>> 24) 0xff) b2 k2 (omega arith) (omega arith)

module _ (image : Buffer) (at : ℕ) where
  pub put64_keeps : (v : ℕ) → KeepsOutside at (at + 8) image (put64 image at v)
  unfolding put64
  put64_keeps v =
      let low = put32 image at (bit_and v 0xffffffff) in
      KeepsOutside-trans at (at + 8) image low (put32 low (at + 4) (v >>> 32))
        (KeepsOutside-wider at (at + 4) at (at + 8) image low
          (put32_keeps image at (bit_and v 0xffffffff)) (omega arith) (omega arith))
        (KeepsOutside-wider (at + 4) (at + 4 + 4) at (at + 8) low (put32 low (at + 4) (v >>> 32))
          (put32_keeps low (at + 4) (v >>> 32)) (omega arith) (omega arith))

-- A field is read from its own bytes.
pub get64_same :
    (a b : Buffer) (p : ℕ)
    → ((j : ℕ) → j < 8 → get8 b (p + j) ≡ get8 a (p + j))
    → get64 b p ≡ get64 a p
unfolding get64 get32
get64_same a b p k =
    let k0 : get8 b p ≡ get8 a p = ground (arith, k 0) in
    let k5 : get8 b (p + 4 + 1) ≡ get8 a (p + 4 + 1) = ground (arith, k 5) in
    let k6 : get8 b (p + 4 + 2) ≡ get8 a (p + 4 + 2) = ground (arith, k 6) in
    let k7 : get8 b (p + 4 + 3) ≡ get8 a (p + 4 + 3) = ground (arith, k 7) in
    rw (k0, k 1 (omega arith), k 2 (omega arith), k 3 (omega arith), k 4 (omega arith), k5, k6, k7)
      refl

pub get16_same :
    (a b : Buffer) (p : ℕ)
    → ((j : ℕ) → j < 2 → get8 b (p + j) ≡ get8 a (p + j))
    → get16 b p ≡ get16 a p
unfolding get16
get16_same a b p k =
    let k0 : get8 b p ≡ get8 a p = ground (arith, k 0) in rw (k0, k 1 (omega arith)) refl

-- A field outside the range reads the same.
pub get64_kept :
    (low high : ℕ) (a b : Buffer) (p : ℕ)
    → KeepsOutside low high a b
    → (p + 8 ≤ low) ⊎ (high ≤ p)
    → get64 b p ≡ get64 a p
unfolding KeepsOutside
get64_kept low high a b p (l, k) o = get64_same a b p (λ j h. k (p + j) (omega arith))

pub get16_kept :
    (low high : ℕ) (a b : Buffer) (p : ℕ)
    → KeepsOutside low high a b
    → (p + 2 ≤ low) ⊎ (high ≤ p)
    → get16 b p ≡ get16 a p
unfolding KeepsOutside
get16_kept low high a b p (l, k) o = get16_same a b p (λ j h. k (p + j) (omega arith))

-- `memset` keeps what is outside and sets what is inside.
pub fill_keeps : (n : ℕ) (buf : Buffer) (p v : ℕ) → KeepsOutside p (p + n) buf (fill n buf p v)
unfolding fill KeepsOutside
fill_keeps zero buf p v = (refl, λ j o. refl)
fill_keeps (suc n) buf p v =
    let (l, k) = fill_keeps n (set buf p v) (p + 1) v in
    (l ∙ length-set buf p v, λ j o. k j (omega arith) ∙ get_or-set_ne buf p j v 0 (omega arith))

-- `memcpy` likewise.
pub copy_keeps : (src buf : Buffer) (p : ℕ) → KeepsOutside p (p + length src) buf (copy src buf p)
unfolding copy KeepsOutside
copy_keeps [] buf p = (refl, λ j o. refl)
copy_keeps (b ∷ src) buf p =
    let (l, k) = copy_keeps src (set buf p b) (p + 1) in
    (l ∙ length-set buf p b, λ j o. k j (omega arith) ∙ get_or-set_ne buf p j b 0 (omega arith))

pub get8-copy :
    (src buf : Buffer) (p j : ℕ)
    → p + length src ≤ length buf
    → j < length src
    → get8 (copy src buf p) (p + j) ≡ get8 src j
unfolding copy KeepsOutside
get8-copy [] buf p j h hj = absurd (omega arith)
get8-copy (b ∷ src) buf p zero h hj =
    let (_, k) = copy_keeps src (set buf p b) (p + 1) in
    let at_p : p + 0 ≡ p = omega arith in
    rw at_p (k p (omega arith) ∙ get_or-set_self buf p b 0 (omega arith))
get8-copy (b ∷ src) buf p (suc j) h hj =
    let shifted : p + suc j ≡ p + 1 + j = omega arith in
    rw shifted
      (get8-copy src (set buf p b) (p + 1) j (omega (arith, length-set buf p b)) (omega arith))
