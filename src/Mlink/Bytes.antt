-- ===== src/Mlink/Bytes.antt =====
-- tools/dev/mlink/bytes.c: alignment and little-endian fields of a byte buffer. A buffer is the
-- list of its bytes; a pointer into it is an index. Reads past the end give 0 and writes there do
-- nothing: each caller's own bounds check is part of its model.
pub mod Laws
pub mod Short
pub mod Frame
pub mod Rows
pub mod Align
use one_tool.Common.{
  ℕ, zero, suc, [], ◌∷◌, ◌+◌, ◌-◌, ◌*◌, ◌/◌, ◌<◌, List, bit_and, bit_or, leb, if◌then◌else◌, get_or,
  set, length,
}
use one_tool.Common.Bits.{◌>>>◌, ◌<<<◌, u64}

abbrev pub Buffer : Type 0
Buffer = List ℕ

abbrev pub get8 : Buffer → ℕ → ℕ
get8 buf p = get_or buf p 0

unfoldable pub align_up : ℕ → ℕ → ℕ
align_up value align = if leb align 1 then value else u64 (value + align - 1) / align * align

unfoldable pub get16 : Buffer → ℕ → ℕ
get16 buf p = bit_or (get8 buf p) (get8 buf (p + 1) <<< 8)

unfoldable pub get32 : Buffer → ℕ → ℕ
get32 buf p =
    bit_or (bit_or (bit_or (get8 buf p) (get8 buf (p + 1) <<< 8)) (get8 buf (p + 2) <<< 16))
      (get8 buf (p + 3) <<< 24)

unfoldable pub get64 : Buffer → ℕ → ℕ
get64 buf p = bit_or (get32 buf p) (get32 buf (p + 4) <<< 32)

unfoldable pub put16 : Buffer → ℕ → ℕ → Buffer
put16 buf p v = set (set buf p (bit_and v 0xff)) (p + 1) (bit_and (v >>> 8) 0xff)

unfoldable pub put32 : Buffer → ℕ → ℕ → Buffer
put32 buf p v =
    let b0 = set buf p (bit_and v 0xff) in
    let b1 = set b0 (p + 1) (bit_and (v >>> 8) 0xff) in
    let b2 = set b1 (p + 2) (bit_and (v >>> 16) 0xff) in set b2 (p + 3) (bit_and (v >>> 24) 0xff)

unfoldable pub put64 : Buffer → ℕ → ℕ → Buffer
put64 buf p v = put32 (put32 buf p (bit_and v 0xffffffff)) (p + 4) (v >>> 32)

-- `memset(buf + p, v, n)`.
unfoldable pub fill : (n : ℕ) → Buffer → (p v : ℕ) → Buffer
fill zero buf p v = buf
fill (suc n) buf p v = fill n (set buf p v) (p + 1) v

-- `memcpy(buf + p, src, n)` of a whole `src`.
unfoldable pub copy : (src buf : Buffer) → (p : ℕ) → Buffer
copy [] buf p = buf
copy (b ∷ src) buf p = copy src (set buf p b) (p + 1)
