-- ===== src/Mlink/Bytes/Short.antt =====
-- tools/dev/mlink/bytes.c: the laws of the 16-bit fields.
use one_tool.Common.{
  ℕ, ◌+◌, ◌/◌, ◌%◌, ◌^◌, ◌≤◌, ◌<◌, bit_and, ◌≡◌, ◌==◌, get_or-set, arith, length, set, length-set,
  if◌then◌else◌,
}
use one_tool.Common.Bits.{◌>>>◌}
use one_tool.Mlink.Bytes.{Buffer, get8, get16, put16}
use one_tool.Mlink.Bytes.Laws.{and_ff, get16_as_sum}

pub length-put16 : (buf : Buffer) (p v : ℕ) → length (put16 buf p v) ≡ length buf
unfolding put16
length-put16 buf p v = simp length-set

pub get8-put16 :
    (buf : Buffer) (p v j : ℕ)
    → p + 2 ≤ length buf
    → get8 (put16 buf p v) j
      ≡ (if p + 1 == j then v / 2 ^ 8 % 256 else if p == j then v % 256 else get8 buf j)
unfolding put16
get8-put16 buf p v j h = ground (
  arith,
  and_ff v,
  and_ff (v >>> 8),
  length-set buf p (bit_and v 0xff),
  get_or-set buf p j (bit_and v 0xff) 0,
  get_or-set (set buf p (bit_and v 0xff)) (p + 1) j (bit_and (v >>> 8) 0xff) 0,
)

-- A 16-bit value written inside a buffer is the value read back.
pub get16-put16 :
    (buf : Buffer) (p v : ℕ) → p + 2 ≤ length buf → v < 2 ^ 16 → get16 (put16 buf p v) p ≡ v
get16-put16 buf p v h hv =
    ground (arith, get16_as_sum (put16 buf p v) p, get8-put16 buf p v p, get8-put16 buf p v (p + 1))
