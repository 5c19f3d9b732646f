-- ===== src/Mlink/Bytes/Rows.antt =====
-- tools/dev/mlink/bytes.c: rows of writes inside one range.
use one_tool.Common.{ℕ, ◌+◌, ◌≤◌, set}
use one_tool.Mlink.Bytes.{Buffer, put16, put32, put64}
use one_tool.Mlink.Bytes.Frame.{
  KeepsOutside, KeepsOutside-trans, KeepsOutside-wider, put8_keeps, put16_keeps, put32_keeps,
  put64_keeps,
}

module _ (low high : ℕ) (out : Buffer) where
  pub step8 :
      (mid : Buffer) (at v : ℕ)
      → KeepsOutside low high out mid
      → low ≤ at
      → at + 1 ≤ high
      → KeepsOutside low high out (set mid at v)
  step8 mid at v kept h h' =
      KeepsOutside-trans low high out mid (set mid at v) kept
        (KeepsOutside-wider at (at + 1) low high mid (set mid at v) (put8_keeps mid at v) h h')

  pub step16 :
      (mid : Buffer) (at v : ℕ)
      → KeepsOutside low high out mid
      → low ≤ at
      → at + 2 ≤ high
      → KeepsOutside low high out (put16 mid at v)
  step16 mid at v kept h h' =
      KeepsOutside-trans low high out mid (put16 mid at v) kept
        (KeepsOutside-wider at (at + 2) low high mid (put16 mid at v) (put16_keeps mid at v) h h')

  pub step32 :
      (mid : Buffer) (at v : ℕ)
      → KeepsOutside low high out mid
      → low ≤ at
      → at + 4 ≤ high
      → KeepsOutside low high out (put32 mid at v)
  step32 mid at v kept h h' =
      KeepsOutside-trans low high out mid (put32 mid at v) kept
        (KeepsOutside-wider at (at + 4) low high mid (put32 mid at v) (put32_keeps mid at v) h h')

  pub step64 :
      (mid : Buffer) (at v : ℕ)
      → KeepsOutside low high out mid
      → low ≤ at
      → at + 8 ≤ high
      → KeepsOutside low high out (put64 mid at v)
  step64 mid at v kept h h' =
      KeepsOutside-trans low high out mid (put64 mid at v) kept
        (KeepsOutside-wider at (at + 8) low high mid (put64 mid at v) (put64_keeps mid at v) h h')
