-- ===== src/Srapi/Shade.antt =====
-- libs/srapi/src/vm/exec_simd.c: shading a rectangle, pixel by pixel or in tiles of rows. The
-- pixels are a function from the byte offset of a pixel's word to the word.
pub mod Tiles
pub mod Scalar
use one_tool.Common.{
  ℕ, zero, suc, ◌+◌, ◌-◌, ◌*◌, ◌/◌, ◌^◌, Bool, true, false, List, [], ◌∷◌, ltb, leb, ◌==◌, ◌||◌,
  if◌then◌else◌, length,
}
use one_tool.Common.Int.{ℤ, pos, negsuc}
use one_tool.Common.Bits.{u32}
use one_tool.Srapi.Types.{SrapiResult, ok}
use one_tool.Srapi.Exec.{FloatOps, Shader, srapi_vm_run_fragment}

pub record ShadeJob : Type 0 where
  pub pitch_bytes : ℕ
  pub rect_x0 : ℤ
  pub rect_y0 : ℤ
  pub rect_width : ℕ
  pub rect_height : ℕ
  pub clip_x : ℕ
  pub clip_y : ℕ
  pub clip_width : ℕ
  pub clip_height : ℕ
  pub tile_rows : ℕ

abbrev pub Pixels : Type 0
Pixels = ℕ → ℕ

-- `row[px]` with `row` at `py * pitch_bytes`.
abbrev pub pixel_at : ShadeJob → ℕ → ℕ → ℕ
pixel_at job px py = py * job.pitch_bytes + 4 * px

abbrev pub write_pixel : Pixels → ℕ → ℕ → Pixels
write_pixel pixels at color k = if k == at then color else pixels k

-- `(int32_t)n` of a `uint32_t`.
unfoldable pub int32 : ℕ → ℤ
int32 n = if ltb n (2 ^ 31) then pos n else negsuc (2 ^ 32 - 1 - n)

-- `shade_tile_fn`: the rows of a tile, from the first to behind the last; none if the second
-- number is not above the first.
unfoldable pub tile_range : ShadeJob → ℕ → ℕ × ℕ
tile_range job tile_index =
    let row_begin = u32 (job.clip_y + u32 (tile_index * job.tile_rows)) in
    let row_end = u32 (row_begin + job.tile_rows) in
    let clip_end = u32 (job.clip_y + job.clip_height) in
    (row_begin, if ltb clip_end row_end then clip_end else row_end)

-- `srapi_vm_shade_rect`: the rows of a tile and the number of tiles for a clip height.
unfoldable pub rows_per_tile : ℕ → ℕ
rows_per_tile height = if ltb height 32 then height else 32

unfoldable pub tile_count : ℕ → ℕ
unfolding rows_per_tile
tile_count height = u32 (height + rows_per_tile height - 1) / rows_per_tile height

-- A loop `for (i = start; i < u32(start + size); i++)` makes this many rounds.
abbrev pub rounds : ℕ → ℕ → ℕ
rounds start size = u32 (start + size) - start

module _ {F : Type 0} (f : FloatOps F) where
  unfoldable pub inverse : ℕ → F
  inverse size = if ltb 1 size then f.fdiv f.one (f.of_int (pos (size - 1))) else f.zero

  -- The six inputs of `shade_scalar` for a pixel.
  unfoldable pub scalar_inputs : ShadeJob → ℕ → ℕ → List F
  unfolding inverse int32
  scalar_inputs job px py =
      f.of_int (pos px)
      ∷ f.of_int (pos py)
      ∷ f.fmul (f.fsub (f.of_int (int32 px)) (f.of_int job.rect_x0)) (inverse job.rect_width)
      ∷ f.fmul (f.fsub (f.of_int (int32 py)) (f.of_int job.rect_y0)) (inverse job.rect_height)
      ∷ f.of_int (pos job.rect_width)
      ∷ f.of_int (pos job.rect_height)
      ∷ []

  -- The inner loop of `shade_scalar`, for the pixels left in a row.
  unfoldable pub shade_row :
      ShadeJob → ℕ → ℕ → ℕ → Pixels → Shader F → SrapiResult × Pixels × Shader F
  unfolding scalar_inputs srapi_vm_run_fragment
  shade_row job py zero px pixels sh = (ok, pixels, sh)
  shade_row job py (suc n) px pixels sh =
      let r = srapi_vm_run_fragment f sh (scalar_inputs job px py) in
      elim r.0.0 [
        | ok ↦ shade_row job py n (px + 1) (write_pixel pixels (pixel_at job px py) r.0.1) r.1
        | e ↦ (e, pixels, r.1)
      ]

  -- The outer loop, for the rows left.
  unfoldable pub shade_rows :
      ShadeJob → ℕ → ℕ → ℕ → Pixels → Shader F → SrapiResult × Pixels × Shader F
  unfolding shade_row
  shade_rows job columns zero py pixels sh = (ok, pixels, sh)
  shade_rows job columns (suc n) py pixels sh =
      let r = shade_row job py columns job.clip_x pixels sh in
      elim r.0 [ ok ↦ shade_rows job columns n (py + 1) r.1 r.2 | e ↦ (e, r.1, r.2) ]

  unfoldable pub shade_scalar : ShadeJob → Pixels → Shader F → SrapiResult × Pixels × Shader F
  unfolding shade_rows
  shade_scalar job pixels sh =
      shade_rows job (rounds job.clip_x job.clip_width) (rounds job.clip_y job.clip_height)
        job.clip_y pixels sh
