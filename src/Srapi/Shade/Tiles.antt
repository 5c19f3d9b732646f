-- ===== src/Srapi/Shade/Tiles.antt =====
-- libs/srapi/src/vm/exec_simd.c: the tiles of a clip rectangle.
use one_tool.Common.{
  ℕ, ◌+◌, ◌-◌, ◌*◌, ◌/◌, ◌^◌, ◌≤◌, ◌<◌, ltb, if◌then◌else◌, ◌≡◌, ◌↔◌, sym, refl, arith,
}
use native.Mathlib.Nat.{le-div_iff_mul-le, div-eq_of_lt-le, div-mul-le_self, lt-div-mul-add}
use one_tool.Common.Bits.{u32}
use one_tool.Srapi.Shade.{ShadeJob, tile_range, rows_per_tile, tile_count}

abbrev pub Covers : ShadeJob → ℕ → ℕ → Type 0
Covers job tile row = ((tile_range job tile).0 ≤ row) × (row < (tile_range job tile).1)

module _ (job : ShadeJob) (tall : 0 < job.clip_height)
    (fits : job.clip_y + job.clip_height + 32 < 2 ^ 32)
    (rows : job.tile_rows ≡ rows_per_tile job.clip_height) where
  rows_bounds : (0 < job.tile_rows) × (job.tile_rows ≤ 32)
  unfolding rows_per_tile
  rows_bounds = ground arith

  -- Before the last tile there are rows of the clip left.
  count_lem : (t : ℕ) → (t < tile_count job.clip_height) ↔ (t * job.tile_rows < job.clip_height)
  unfolding tile_count
  count_lem t =
      let bounds = rows_bounds in
      let whole : u32 (job.clip_height + job.tile_rows - 1) ≡ job.clip_height + job.tile_rows - 1 =
        omega arith in
      let split =
        le-div_iff_mul-le {k = job.tile_rows} {x = t + 1} {y = job.clip_height + job.tile_rows - 1}
          (omega arith) in
      rw (← rows, whole)
        (
          λ h. (let few = split.0 (omega arith) in grind arith),
          λ h. (let few = split.1 (grind arith) in omega arith),
        )

  range_lem :
      (t : ℕ)
      → t < tile_count job.clip_height
      → ((tile_range job t).0 ≡ job.clip_y + t * job.tile_rows)
        × ((tile_range job t).1 ≡ (
            if ltb (job.clip_y + job.clip_height) (job.clip_y + t * job.tile_rows + job.tile_rows)
            then job.clip_y + job.clip_height
            else job.clip_y + t * job.tile_rows + job.tile_rows))
  unfolding tile_range
  range_lem t h =
      let below = (count_lem t).0 h in
      let bounds = rows_bounds in
      let inner : u32 (t * job.tile_rows) ≡ t * job.tile_rows = omega arith in
      let begin : u32 (job.clip_y + t * job.tile_rows) ≡ job.clip_y + t * job.tile_rows =
        omega arith in
      let stop : u32 (job.clip_y + t * job.tile_rows + job.tile_rows)
          ≡ job.clip_y + t * job.tile_rows + job.tile_rows =
        omega arith in
      let clip : u32 (job.clip_y + job.clip_height) ≡ job.clip_y + job.clip_height = omega arith in
      rw (inner, begin, stop, clip) (refl, refl)

  tile_of :
      (row t : ℕ)
      → t < tile_count job.clip_height
      → Covers job t row
      → (job.clip_y ≤ row)
        × (row < job.clip_y + job.clip_height)
        × ((row - job.clip_y) / job.tile_rows ≡ t)
  tile_of row t h c =
      let range = range_lem t h in
      let lo : t * job.tile_rows ≤ row - job.clip_y = ground arith in
      let hi : row - job.clip_y < (t + 1) * job.tile_rows = grind arith in
      (ground arith, ground arith, div-eq_of_lt-le job.tile_rows lo hi)

  -- If the clip rectangle is not empty and its rows end 32 below 2^32, the tiles that
  -- `srapi_vm_shade_rect` hands to the pool share out its rows: a row of the rectangle lies in
  -- exactly one of the tiles, and a row outside it in none.
  pub tiles-Covers :
      (row : ℕ)
      → (job.clip_y ≤ row
          → row < job.clip_y + job.clip_height
          → (t : ℕ) × (t < tile_count job.clip_height)
            × Covers job t row
            × ((s : ℕ) → s < tile_count job.clip_height → Covers job s row → s ≡ t))
        × ((t : ℕ)
            → t < tile_count job.clip_height
            → Covers job t row
            → (job.clip_y ≤ row) × (row < job.clip_y + job.clip_height))
  tiles-Covers row = (
    λ above below.
        let t = (row - job.clip_y) / job.tile_rows in
        let bounds = rows_bounds in
        let lo = div-mul-le_self (row - job.clip_y) job.tile_rows in
        let hi = lt-div-mul-add {a = row - job.clip_y} {b = job.tile_rows} bounds.0 in
        let known : t < tile_count job.clip_height = (count_lem t).1 (omega arith) in
        let range = range_lem t known in
        (t, known, (ground arith, ground arith), λ s h c. sym ((tile_of row s h c).2)),
    λ t h c. (let r = tile_of row t h c in (r.0, r.1)),
  )
