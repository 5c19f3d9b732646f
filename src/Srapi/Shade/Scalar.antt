-- ===== src/Srapi/Shade/Scalar.antt =====
-- libs/srapi/src/vm/exec_simd.c: which pixels `shade_scalar` writes.
use one_tool.Common.{
  ℕ, [], zero, suc, ◌+◌, ◌*◌, ◌^◌, ◌≤◌, ◌<◌, true, false, ◌==◌, ◌≡◌, ◌≢◌, refl, sym, ◌∙◌, arith,
}
use one_tool.Srapi.Types.{SrapiResult, ok}
use one_tool.Srapi.Exec.{FloatOps, Shader, srapi_vm_run_fragment}
use one_tool.Srapi.Exec.Status.{places_vertex, run-status}
use one_tool.Srapi.Shade.{
  ShadeJob, Pixels, pixel_at, write_pixel, scalar_inputs, shade_row, shade_rows, shade_scalar,
  rounds,
}

module _ {F : Type 0} (f : FloatOps F) (job : ShadeJob) where
  -- The colour that the shader computes for a pixel.
  abbrev pub shown : Shader F → ℕ → ℕ → ℕ
  shown sh px py = (srapi_vm_run_fragment f sh (scalar_inputs f job px py)).0.1

  abbrev rerun : Shader F → ℕ → Shader F
  rerun sh n = record sh { run_count = n }

  shown-rerun : (sh : Shader F) (n px py : ℕ) → shown (rerun sh n) px py ≡ shown sh px py
  unfolding srapi_vm_run_fragment
  shown-rerun sh n px py = refl

  write_pixel_ne :
      (pixels : Pixels) (at k color : ℕ) → k ≢ at → write_pixel pixels at color k ≡ pixels k
  write_pixel_ne pixels at k color h = ground arith

  row_inside :
      (py n px : ℕ) (pixels : Pixels) (color : ℕ) (shows : ℕ → ℕ) (after : Pixels)
      → shows px ≡ color
      → ((k : ℕ) → k < n → after (pixel_at job (px + 1 + k) py) ≡ shows (px + 1 + k))
      → ((at : ℕ)
          → ((k : ℕ) → k < n → at ≢ pixel_at job (px + 1 + k) py)
          → after at ≡ write_pixel pixels (pixel_at job px py) color at)
      → (k : ℕ) → k < suc n
      → after (pixel_at job (px + k) py) ≡ shows (px + k)
  row_inside py n px pixels color shows after first inside outside zero c =
      let e : px + 0 ≡ px = omega arith in
      rw e (
        outside (pixel_at job px py) (λ k d same. omega arith)
        ∙ ((let hit : (pixel_at job px py == pixel_at job px py) ≡ true = ground arith in rw hit)
            ∙ sym first))
  row_inside py n px pixels color shows after first inside outside (suc k) c =
      let e : px + suc k ≡ px + 1 + k = omega arith in rw e (inside k (omega arith))

  -- What a row of `n` pixels from `px` on leaves.
  abbrev RowDone : ℕ → ℕ → ℕ → Pixels → Shader F → SrapiResult × Pixels × Shader F → Type 0
  RowDone py n px pixels sh r =
      (r.0 ≡ ok)
      × ((m : ℕ) × (r.2 ≡ rerun sh m))
      × ((k : ℕ) → k < n → r.1 (pixel_at job (px + k) py) ≡ shown sh (px + k) py)
      × ((at : ℕ) → ((k : ℕ) → k < n → at ≢ pixel_at job (px + k) py) → r.1 at ≡ pixels at)

  shade_row-RowDone :
      (py n px : ℕ) (pixels : Pixels) (sh : Shader F)
      → places_vertex sh.program ≡ false
      → RowDone py n px pixels sh (shade_row f job py n px pixels sh)
  unfolding shade_row
  shade_row-RowDone py zero px pixels sh h =
      (refl, (sh.run_count, refl), λ k c. absurd (omega arith), λ at out. refl)
  shade_row-RowDone py (suc n) px pixels sh h =
      let status : (srapi_vm_run_fragment f sh (scalar_inputs f job px py)).0.0 ≡ ok =
        (run-status f sh [] (scalar_inputs f job px py)).1 ∙ rw h in
      let painted = write_pixel pixels (pixel_at job px py) (shown sh px py) in
      let after = (srapi_vm_run_fragment f sh (scalar_inputs f job px py)).1 in
      let (good, (m, kept), inside, outside) = shade_row-RowDone py n (px + 1) painted after h in
      rw (shade_row, status)
        (
          good,
          (m, kept),
          row_inside py n px pixels (shown sh px py) (λ k. shown sh k py) _ refl inside outside,
          λ at out.
              outside at (λ k c.
                (let e : px + 1 + k ≡ px + suc k = omega arith in rw e (out (suc k) (omega arith))))
              ∙ write_pixel_ne pixels _ at (shown sh px py)
                  (let e : px ≡ px + 0 = omega arith in rw e (out 0 (omega arith))),
        )

  -- Pixels of different rows lie at different offsets if the columns fit into the pitch.
  apart : (x y i j : ℕ) → 4 * x < job.pitch_bytes → pixel_at job x y ≢ pixel_at job i (y + 1 + j)
  apart x y i j h same =
      let spread : (y + 1 + j) * job.pitch_bytes
          ≡ y * job.pitch_bytes + job.pitch_bytes + j * job.pitch_bytes =
        grind arith in
      omega arith

  abbrev RowsDone : ℕ → ℕ → ℕ → Pixels → Shader F → SrapiResult × Pixels × Shader F → Type 0
  RowsDone columns n py pixels sh r =
      (r.0 ≡ ok)
      × ((j k : ℕ)
          → j < n
          → k < columns
          → r.1 (pixel_at job (job.clip_x + k) (py + j)) ≡ shown sh (job.clip_x + k) (py + j))
      × ((at : ℕ)
          → ((j k : ℕ) → j < n → k < columns → at ≢ pixel_at job (job.clip_x + k) (py + j))
          → r.1 at ≡ pixels at)

  rows_inside :
      (columns n py : ℕ) (row after : Pixels) (shows : ℕ → ℕ → ℕ)
      → 4 * (job.clip_x + columns) ≤ job.pitch_bytes
      → ((k : ℕ) → k < columns → row (pixel_at job (job.clip_x + k) py) ≡ shows (job.clip_x + k) py)
      → ((j k : ℕ)
          → j < n
          → k < columns
          → after (pixel_at job (job.clip_x + k) (py + 1 + j))
            ≡ shows (job.clip_x + k) (py + 1 + j))
      → ((at : ℕ)
          → ((j k : ℕ) → j < n → k < columns → at ≢ pixel_at job (job.clip_x + k) (py + 1 + j))
          → after at ≡ row at)
      → (j k : ℕ) → j < suc n
      → k < columns
      → after (pixel_at job (job.clip_x + k) (py + j)) ≡ shows (job.clip_x + k) (py + j)
  rows_inside columns n py row after shows wide now inside outside zero k c d =
      let e : py + 0 ≡ py = omega arith in
      rw e (
        outside _ (λ i l p q. apart (job.clip_x + k) py (job.clip_x + l) i (omega arith)) ∙ now k d)
  rows_inside columns n py row after shows wide now inside outside (suc j) k c d =
      let e : py + suc j ≡ py + 1 + j = omega arith in rw e (inside j k (omega arith) d)

  shade_rows-RowsDone :
      (columns n py : ℕ) (pixels : Pixels) (sh : Shader F)
      → 4 * (job.clip_x + columns) ≤ job.pitch_bytes
      → places_vertex sh.program ≡ false
      → RowsDone columns n py pixels sh (shade_rows f job columns n py pixels sh)
  unfolding shade_rows
  shade_rows-RowsDone columns zero py pixels sh wide h =
      (refl, λ j k c d. absurd (omega arith), λ at out. refl)
  shade_rows-RowsDone columns (suc n) py pixels sh wide h =
      let (good, (m, kept), now, aside) = shade_row-RowDone py columns job.clip_x pixels sh h in
      let row = (shade_row f job py columns job.clip_x pixels sh).1 in
      let (fine, inside, outside) =
        shade_rows-RowsDone columns n (py + 1) row (rerun sh m) wide h in
      rw (shade_rows, good, kept)
        (
          fine,
          rows_inside columns n py row _ (shown sh) wide now inside outside,
          λ at out.
              outside at (λ j k c d.
                (let e : py + 1 + j ≡ py + suc j = omega arith in
                  rw e (out (suc j) k (omega arith) d)))
              ∙ aside at
                  (λ k c. (let e : py ≡ py + 0 = omega arith in rw e (out 0 k (omega arith) c))),
        )

  -- For a shader without an OUT_POSITION before its first END, if the clip rectangle does not
  -- wrap around and its columns fit into the pitch, `shade_scalar` succeeds, writes to each pixel
  -- of the rectangle the colour that the shader computes from that pixel's inputs, and changes no
  -- other word.
  pub shade_scalar-writes :
      (pixels : Pixels) (sh : Shader F)
      → job.clip_x + job.clip_width < 2 ^ 32
      → job.clip_y + job.clip_height < 2 ^ 32
      → 4 * (job.clip_x + job.clip_width) ≤ job.pitch_bytes
      → places_vertex sh.program ≡ false
      → let r = shade_scalar f job pixels sh in
        (r.0 ≡ ok)
        × ((j k : ℕ)
            → j < job.clip_height
            → k < job.clip_width
            → r.1 (pixel_at job (job.clip_x + k) (job.clip_y + j))
              ≡ shown sh (job.clip_x + k) (job.clip_y + j))
        × ((at : ℕ)
            → ((j k : ℕ)
                → j < job.clip_height
                → k < job.clip_width
                → at ≢ pixel_at job (job.clip_x + k) (job.clip_y + j))
            → r.1 at ≡ pixels at)
  unfolding shade_scalar
  shade_scalar-writes pixels sh right bottom wide h =
      let columns : rounds job.clip_x job.clip_width ≡ job.clip_width = omega arith in
      let lines : rounds job.clip_y job.clip_height ≡ job.clip_height = omega arith in
      rw (columns, lines)
        (shade_rows-RowsDone job.clip_width job.clip_height job.clip_y pixels sh wide h)
