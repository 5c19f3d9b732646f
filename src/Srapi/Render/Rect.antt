-- ===== src/Srapi/Render/Rect.antt =====
-- libs/srapi/src/backend/cpu/renderer.c: the pixels that a rectangle changes.
use one_tool.Common.{
  ℕ, zero, suc, ◌+◌, ◌-◌, ◌<◌, Bool, true, false, Option, none, some, ltb, leb, ◌==◌, ◌&&◌,
  if◌then◌else◌, ◌≡◌, ◌≢◌, refl, arith, ◌∙◌,
}
use one_tool.Common.Int.{ℤ, pos, pos_part}
use one_tool.Srapi.Shade.{Pixels}
use one_tool.Srapi.Render.{
  Framebuffer, RenderState, place, put_pixel, Clip, clip_rect, fill_row, fill_rows, fill_clip,
  srapi_render_fill_rect,
}
use one_tool.Srapi.Render.Pixel.{IsSound, drawn_over, put_pixel-at, put_pixel_elsewhere, inside_lem}
use one_tool.Srapi.Render.Clipping.{Clips, clip_rect-Clips, clip_span, in_clip, in_rect}

-- Two writes of which at most one hits a pixel are one write.
join_writes :
    (g : ℕ → ℕ) (hit later either : Bool) (old after : ℕ)
    → after ≡ (if hit then g old else old)
    → (hit ≡ true → (later ≡ false) × (either ≡ true))
    → (hit ≡ false → later ≡ either)
    → (if later then g after else after) ≡ (if either then g old else old)
join_writes g true later either old after e both one = rw ((both refl).0, (both refl).1, e)
join_writes g false later either old after e both one = rw (one refl, e)

-- An offset that is no pixel's.
abbrev pub IsForeign : Framebuffer → ℕ → Type 0
IsForeign fb at = (i j : ℕ) → i < fb.width → j < fb.height → at ≢ place fb i j

module _ (fb : Framebuffer) (sound : IsSound fb) (st : RenderState) (color : ℕ) where
  fill_row-at :
      (py n px : ℕ) (pixels : Pixels) (i j : ℕ)
      → i < fb.width
      → j < fb.height
      → fill_row fb st color py n px pixels (place fb i j) ≡ (
          if (leb px i && ltb i (px + n)) && (py == j)
          then drawn_over st color i j (pixels (place fb i j))
          else pixels (place fb i j))
  unfolding fill_row
  fill_row-at py zero px pixels i j h k = ground arith
  fill_row-at py (suc n) px pixels i j h k =
      let first = put_pixel-at fb sound st px py color pixels i j h k in
      let rest =
        fill_row-at py n (px + 1) (put_pixel fb st (pos px) (pos py) color pixels) i j h k in
      rest
      ∙ join_writes (drawn_over st color i j) ((px == i) && (py == j))
          ((leb (px + 1) i && ltb i (px + 1 + n)) && (py == j))
          ((leb px i && ltb i (px + suc n)) && (py == j)) _ _ first (λ e. ground (arith, e))
          (λ e. ground (arith, e))

  fill_rows-at :
      (columns px n py : ℕ) (pixels : Pixels) (i j : ℕ)
      → i < fb.width
      → j < fb.height
      → fill_rows fb st color columns px n py pixels (place fb i j) ≡ (
          if (leb px i && ltb i (px + columns)) && (leb py j && ltb j (py + n))
          then drawn_over st color i j (pixels (place fb i j))
          else pixels (place fb i j))
  unfolding fill_rows
  fill_rows-at columns px zero py pixels i j h k = ground arith
  fill_rows-at columns px (suc n) py pixels i j h k =
      let first = fill_row-at py columns px pixels i j h k in
      let rest =
        fill_rows-at columns px n (py + 1) (fill_row fb st color py columns px pixels) i j h k in
      rest
      ∙ join_writes (drawn_over st color i j) ((leb px i && ltb i (px + columns)) && (py == j))
          ((leb px i && ltb i (px + columns)) && (leb (py + 1) j && ltb j (py + 1 + n)))
          ((leb px i && ltb i (px + columns)) && (leb py j && ltb j (py + suc n))) _ _ first
          (λ e. ground (arith, e)) (λ e. ground (arith, e))

  put_pixel_foreign :
      (x y : ℤ) (pixels : Pixels) (at : ℕ)
      → IsForeign fb at
      → put_pixel fb st x y color pixels at ≡ pixels at
  put_pixel_foreign x y pixels at f = put_pixel_elsewhere fb sound st x y color pixels at λ shown.
      (let within = inside_lem fb sound x y shown in f (pos_part x) (pos_part y) within.0 within.1)

  fill_row_foreign :
      (py n px : ℕ) (pixels : Pixels) (at : ℕ)
      → IsForeign fb at
      → fill_row fb st color py n px pixels at ≡ pixels at
  unfolding fill_row
  fill_row_foreign py zero px pixels at f = refl
  fill_row_foreign py (suc n) px pixels at f =
      fill_row_foreign py n (px + 1) _ at f ∙ put_pixel_foreign (pos px) (pos py) pixels at f

  fill_rows_foreign :
      (columns px n py : ℕ) (pixels : Pixels) (at : ℕ)
      → IsForeign fb at
      → fill_rows fb st color columns px n py pixels at ≡ pixels at
  unfolding fill_rows
  fill_rows_foreign columns px zero py pixels at f = refl
  fill_rows_foreign columns px (suc n) py pixels at f =
      fill_rows_foreign columns px n (py + 1) _ at f ∙ fill_row_foreign py columns px pixels at f

  fill_clip_foreign :
      (clip : Option Clip) (pixels : Pixels) (at : ℕ)
      → IsForeign fb at
      → fill_clip fb st color clip pixels at ≡ pixels at
  unfolding fill_clip
  fill_clip_foreign none pixels at f = refl
  fill_clip_foreign (some c) pixels at f =
      fill_rows_foreign (c.x1 - c.x0) c.x0 (c.y1 - c.y0) c.y0 pixels at f

  rect_lem :
      (clip : Option Clip) (inside : Bool) (pixels : Pixels) (i j : ℕ)
      → i < fb.width
      → j < fb.height
      → Clips clip inside i j
      → fill_clip fb st color clip pixels (place fb i j) ≡ (
          if inside then drawn_over st color i j (pixels (place fb i j)) else pixels (place fb i j))
  unfolding fill_clip
  rect_lem none inside pixels i j h k c = rw c
  rect_lem (some clip) inside pixels i j h k c =
      let same : in_clip clip i j ≡ (
          (leb clip.x0 i && ltb i (clip.x0 + (clip.x1 - clip.x0)))
          && (leb clip.y0 j && ltb j (clip.y0 + (clip.y1 - clip.y0)))) =
        clip_span clip i j in
      rw (c, same)
        (fill_rows-at (clip.x1 - clip.x0) clip.x0 (clip.y1 - clip.y0) clip.y0 pixels i j h k)

  -- For a framebuffer whose sizes fit into int32_t and whose rows fit into the pitch,
  -- `srapi_render_fill_rect` draws once over each pixel that lies in the rectangle, leaves every
  -- other pixel as it was, and writes to no offset that is not a pixel's. Drawing over a pixel
  -- keeps it outside the scissor, and else blends or replaces it.
  pub srapi_render_fill_rect-at :
      (x y : ℤ) (width height : ℕ) (pixels : Pixels)
      → ((i j : ℕ)
          → i < fb.width
          → j < fb.height
          → srapi_render_fill_rect fb st color x y width height pixels (place fb i j) ≡ (
              if in_rect x y width height i j
              then drawn_over st color i j (pixels (place fb i j))
              else pixels (place fb i j)))
        × ((at : ℕ)
            → IsForeign fb at
            → srapi_render_fill_rect fb st color x y width height pixels at ≡ pixels at)
  unfolding srapi_render_fill_rect
  srapi_render_fill_rect-at x y width height pixels = (
    λ i j h k.
        rect_lem (clip_rect fb x y width height) (in_rect x y width height i j) pixels i j h k
          (clip_rect-Clips fb x y width height i j h k),
    λ at f. fill_clip_foreign (clip_rect fb x y width height) pixels at f,
  )
