-- ===== src/Srapi/Render.antt =====
-- libs/srapi/src/backend/cpu/renderer.c: pixels, rectangles and lines. A coordinate is an `ℤ`;
-- the pixels are a function from the byte offset of a pixel's word to the word, as in `Shade`. The
-- global `render_state` is an argument.
pub mod Pixel
pub mod Clipping
pub mod Rect
pub mod Steps
pub mod Line
use one_tool.Common.{
  ℕ, zero, suc, ◌+◌, ◌-◌, ◌*◌, ◌/◌, ◌%◌, ◌^◌, Bool, true, false, not, List, Option, none, some, ltb,
  leb, ◌==◌, ◌||◌, ◌&&◌, if◌then◌else◌,
}
use one_tool.Common.Int.{ℤ, pos, negsuc, pos_part, neg_part, ◌+ℤ◌, ◌-ℤ◌, leb_ℤ}
use one_tool.Common.Bits.{◌>>>◌, u8}
use one_tool.Srapi.Types.{srapi_rgba}
use one_tool.Srapi.Shade.{Pixels, write_pixel, int32}

-- The fields of `srapi_framebuffer_t` that drawing reads, besides its pixels.
pub record Framebuffer : Type 0 where
  pub width : ℕ
  pub height : ℕ
  pub pitch : ℕ

-- `srapi_render_state_t`; `blends` says whether the mode is `SRAPI_BLEND_ALPHA`.
pub record RenderState : Type 0 where
  pub scissor_enabled : Bool
  pub scissor_x : ℤ
  pub scissor_y : ℤ
  pub scissor_width : ℕ
  pub scissor_height : ℕ
  pub viewport_enabled : Bool
  pub viewport_x : ℤ
  pub viewport_y : ℤ
  pub viewport_width : ℕ
  pub viewport_height : ℕ
  pub blends : Bool

unfoldable pub default_state : Framebuffer → RenderState
default_state fb = record {
  scissor_enabled = false;
  scissor_x = pos 0;
  scissor_y = pos 0;
  scissor_width = fb.width;
  scissor_height = fb.height;
  viewport_enabled = false;
  viewport_x = pos 0;
  viewport_y = pos 0;
  viewport_width = fb.width;
  viewport_height = fb.height;
  blends = false;
}

-- `color_a`, `color_r`, `color_g` and `color_b`: the byte at a shift.
abbrev pub channel : ℕ → ℕ → ℕ
channel color shift = u8 (color >>> shift)

-- The sums stay below 2^32: each product is at most 255 * 255.
unfoldable pub blend_alpha : ℕ → ℕ → ℕ
unfolding srapi_rgba
blend_alpha dst src =
    let sa = channel src 24 in
    let inv = 255 - sa in
    let mixed : ℕ → ℕ = λ shift. (channel src shift * sa + channel dst shift * inv + 127) / 255 in
    let a = sa + (channel dst 24 * inv + 127) / 255 in
    srapi_rgba (u8 (mixed 16)) (u8 (mixed 8)) (u8 (mixed 0)) (u8 a)

abbrev pub ltb_ℤ : ℤ → ℤ → Bool
ltb_ℤ a b = not (leb_ℤ b a)

-- The first test of `put_pixel`.
unfoldable pub off_screen : Framebuffer → ℤ → ℤ → Bool
unfolding int32
off_screen fb x y =
    ltb_ℤ x (pos 0) || ltb_ℤ y (pos 0) || leb_ℤ (int32 fb.width) x || leb_ℤ (int32 fb.height) y

-- The scissor test of `put_pixel`.
unfoldable pub cut : RenderState → ℤ → ℤ → Bool
unfolding ◌+ℤ◌
cut st x y =
    st.scissor_enabled
    && (ltb_ℤ x st.scissor_x
        || ltb_ℤ y st.scissor_y
        || leb_ℤ (st.scissor_x +ℤ pos st.scissor_width) x
        || leb_ℤ (st.scissor_y +ℤ pos st.scissor_height) y)

-- The offset of the word that `put_pixel` writes.
abbrev pub place : Framebuffer → ℕ → ℕ → ℕ
place fb x y = 4 * (y * (fb.pitch / 4) + x)

unfoldable pub put_pixel : Framebuffer → RenderState → ℤ → ℤ → ℕ → Pixels → Pixels
unfolding off_screen cut blend_alpha
put_pixel fb st x y color pixels =
    if off_screen fb x y
    then pixels
    else if cut st x y
    then pixels
    else let at = place fb (pos_part x) (pos_part y) in
      write_pixel pixels at (if st.blends then blend_alpha (pixels at) color else color)

pub record Clip : Type 0 where
  pub x0 : ℕ
  pub y0 : ℕ
  pub x1 : ℕ
  pub y1 : ℕ

-- `clip_rect`; the corners that it returns are not negative.
unfoldable pub clip_rect : Framebuffer → ℤ → ℤ → ℕ → ℕ → Option Clip
unfolding ◌+ℤ◌
clip_rect fb x y width height =
    let x1 = x +ℤ pos width in
    let y1 = y +ℤ pos height in
    if width == 0 || height == 0
    then none
    else if leb_ℤ x1 (pos 0)
        || leb_ℤ y1 (pos 0)
        || leb_ℤ (pos fb.width) x
        || leb_ℤ (pos fb.height) y
    then none
    else let left = pos_part x in
      let top = pos_part y in
      let right = if ltb_ℤ (pos fb.width) x1 then fb.width else pos_part x1 in
      let bottom = if ltb_ℤ (pos fb.height) y1 then fb.height else pos_part y1 in
      if leb right left || leb bottom top
      then none
      else some (record { x0 = left; y0 = top; x1 = right; y1 = bottom })

module _ (fb : Framebuffer) (st : RenderState) (color : ℕ) where
  -- `n` pixels of a row, from `px` on.
  unfoldable pub fill_row : ℕ → ℕ → ℕ → Pixels → Pixels
  unfolding put_pixel
  fill_row py zero px pixels = pixels
  fill_row py (suc n) px pixels =
      fill_row py n (px + 1) (put_pixel fb st (pos px) (pos py) color pixels)

  -- `n` rows of `columns` pixels, from `py` on.
  unfoldable pub fill_rows : ℕ → ℕ → ℕ → ℕ → Pixels → Pixels
  unfolding fill_row
  fill_rows columns px zero py pixels = pixels
  fill_rows columns px (suc n) py pixels =
      fill_rows columns px n (py + 1) (fill_row py columns px pixels)

  unfoldable pub srapi_render_clear : Pixels → Pixels
  unfolding fill_rows
  srapi_render_clear pixels = fill_rows fb.width 0 fb.height 0 pixels

  -- The loops of `srapi_render_fill_rect` on what `clip_rect` returned.
  unfoldable pub fill_clip : Option Clip → Pixels → Pixels
  unfolding fill_rows
  fill_clip none pixels = pixels
  fill_clip (some c) pixels = fill_rows (c.x1 - c.x0) c.x0 (c.y1 - c.y0) c.y0 pixels

  unfoldable pub srapi_render_fill_rect : ℤ → ℤ → ℕ → ℕ → Pixels → Pixels
  unfolding fill_clip clip_rect
  srapi_render_fill_rect x y width height pixels = fill_clip (clip_rect fb x y width height) pixels

  -- The loop of `srapi_render_draw_line`, with fuel; `none` means that the fuel ran out.
  unfoldable pub line_loop : ℤ → ℤ → ℤ → ℤ → ℤ → ℤ → ℕ → ℤ → ℤ → ℤ → Pixels → Option Pixels
  unfolding put_pixel ◌+ℤ◌
  line_loop dx dy sx sy x1 y1 zero x0 y0 err pixels = none
  line_loop dx dy sx sy x1 y1 (suc n) x0 y0 err pixels =
      let drawn = put_pixel fb st x0 y0 color pixels in
      let e2 = err +ℤ err in
      let across = leb_ℤ dy e2 in
      let down = leb_ℤ e2 dx in
      let err_x = if across then err +ℤ dy else err in
      let rest =
        line_loop dx dy sx sy x1 y1 n (if across then x0 +ℤ sx else x0)
          (if down then y0 +ℤ sy else y0) (if down then err_x +ℤ dx else err_x) drawn in
      if (leb_ℤ x0 x1 && leb_ℤ x1 x0) && (leb_ℤ y0 y1 && leb_ℤ y1 y0) then some drawn else rest

  unfoldable pub srapi_render_draw_line : ℕ → ℤ → ℤ → ℤ → ℤ → Pixels → Option Pixels
  unfolding line_loop ◌+ℤ◌ ◌-ℤ◌
  srapi_render_draw_line fuel x0 y0 x1 y1 pixels =
      let dx = if leb_ℤ x0 x1 then x1 -ℤ x0 else x0 -ℤ x1 in
      let sx = if ltb_ℤ x0 x1 then pos 1 else negsuc 0 in
      let dy = if leb_ℤ y0 y1 then y0 -ℤ y1 else y1 -ℤ y0 in
      let sy = if ltb_ℤ y0 y1 then pos 1 else negsuc 0 in
      line_loop dx dy sx sy x1 y1 fuel x0 y0 (dx +ℤ dy) pixels
