-- ===== src/Tests/Drawing.antt =====
-- Runs of the drawing routines (libs/srapi/src/backend/cpu/renderer.c).
use one_tool.Common.{ℕ, ◌<◌, false, some, if◌then◌else◌, ◌≡◌, ◌≢◌, refl, arith}
use one_tool.Common.Int.{ℤ, pos, negsuc, pos_part}
use one_tool.Srapi.Shade.{Pixels}
use one_tool.Srapi.Render.{
  Framebuffer, RenderState, default_state, place, off_screen, cut, srapi_render_fill_rect,
  srapi_render_draw_line,
}
use one_tool.Srapi.Render.Pixel.{drawn_over}
use one_tool.Srapi.Render.Clipping.{in_rect}
use one_tool.Srapi.Render.Rect.{IsForeign, srapi_render_fill_rect-at}
use one_tool.Srapi.Render.Steps.{Between}
use one_tool.Srapi.Render.Line.{distance, srapi_render_draw_line-ends}

abbrev screen : Framebuffer
screen = record { width = 4; height = 3; pitch = 16 }

abbrev plain_state : RenderState
unfolding default_state
plain_state = default_state screen

abbrev dark : Pixels
dark k = 0

-- A rectangle that begins left of the screen.
corner :
    srapi_render_fill_rect screen plain_state 7 (negsuc 0) (pos 1) 3 1 dark (place screen 1 1) ≡ 7
unfolding srapi_render_fill_rect plain_state
corner = refl

srapi_render_fill_rect-at_example :
    ((i j : ℕ)
      → i < 4
      → j < 3
      → srapi_render_fill_rect screen plain_state 7 (negsuc 0) (pos 1) 3 1 dark (place screen i j)
        ≡ (if in_rect (negsuc 0) (pos 1) 3 1 i j
            then drawn_over plain_state 7 i j (dark (place screen i j))
            else dark (place screen i j)))
    × ((at : ℕ)
        → IsForeign screen at
        → srapi_render_fill_rect screen plain_state 7 (negsuc 0) (pos 1) 3 1 dark at ≡ dark at)
srapi_render_fill_rect-at_example =
    srapi_render_fill_rect-at screen (omega arith, omega arith, omega arith) plain_state 7
      (negsuc 0) (pos 1) 3 1 dark

-- From (0, 2) up to (3, 0).
srapi_render_draw_line-ends_example :
    (p : Pixels) × (srapi_render_draw_line screen plain_state 7 6
        (pos 0)
        (pos 2)
        (pos 3)
        (pos 0)
        dark
      ≡ some p)
    × ((at : ℕ)
        → ((x y : ℤ)
            → Between (pos 0) (pos 3) x
            → Between (pos 2) (pos 0) y
            → off_screen screen x y ≡ false
            → at ≢ place screen (pos_part x) (pos_part y))
        → p at ≡ dark at)
    × ((i j : ℕ)
        → pos 3 ≡ pos i
        → pos 0 ≡ pos j
        → i < 4
        → j < 3
        → cut plain_state (pos i) (pos j) ≡ false
        → plain_state.blends ≡ false
        → p (place screen i j) ≡ 7)
unfolding distance
srapi_render_draw_line-ends_example =
    srapi_render_draw_line-ends screen (omega arith, omega arith, omega arith) plain_state 7 6
      (pos 0) (pos 2) (pos 3) (pos 0) dark (omega arith)
