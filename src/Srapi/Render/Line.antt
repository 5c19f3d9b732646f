-- ===== src/Srapi/Render/Line.antt =====
-- libs/srapi/src/backend/cpu/renderer.c: the loop of `srapi_render_draw_line` ends.
use one_tool.Common.{
  ℕ, zero, suc, ◌+◌, ◌*◌, ◌≤◌, ◌<◌, Bool, true, false, some, leb, ◌&&◌, if◌then◌else◌, ◌≡◌, ◌≢◌,
  ◌∙◌, refl, arith, Bool-cases, inl, inr,
}
use one_tool.Common.Int.{ℤ, pos, negsuc, pos_part, sub_ℕ, ◌+ℤ◌, ◌-ℤ◌, leb_ℤ}
use one_tool.Srapi.Shade.{Pixels}
use one_tool.Srapi.Render.{
  Framebuffer, RenderState, put_pixel, line_loop, srapi_render_draw_line, ltb_ℤ, off_screen, cut,
  place,
}
use one_tool.Srapi.Render.Pixel.{IsSound, put_pixel_elsewhere, put_pixel_here}
use one_tool.Srapi.Render.Steps.{
  Between, Toward, Toward-Between, Toward-here, Toward-step, across_err, across_left, across_lem,
  arrived, begin_lem, both_err, down_err, down_left, down_lem, else_across, else_down, not_both,
  not_true, sign,
}

module _ (fb : Framebuffer) (st : RenderState) (color : ℕ) (Q : Pixels → Type 0) (u v x1 y1 : ℤ)
    (keeps : (x y : ℤ) (pixels : Pixels)
      → Between u x1 x
      → Between v y1 y
      → Q pixels
      → Q (put_pixel fb st x y color pixels))
    (a b : ℕ) (fx fy : Bool) where
  -- The outcome from a state on.
  abbrev LineEnd : ℕ → ℤ → ℤ → ℤ → Pixels → Type 0
  LineEnd n x0 y0 err pixels =
      (p : Pixels) × (line_loop fb st color (pos a) (sub_ℕ 0 b) (sign fx) (sign fy) x1 y1 n x0 y0
          err pixels
        ≡ some p)
      × Q p
      × ((last : Pixels) × (p ≡ put_pixel fb st x1 y1 color last))

  -- The start of a round: two tests on a state whose error term is in its closed form.
  round_lem :
      (n r s : ℕ) (x0 y0 : ℤ) (pixels : Pixels) (across down : Bool)
      → Toward fx x0 x1 r
      → Toward fy y0 y1 s
      → 0 < r + s
      → leb (2 * (b + a * s)) (2 * (a + b * r) + b) ≡ across
      → leb (2 * (a + b * r)) (2 * (b + a * s) + a) ≡ down
      → (let err = sub_ℕ (a + b * r) (b + a * s) in
          let err_x = if across then err +ℤ sub_ℕ 0 b else err in
          LineEnd n
            (if across then x0 +ℤ sign fx else x0)
            (if down then y0 +ℤ sign fy else y0)
            (if down then err_x +ℤ pos a else err_x)
            (put_pixel fb st x0 y0 color pixels))
      → LineEnd (suc n) x0 y0 (sub_ℕ (a + b * r) (b + a * s)) pixels
  unfolding line_loop
  round_lem n r s x0 y0 pixels across down tx ty more ea ed (p, ends, q, last) =
      let stop : ((leb_ℤ x0 x1 && leb_ℤ x1 x0) && (leb_ℤ y0 y1 && leb_ℤ y1 y0)) ≡ false =
        rw (arrived fx x0 x1 r tx, arrived fy y0 y1 s ty) (not_both r s more) in
      let first = across_lem (a + b * r) (b + a * s) b in
      let second = down_lem (a + b * r) (b + a * s) a in
      (p, rw (line_loop, stop, first, second, ea, ed) ends, q, last)

  line_loop-ends :
      (n r s : ℕ) (x0 y0 err : ℤ) (pixels : Pixels)
      → r + s < n
      → r ≤ a
      → s ≤ b
      → Toward fx x0 x1 r
      → Toward fy y0 y1 s
      → Between u x1 x0
      → Between v y1 y0
      → err ≡ sub_ℕ (a + b * r) (b + a * s)
      → Q pixels
      → LineEnd n x0 y0 err pixels
  unfolding line_loop
  line_loop-ends zero r s x0 y0 err pixels fuel ra sb tx ty bx by_ e q = absurd (omega arith)
  line_loop-ends (suc n) zero zero x0 y0 err pixels fuel ra sb tx ty bx by_ e q =
      let stop : ((leb_ℤ x0 x1 && leb_ℤ x1 x0) && (leb_ℤ y0 y1 && leb_ℤ y1 y0)) ≡ true =
        rw (arrived fx x0 x1 0 tx, arrived fy y0 y1 0 ty) in
      let here : x0 ≡ x1 = Toward-here fx x0 x1 tx in
      let there : y0 ≡ y1 = Toward-here fy y0 y1 ty in
      (
        put_pixel fb st x0 y0 color pixels,
        rw (line_loop, stop),
        keeps x0 y0 pixels bx by_ q,
        (pixels, rw (here, there)),
      )
  line_loop-ends (suc n) zero (suc s) x0 y0 err pixels fuel ra sb tx ty bx by_ e q =
      let across : leb (2 * (b + a * suc s)) (2 * (a + b * 0) + b) ≡ false =
        not_true _ (λ t. absurd (omega (arith, across_left a b 0 (suc s) (omega arith) sb t))) in
      let q' = keeps x0 y0 pixels bx by_ q in
      rw e (
        round_lem n 0 (suc s) x0 y0 pixels false true tx ty (omega arith) across
          (else_down (a + b * 0) (b + a * suc s) a b across)
          (line_loop-ends n 0 s x0 (y0 +ℤ sign fy) _ _ (omega arith) ra (omega arith) tx
            (Toward-step fy y0 y1 s ty) bx (Toward-Between fy y0 y1 v s ty by_) (down_err a b 0 s)
            q'))
  line_loop-ends (suc n) (suc r) zero x0 y0 err pixels fuel ra sb tx ty bx by_ e q =
      let down : leb (2 * (a + b * suc r)) (2 * (b + a * 0) + a) ≡ false =
        not_true _ (λ t. absurd (omega (arith, down_left a b (suc r) 0 (omega arith) ra t))) in
      let q' = keeps x0 y0 pixels bx by_ q in
      rw e (
        round_lem n (suc r) 0 x0 y0 pixels true false tx ty (omega arith)
          (else_across (a + b * suc r) (b + a * 0) a b down) down
          (line_loop-ends n r 0 (x0 +ℤ sign fx) y0 _ _ (omega arith) (omega arith) sb
            (Toward-step fx x0 x1 r tx) ty (Toward-Between fx x0 x1 u r tx bx) by_
            (across_err a b r 0) q'))
  line_loop-ends (suc n) (suc r) (suc s) x0 y0 err pixels fuel ra sb tx ty bx by_ e q =
      let q' = keeps x0 y0 pixels bx by_ q in
      let bx' = Toward-Between fx x0 x1 u r tx bx in
      let by' = Toward-Between fy y0 y1 v s ty by_ in
      let tx' = Toward-step fx x0 x1 r tx in
      let ty' = Toward-step fy y0 y1 s ty in
      rw e (elim (Bool-cases (leb (2 * (b + a * suc s)) (2 * (a + b * suc r) + b))) [
        | inl across ↦ elim (Bool-cases (leb (2 * (a + b * suc r)) (2 * (b + a * suc s) + a))) [
          | inl down ↦
              round_lem n (suc r) (suc s) x0 y0 pixels true true tx ty (omega arith) across down (
                line_loop-ends n r s _ _ _ _ (omega arith) (omega arith) (omega arith) tx' ty' bx'
                  by' (both_err a b r s) q')
          | inr down ↦
              round_lem n (suc r) (suc s) x0 y0 pixels true false tx ty (omega arith) across down (
                line_loop-ends n r (suc s) _ _ _ _ (omega arith) (omega arith) sb tx' ty bx' by_
                  (across_err a b r (suc s)) q')
        ]
        | inr across ↦
            round_lem n (suc r) (suc s) x0 y0 pixels false true tx ty (omega arith) across
              (else_down (a + b * suc r) (b + a * suc s) a b across)
              (line_loop-ends n (suc r) s _ _ _ _ (omega arith) ra (omega arith) tx ty' bx by'
                (down_err a b (suc r) s) q')
      ])

-- |x1 - x0|
unfoldable pub distance : ℤ → ℤ → ℕ
unfolding ◌-ℤ◌
distance x0 x1 = if leb_ℤ x0 x1 then pos_part (x1 -ℤ x0) else pos_part (x0 -ℤ x1)

gap_lem : (x0 x1 : ℤ) → (if leb_ℤ x0 x1 then x1 -ℤ x0 else x0 -ℤ x1) ≡ pos (distance x0 x1)
unfolding ◌-ℤ◌ distance
gap_lem x0 x1 = ground arith

fall_lem : (y0 y1 : ℤ) → (if leb_ℤ y0 y1 then y0 -ℤ y1 else y1 -ℤ y0) ≡ sub_ℕ 0 (distance y0 y1)
unfolding ◌-ℤ◌ distance
fall_lem y0 y1 = ground arith

sign_lem : (x0 x1 : ℤ) → (if ltb_ℤ x0 x1 then pos 1 else negsuc 0) ≡ sign (ltb_ℤ x0 x1)
sign_lem x0 x1 = ground arith

start_Toward : (x0 x1 : ℤ) → Toward (ltb_ℤ x0 x1) x0 x1 (distance x0 x1)
unfolding ◌-ℤ◌ distance
start_Toward x0 x1 = elim (Bool-cases (leb_ℤ x1 x0)) [
  | inl e ↦ rw e (ground (arith, e))
  | inr e ↦ rw e (ground (arith, e))
]

start_Between : (x0 x1 : ℤ) → Between x0 x1 x0
start_Between x0 x1 = elim (Bool-cases (leb_ℤ x0 x1)) [
  | inl e ↦ inl (omega arith, ground (arith, e))
  | inr e ↦ inr (ground (arith, e), omega arith)
]

module _ (fb : Framebuffer) (sound : IsSound fb) (st : RenderState) (color : ℕ) where
  end_lem :
      (x1 y1 : ℤ) (last p : Pixels) (i j : ℕ)
      → p ≡ put_pixel fb st x1 y1 color last
      → x1 ≡ pos i
      → y1 ≡ pos j
      → i < fb.width
      → j < fb.height
      → cut st (pos i) (pos j) ≡ false
      → st.blends ≡ false
      → p (place fb i j) ≡ color
  end_lem x1 y1 last p i j final ex ey h k shown plain =
      rw (final, ex, ey) (put_pixel_here fb sound st color last i j h k ∙ rw (shown, plain))

  -- With more fuel than the columns and rows that it crosses, the loop of
  -- `srapi_render_draw_line` ends. It has written only to pixels of the framebuffer between the
  -- two end points, and without blending the pixel at the second one, if it is visible, has the
  -- colour.
  pub srapi_render_draw_line-ends :
      (fuel : ℕ) (x0 y0 x1 y1 : ℤ) (pixels : Pixels)
      → distance x0 x1 + distance y0 y1 < fuel
      → (p : Pixels) × (srapi_render_draw_line fb st color fuel x0 y0 x1 y1 pixels ≡ some p)
        × ((at : ℕ)
            → ((x y : ℤ)
                → Between x0 x1 x
                → Between y0 y1 y
                → off_screen fb x y ≡ false
                → at ≢ place fb (pos_part x) (pos_part y))
            → p at ≡ pixels at)
        × ((i j : ℕ)
            → x1 ≡ pos i
            → y1 ≡ pos j
            → i < fb.width
            → j < fb.height
            → cut st (pos i) (pos j) ≡ false
            → st.blends ≡ false
            → p (place fb i j) ≡ color)
  unfolding srapi_render_draw_line
  srapi_render_draw_line-ends fuel x0 y0 x1 y1 pixels enough =
      let a = distance x0 x1 in
      let b = distance y0 y1 in
      let begin : (pos a +ℤ sub_ℕ 0 b) ≡ sub_ℕ (a + b * a) (b + a * b) = begin_lem a b in
      let kept : Pixels → Type 0 = λ q.
        (at : ℕ)
        → ((x y : ℤ)
            → Between x0 x1 x
            → Between y0 y1 y
            → off_screen fb x y ≡ false
            → at ≢ place fb (pos_part x) (pos_part y))
        → q at ≡ pixels at in
      let (p, ends, unchanged, (last, final)) =
        line_loop-ends fb st color kept x0 y0 x1 y1
          (λ x y q bx by_ old at away.
            put_pixel_elsewhere fb sound st x y color q at (away x y bx by_) ∙ old at away)
          a b (ltb_ℤ x0 x1) (ltb_ℤ y0 y1) fuel a b x0 y0 (pos a +ℤ sub_ℕ 0 b) pixels enough
          (omega arith) (omega arith) (start_Toward x0 x1) (start_Toward y0 y1)
          (start_Between x0 x1) (start_Between y0 y1) begin (λ at away. refl) in
      (
        p,
        rw (gap_lem x0 x1, fall_lem y0 y1, sign_lem x0 x1, sign_lem y0 y1) ends,
        unchanged,
        λ i j ex ey h k shown plain. end_lem x1 y1 last p i j final ex ey h k shown plain,
      )
