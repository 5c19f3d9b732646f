-- ===== src/Srapi/Render/Pixel.antt =====
-- libs/srapi/src/backend/cpu/renderer.c: what `put_pixel` leaves at a pixel.
use one_tool.Common.{
  ℕ, ◌+◌, ◌-◌, ◌*◌, ◌/◌, ◌^◌, ◌≤◌, ◌<◌, true, false, ltb, leb, ◌==◌, ◌||◌, ◌&&◌, if◌then◌else◌, ◌≡◌,
  ◌≢◌, ap, sym, arith, Bool-cases, inl, inr,
}
use one_tool.Common.Int.{ℤ, pos, negsuc, pos_part}
use one_tool.Srapi.Shade.{Pixels, write_pixel, int32}
use one_tool.Srapi.Render.{Framebuffer, RenderState, off_screen, cut, place, put_pixel, blend_alpha}

-- Sizes that fit into an `int32_t`, and rows that hold their pixels.
abbrev pub IsSound : Framebuffer → Type 0
IsSound fb = (fb.width < 2 ^ 31) × (fb.height < 2 ^ 31) × (fb.width ≤ fb.pitch / 4)

-- The new value of a pixel of the framebuffer that held `old`.
abbrev pub drawn_over : RenderState → ℕ → ℕ → ℕ → ℕ → ℕ
drawn_over st color x y old =
    if cut st (pos x) (pos y) then old else if st.blends then blend_alpha old color else color

module _ (fb : Framebuffer) (sound : IsSound fb) where
  pub outside_lem : (x y : ℕ) → off_screen fb (pos x) (pos y) ≡ (leb fb.width x || leb fb.height y)
  unfolding off_screen int32
  outside_lem x y = ground arith

  pub inside_lem :
      (x y : ℤ) → off_screen fb x y ≡ false → (pos_part x < fb.width) × (pos_part y < fb.height)
  unfolding off_screen int32
  inside_lem (pos x) (pos y) h = ground arith
  inside_lem (pos x) (negsuc y) h = ground arith
  inside_lem (negsuc x) y h = ground arith

  row_apart : (x y i j : ℕ) → x < fb.width → y < j → place fb x y ≢ place fb i j
  row_apart x y i j h below same =
      let p = fb.pitch / 4 in
      let spread : j * p ≡ y * p + p + (j - y - 1) * p = grind arith in omega arith

  pub place-injective :
      (x y i j : ℕ) → x < fb.width → i < fb.width → place fb x y ≡ place fb i j → (x ≡ i) × (y ≡ j)
  place-injective x y i j h k same = elim (Bool-cases (ltb y j)) [
    | inl e ↦ absurd (row_apart x y i j h (ground (arith, e)) same)
    | inr e ↦ elim (Bool-cases (ltb j y)) [
      | inl d ↦ absurd (row_apart i j x y k (ground (arith, d)) (sym same))
      | inr d ↦
          let level : y ≡ j = ground (arith, e, d) in
          let lines : y * (fb.pitch / 4) ≡ j * (fb.pitch / 4) =
            ap (λ (t : ℕ). t * (fb.pitch / 4)) level in
          (omega arith, level)
    ]
  ]

  pub put_pixel_here :
      (st : RenderState) (color : ℕ) (pixels : Pixels) (i j : ℕ)
      → i < fb.width
      → j < fb.height
      → put_pixel fb st (pos i) (pos j) color pixels (place fb i j)
        ≡ drawn_over st color i j (pixels (place fb i j))
  unfolding put_pixel
  put_pixel_here st color pixels i j h k =
      let shown : off_screen fb (pos i) (pos j) ≡ false = ground (arith, outside_lem i j) in
      let hit : (place fb i j == place fb i j) ≡ true = ground arith in
      elim (Bool-cases (cut st (pos i) (pos j))) [
        | inl e ↦ rw (put_pixel, shown, e)
        | inr e ↦ rw (put_pixel, shown, e, hit)
      ]

  pub write_pixel_ne :
      (pixels : Pixels) (at k color : ℕ) → k ≢ at → write_pixel pixels at color k ≡ pixels k
  write_pixel_ne pixels at k color h = ground arith

  -- A write changes no offset but its own, and that only inside the framebuffer.
  pub put_pixel_elsewhere :
      (st : RenderState) (x y : ℤ) (color : ℕ) (pixels : Pixels) (at : ℕ)
      → (off_screen fb x y ≡ false → at ≢ place fb (pos_part x) (pos_part y))
      → put_pixel fb st x y color pixels at ≡ pixels at
  unfolding put_pixel
  put_pixel_elsewhere st x y color pixels at h = elim (Bool-cases (off_screen fb x y)) [
    | inl e ↦ rw (put_pixel, e)
    | inr e ↦ elim (Bool-cases (cut st x y)) [
      | inl d ↦ rw (put_pixel, e, d)
      | inr d ↦ rw (put_pixel, e, d) (write_pixel_ne pixels _ at _ (h e))
    ]
  ]

  pub put_pixel-at :
      (st : RenderState) (x y color : ℕ) (pixels : Pixels) (i j : ℕ)
      → i < fb.width
      → j < fb.height
      → put_pixel fb st (pos x) (pos y) color pixels (place fb i j) ≡ (
          if (x == i) && (y == j)
          then drawn_over st color i j (pixels (place fb i j))
          else pixels (place fb i j))
  put_pixel-at st x y color pixels i j h k = elim (Bool-cases ((x == i) && (y == j))) [
    | inl e ↦
        let across : x ≡ i = ground (arith, e) in
        let down : y ≡ j = ground (arith, e) in
        rw (e, across, down) (put_pixel_here st color pixels i j h k)
    | inr e ↦ rw e (
        put_pixel_elsewhere st (pos x) (pos y) color pixels (place fb i j) λ shown same.
          (let inside : x < fb.width = ground (arith, outside_lem x y) in
            let (across, down) = place-injective i j x y h inside same in ground (arith, e)))
  ]
