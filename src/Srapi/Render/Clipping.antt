-- ===== src/Srapi/Render/Clipping.antt =====
-- libs/srapi/src/backend/cpu/renderer.c: `clip_rect` against the rectangle that it clips.
use one_tool.Common.{
  ℕ, ◌+◌, ◌-◌, ◌<◌, Bool, true, false, Option, none, some, ltb, leb, ◌==◌, ◌||◌, ◌&&◌,
  if◌then◌else◌, ◌≡◌, refl, arith, Bool-cases, inl, inr,
}
use one_tool.Common.Int.{ℤ, pos, pos_part, ◌+ℤ◌, leb_ℤ}
use one_tool.Srapi.Render.{Framebuffer, ltb_ℤ, Clip, clip_rect}

-- Whether a coordinate lies in `size` places from `x` on.
abbrev pub in_span : ℤ → ℕ → ℕ → Bool
unfolding ◌+ℤ◌
in_span x size i = leb_ℤ x (pos i) && ltb_ℤ (pos i) (x +ℤ pos size)

abbrev pub in_rect : ℤ → ℤ → ℕ → ℕ → ℕ → ℕ → Bool
unfolding in_span
in_rect x y width height i j = in_span x width i && in_span y height j

-- The end of a span that is clipped at `limit`, as `clip_rect` computes it.
abbrev pub clipped : ℕ → ℤ → ℕ → ℕ
unfolding ◌+ℤ◌
clipped limit x size = if ltb_ℤ (pos limit) (x +ℤ pos size) then limit else pos_part (x +ℤ pos size)

module _ (x : ℤ) (size limit i : ℕ) (below : i < limit) where
  span_lem : in_span x size i ≡ (leb (pos_part x) i && ltb i (clipped limit x size))
  unfolding in_span clipped ◌+ℤ◌
  span_lem = ground arith

  span_before : leb_ℤ (x +ℤ pos size) (pos 0) ≡ true → in_span x size i ≡ false
  unfolding in_span ◌+ℤ◌
  span_before h = ground arith

  span_behind : leb_ℤ (pos limit) x ≡ true → in_span x size i ≡ false
  unfolding in_span ◌+ℤ◌
  span_behind h = ground arith

  span_empty : (size == 0) ≡ true → in_span x size i ≡ false
  unfolding in_span ◌+ℤ◌
  span_empty h = ground arith

  span_cross : leb (clipped limit x size) (pos_part x) ≡ true → in_span x size i ≡ false
  span_cross h = rw span_lem (ground (arith, h))

abbrev pub in_clip : Clip → ℕ → ℕ → Bool
in_clip c i j = (leb c.x0 i && ltb i c.x1) && (leb c.y0 j && ltb j c.y1)

pub span_size : (lo hi i : ℕ) → (leb lo i && ltb i hi) ≡ (leb lo i && ltb i (lo + (hi - lo)))
span_size lo hi i = ground arith

pub clip_span :
    (c : Clip) (i j : ℕ)
    → in_clip c i j ≡ (
        (leb c.x0 i && ltb i (c.x0 + (c.x1 - c.x0)))
        && (leb c.y0 j && ltb j (c.y0 + (c.y1 - c.y0))))
clip_span c i j = rw (span_size c.x0 c.x1 i, span_size c.y0 c.y1 j)

-- What `clip_rect` says about a pixel of the framebuffer.
abbrev pub Clips : Option Clip → Bool → ℕ → ℕ → Type 0
Clips none inside i j = inside ≡ false
Clips (some c) inside i j = inside ≡ in_clip c i j

pub left_or :
    (a b s : Bool) → (a ≡ true → s ≡ false) → (b ≡ true → s ≡ false) → (a || b) ≡ true → s ≡ false
left_or true b s f g h = f refl
left_or false b s f g h = g h

pub either_false :
    (a b s t : Bool)
    → (a ≡ true → s ≡ false)
    → (b ≡ true → t ≡ false)
    → (a || b) ≡ true
    → (s && t) ≡ false
either_false true b s t f g h = rw (f refl)
either_false false true s true f g h = cc (g refl)
either_false false true s false f g h = ground arith
either_false false false s t f g h = cc

pub some_false :
    (a b c d s t : Bool)
    → (a ≡ true → s ≡ false)
    → (b ≡ true → t ≡ false)
    → (c ≡ true → s ≡ false)
    → (d ≡ true → t ≡ false)
    → (a || b || c || d) ≡ true
    → (s && t) ≡ false
some_false a b c d s t f g h k e = elim (Bool-cases (a || c)) [
  | inl p ↦ rw (left_or a c s f h p)
  | inr p ↦ either_false false (b || d) s t (λ q. cc) (left_or b d t g k) (ground (arith, p))
]

pub Clips-choice :
    (p q r inside : Bool) (c : Clip) (i j : ℕ)
    → (p ≡ true → inside ≡ false)
    → (q ≡ true → inside ≡ false)
    → (r ≡ true → inside ≡ false)
    → inside ≡ in_clip c i j
    → Clips (if p then none else if q then none else if r then none else some c) inside i j
Clips-choice true q r inside c i j f g h same = f refl
Clips-choice false true r inside c i j f g h same = g refl
Clips-choice false false true inside c i j f g h same = h refl
Clips-choice false false false inside c i j f g h same = same

pub clip_rect-Clips :
    (fb : Framebuffer) (x y : ℤ) (width height i j : ℕ)
    → i < fb.width
    → j < fb.height
    → Clips (clip_rect fb x y width height) (in_rect x y width height i j) i j
unfolding clip_rect
clip_rect-Clips fb x y width height i j h k =
    Clips-choice _ _ _ _
      (record {
        x0 = pos_part x;
        y0 = pos_part y;
        x1 = clipped fb.width x width;
        y1 = clipped fb.height y height;
      })
      i j
      (either_false _ _ _ _ (span_empty x width fb.width i h) (span_empty y height fb.height j k))
      (some_false _ _ _ _ _ _ (span_before x width fb.width i h)
        (span_before y height fb.height j k) (span_behind x width fb.width i h)
        (span_behind y height fb.height j k))
      (either_false _ _ _ _ (span_cross x width fb.width i h) (span_cross y height fb.height j k))
      (rw (span_lem x width fb.width i h, span_lem y height fb.height j k))
