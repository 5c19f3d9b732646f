-- ===== src/Srapi/Render/Steps.antt =====
-- libs/srapi/src/backend/cpu/renderer.c: the error term of `srapi_render_draw_line`.
use one_tool.Common.{
  ℕ, zero, suc, ◌+◌, ◌*◌, ◌≤◌, ◌<◌, Bool, true, false, leb, ◌==◌, ◌&&◌, ◌≡◌, refl, arith, inl, inr,
  ◌⊎◌,
}
use one_tool.Common.Int.{ℤ, pos, negsuc, pos_part, neg_part, sub_ℕ, ◌+ℤ◌, ◌≤ℤ◌, leb_ℤ}

abbrev pub sign : Bool → ℤ
sign true = pos 1
sign false = negsuc 0

-- `r` steps lead from `x0` to `x1`.
abbrev pub Toward : Bool → ℤ → ℤ → ℕ → Type 0
Toward true x0 x1 r = pos_part x1 + neg_part x0 ≡ pos_part x0 + neg_part x1 + r
Toward false x0 x1 r = pos_part x0 + neg_part x1 ≡ pos_part x1 + neg_part x0 + r

abbrev pub Between : ℤ → ℤ → ℤ → Type 0
Between u v x = ((u ≤ℤ x) × (x ≤ℤ v)) ⊎ ((v ≤ℤ x) × (x ≤ℤ u))

pub across_lem : (p q b : ℕ) → leb_ℤ (sub_ℕ 0 b) (sub_ℕ p q +ℤ sub_ℕ p q) ≡ leb (2 * q) (2 * p + b)
unfolding ◌+ℤ◌
across_lem p q b = ground arith

pub down_lem : (p q a : ℕ) → leb_ℤ (sub_ℕ p q +ℤ sub_ℕ p q) (pos a) ≡ leb (2 * p) (2 * q + a)
unfolding ◌+ℤ◌
down_lem p q a = ground arith

pub less_lem : (m q c : ℕ) → sub_ℕ (m + c) q +ℤ sub_ℕ 0 c ≡ sub_ℕ m q
unfolding ◌+ℤ◌
less_lem m q c = ground arith

pub more_lem : (p m c : ℕ) → sub_ℕ p (m + c) +ℤ pos c ≡ sub_ℕ p m
unfolding ◌+ℤ◌
more_lem p m c = ground arith

pub Toward-step :
    (f : Bool) (x0 x1 : ℤ) (r : ℕ) → Toward f x0 x1 (suc r) → Toward f (x0 +ℤ sign f) x1 r
unfolding ◌+ℤ◌
Toward-step true x0 x1 r h = ground arith
Toward-step false x0 x1 r h = ground arith

pub Toward-here : (f : Bool) (x0 x1 : ℤ) → Toward f x0 x1 0 → x0 ≡ x1
Toward-here true x0 x1 h = ground arith
Toward-here false x0 x1 h = ground arith

pub Toward-Between :
    (f : Bool) (x0 x1 u : ℤ) (r : ℕ)
    → Toward f x0 x1 (suc r)
    → Between u x1 x0
    → Between u x1 (x0 +ℤ sign f)
unfolding ◌+ℤ◌
Toward-Between true x0 x1 u r h (inl b) = inl (ground arith, ground arith)
Toward-Between true x0 x1 u r h (inr b) = absurd (omega arith)
Toward-Between false x0 x1 u r h (inl b) = absurd (omega arith)
Toward-Between false x0 x1 u r h (inr b) = inr (ground arith, ground arith)

pub arrived :
    (f : Bool) (x0 x1 : ℤ) (r : ℕ) → Toward f x0 x1 r → (leb_ℤ x0 x1 && leb_ℤ x1 x0) ≡ (r == 0)
arrived true x0 x1 r h = ground arith
arrived false x0 x1 r h = ground arith

-- Where there are steps left one of the two tests holds, and each only with steps left its way.
pub across_left :
    (a b r s : ℕ) → 0 < r + s → s ≤ b → leb (2 * (b + a * s)) (2 * (a + b * r) + b) ≡ true → 0 < r
across_left a b zero (suc s) h k e =
    let down : a * suc s ≡ a * s + a = grind arith in
    let flat : b * 0 ≡ 0 = omega arith in absurd (ground (arith, e))
across_left a b zero zero h k e = absurd (omega arith)
across_left a b (suc r) s h k e = omega arith

pub down_left :
    (a b r s : ℕ) → 0 < r + s → r ≤ a → leb (2 * (a + b * r)) (2 * (b + a * s) + a) ≡ true → 0 < s
down_left a b (suc r) zero h k e =
    let right : b * suc r ≡ b * r + b = grind arith in
    let flat : a * 0 ≡ 0 = omega arith in absurd (ground (arith, e))
down_left a b zero zero h k e = absurd (omega arith)
down_left a b r (suc s) h k e = omega arith

pub across_err :
    (a b r s : ℕ) → sub_ℕ (a + b * suc r) (b + a * s) +ℤ sub_ℕ 0 b ≡ sub_ℕ (a + b * r) (b + a * s)
across_err a b r s =
    let split : a + b * suc r ≡ a + b * r + b = grind arith in
    rw split (less_lem (a + b * r) (b + a * s) b)

pub down_err :
    (a b r s : ℕ) → sub_ℕ (a + b * r) (b + a * suc s) +ℤ pos a ≡ sub_ℕ (a + b * r) (b + a * s)
down_err a b r s =
    let split : b + a * suc s ≡ b + a * s + a = grind arith in
    rw split (more_lem (a + b * r) (b + a * s) a)

pub both_err :
    (a b r s : ℕ)
    → (sub_ℕ (a + b * suc r) (b + a * suc s) +ℤ sub_ℕ 0 b) +ℤ pos a ≡ sub_ℕ (a + b * r) (b + a * s)
both_err a b r s = rw (across_err a b r (suc s)) (down_err a b r s)

pub else_down : (p q a b : ℕ) → leb (2 * q) (2 * p + b) ≡ false → leb (2 * p) (2 * q + a) ≡ true
else_down p q a b h = ground (arith, h)

pub else_across : (p q a b : ℕ) → leb (2 * p) (2 * q + a) ≡ false → leb (2 * q) (2 * p + b) ≡ true
else_across p q a b h = ground (arith, h)

pub not_both : (r s : ℕ) → 0 < r + s → ((r == 0) && (s == 0)) ≡ false
not_both r s h = ground arith

pub not_true : (t : Bool) → (t ≡ true → t ≡ false) → t ≡ false
not_true true h = h refl
not_true false h = refl

pub begin_lem : (a b : ℕ) → (pos a +ℤ sub_ℕ 0 b) ≡ sub_ℕ (a + b * a) (b + a * b)
unfolding ◌+ℤ◌
begin_lem a b = let turned : b * a ≡ a * b = grind arith in rw turned (ground arith)
