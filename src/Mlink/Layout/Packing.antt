-- ===== src/Mlink/Layout/Packing.antt =====
-- One pass over the sections of a kind packs them from the cursor on, each at its alignment.
use native.Mathlib.Nat.{mod-eq_of_lt}
use one_tool.Common.{
  ℕ, ◌+◌, ◌%◌, ◌^◌, ◌≤◌, ◌<◌, ◌≡◌, refl, inl, inr, true, false, List, [], ◌∷◌, ◌++◌, arith,
  if◌then◌else◌, Bool-cases, All,
}
use one_tool.Mlink.Bytes.{align_up}
use one_tool.Mlink.Bytes.Align.{align_up_least}
use one_tool.Mlink.Types.{SectionKind, Section, Object}
use one_tool.Mlink.Layout.{takes_part, place_section, place_sections}

-- The sections that take part in the pass over a kind.
abbrev pub kept : SectionKind → List Section → List Section
kept k [] = []
kept k (s ∷ ss) = if takes_part k s then s ∷ kept k ss else kept k ss

abbrev pub kept_of : SectionKind → List Object → List Section
kept_of k [] = []
kept_of k (obj ∷ objs) =
    if obj.selected then kept k obj.sections ++ kept_of k objs else kept_of k objs

-- The sections stand between `lo` and `hi`, in order and apart, each at a multiple of its
-- alignment, and each has the address of its offset.
abbrev pub Packed : (base lo hi : ℕ) → List Section → Type 0
Packed base lo hi [] = lo ≤ hi
Packed base lo hi (s ∷ ss) =
    (lo ≤ s.out_offset)
    × (s.out_offset % s.align ≡ 0)
    × (s.out_addr ≡ base + s.out_offset)
    × Packed base (s.out_offset + s.size) hi ss

-- The most that the sections can take up.
abbrev pub demand : List Section → ℕ
demand [] = 0
demand (s ∷ ss) = s.align + s.size + demand ss

-- The loader leaves no alignment 0.
abbrev pub IsAligned : List Section → Type 0
IsAligned ss = All (λ (s : Section). 0 < s.align) ss

abbrev pub AreAligned : List Object → Type 0
AreAligned objs = All (λ (obj : Object). IsAligned obj.sections) objs

pub Packed-lower :
    (base lo lo' hi : ℕ) (ss : List Section)
    → lo ≤ lo'
    → Packed base lo' hi ss
    → Packed base lo hi ss
Packed-lower base lo lo' hi [] h p = omega arith
Packed-lower base lo lo' hi (s ∷ ss) h p = (omega arith, p.1, p.2, p.3)

pub Packed-append :
    (base lo mid hi : ℕ) (xs ys : List Section)
    → Packed base lo mid xs
    → Packed base mid hi ys
    → Packed base lo hi (xs ++ ys)
Packed-append base lo mid hi [] ys p q = Packed-lower base lo mid hi ys p q
Packed-append base lo mid hi (x ∷ xs) ys p q =
    (p.0, p.1, p.2, Packed-append base (x.out_offset + x.size) mid hi xs ys p.3 q)

abbrev moved : (base at : ℕ) → Section → Section
moved base at s = record s { out_offset = at; out_addr = base + at }

place_section_takes :
    (k : SectionKind) (base lo : ℕ) (s : Section)
    → 0 < s.align
    → takes_part k s ≡ true
    → base + lo + (s.align + s.size) < 2 ^ 64
    → place_section k base lo s ≡ (align_up lo s.align + s.size, moved base (align_up lo s.align) s)
unfolding place_section
place_section_takes k base lo s pos takes room =
    let (_, _, close, _) = align_up_least lo s.align pos (omega arith) in
    rw (
      takes,
      mod-eq_of_lt {n = align_up lo s.align + s.size} {m = 2 ^ 64} (omega arith),
      mod-eq_of_lt {n = base + align_up lo s.align} {m = 2 ^ 64} (omega arith),
    )

place_section_skips :
    (k : SectionKind) (base lo : ℕ) (s : Section)
    → takes_part k s ≡ false
    → place_section k base lo s ≡ (lo, s)
unfolding place_section
place_section_skips k base lo s skips = rw skips

pub record Pass (k : SectionKind) (base lo : ℕ) (ss : List Section) (r : ℕ × List Section)
    : Type 0 where
  pub packed : Packed base lo r.0 (kept k r.1)
  pub short : r.0 ≤ lo + demand (kept k ss)
  pub forward : lo ≤ r.0

pub place_sections-Pass :
    (k : SectionKind) (base lo : ℕ) (ss : List Section)
    → IsAligned ss
    → base + lo + demand (kept k ss) < 2 ^ 64
    → Pass k base lo ss (place_sections k base lo ss)
unfolding place_sections
place_sections-Pass k base lo [] aligned room = omega arith
place_sections-Pass k base lo (s ∷ ss) aligned room = elim (Bool-cases (takes_part k s)) [
  | inl takes ↦
      let spent : base + lo + (s.align + s.size + demand (kept k ss)) < 2 ^ 64 = rw takes at room in
      let at = align_up lo s.align in
      let (multiple, above, close, _) = align_up_least lo s.align aligned.0 (omega arith) in
      let rest = place_sections-Pass k base (at + s.size) ss aligned.1 (omega arith) in
      rw (place_section_takes k base lo s aligned.0 takes (omega arith)) record {
        packed = rw takes (above, multiple, refl, rest.packed);
        short = rw takes (omega (arith, rest.short));
        forward = omega (arith, rest.forward);
      }
  | inr skips ↦
      let rest = place_sections-Pass k base lo ss aligned.1 (rw skips at room) in
      rw (place_section_skips k base lo s skips) record {
        packed = rw skips rest.packed;
        short = rw skips rest.short;
        forward = rest.forward;
      }
]
