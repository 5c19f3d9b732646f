-- ===== src/Mlink/Layout/Objects.antt =====
-- A pass over all objects: what it packs, and what it leaves alone.
use one_tool.Common.{
  ℕ, ◌+◌, ◌^◌, ◌≤◌, ◌<◌, ◌≡◌, refl, ap, inl, inr, true, false, List, [], ◌∷◌, ◌++◌, arith,
  Bool-cases, All,
}
use one_tool.Mlink.Types.{SectionKind, kind_eq, Section, Object}
use one_tool.Mlink.Layout.{takes_part, place_section, place_sections, place_object, place_objects}
use one_tool.Mlink.Layout.Packing.{
  kept, kept_of, Packed, Packed-append, demand, AreAligned, place_sections-Pass,
}

demand-append : (xs ys : List Section) → demand (xs ++ ys) ≡ demand xs + demand ys
demand-append [] ys = omega arith
demand-append (x ∷ xs) ys = omega (arith, demand-append xs ys)

pub record PassOf (k : SectionKind) (base lo : ℕ) (objs : List Object) (r : ℕ × List Object)
    : Type 0 where
  pub packed : Packed base lo r.0 (kept_of k r.1)
  pub short : r.0 ≤ lo + demand (kept_of k objs)
  pub forward : lo ≤ r.0

pub place_objects-PassOf :
    (k : SectionKind) (base lo : ℕ) (objs : List Object)
    → AreAligned objs
    → base + lo + demand (kept_of k objs) < 2 ^ 64
    → PassOf k base lo objs (place_objects k base lo objs)
unfolding place_objects place_object
place_objects-PassOf k base lo [] aligned room = omega arith
place_objects-PassOf k base lo (obj ∷ objs) aligned room = elim (Bool-cases obj.selected) [
  | inl on ↦
      let sum = demand-append (kept k obj.sections) (kept_of k objs) in
      let spent : base + lo + demand (kept k obj.sections ++ kept_of k objs) < 2 ^ 64 =
        rw on at room in
      let (next, ss) = place_sections k base lo obj.sections in
      let here = place_sections-Pass k base lo obj.sections aligned.0 (omega (arith, sum)) in
      let rest = place_objects-PassOf k base next objs aligned.1 (omega (arith, sum, here.short)) in
      rw on record {
        packed =
            Packed-append base lo next (place_objects k base next objs).0 (kept k ss)
              (kept_of k (place_objects k base next objs).1) here.packed rest.packed;
        short = omega (arith, sum, here.short, rest.short);
        forward = omega (arith, here.forward, rest.forward);
      }
  | inr off ↦
      let rest = place_objects-PassOf k base lo objs aligned.1 (rw off at room) in
      rw off record { packed = rest.packed; short = rest.short; forward = rest.forward }
]

kind_eq-eq : (a b : SectionKind) → kind_eq a b ≡ true → a ≡ b
unfolding kind_eq
kind_eq-eq a b h = ground arith

takes_one :
    (k k' : SectionKind) (s : Section)
    → kind_eq k k' ≡ false
    → takes_part k s ≡ true
    → takes_part k' s ≡ false
takes_one k k' s apart takes = ground (arith, kind_eq-eq s.kind k)

module _ (k k' : SectionKind) (apart : kind_eq k k' ≡ false) where
  kept-place_sections :
      (ss : List Section) (base lo : ℕ) → kept k' (place_sections k base lo ss).1 ≡ kept k' ss
  unfolding place_sections place_section
  kept-place_sections [] base lo = refl
  kept-place_sections (s ∷ ss) base lo = elim (Bool-cases (takes_part k s)) [
    | inl takes ↦ rw (takes, takes_one k k' s apart takes) (kept-place_sections ss base _)
    | inr skips ↦ rw (skips, kept-place_sections ss base lo)
  ]

  -- A pass over one kind leaves the sections of another as they were.
  pub kept_of-place_objects :
      (objs : List Object) (base lo : ℕ)
      → kept_of k' (place_objects k base lo objs).1 ≡ kept_of k' objs
  unfolding place_objects place_object
  kept_of-place_objects [] base lo = refl
  kept_of-place_objects (obj ∷ objs) base lo = elim (Bool-cases obj.selected) [
    | inl on ↦
        rw (on, kept-place_sections obj.sections base lo)
          (ap (λ t. kept k' obj.sections ++ t) (kept_of-place_objects objs base _))
    | inr off ↦ rw off (kept_of-place_objects objs base lo)
  ]

-- What does not depend on where a section goes stays true of every section.
module _ (P : Section → Type 0)
    (moves : (s : Section) (off addr : ℕ)
      → P s
      → P (record s { out_offset = off; out_addr = addr })) where
  All-place_sections :
      (k : SectionKind) (ss : List Section) (base lo : ℕ)
      → All P ss
      → All P (place_sections k base lo ss).1
  unfolding place_sections place_section
  All-place_sections k [] base lo h = tt
  All-place_sections k (s ∷ ss) base lo h = elim (Bool-cases (takes_part k s)) [
    | inl takes ↦ rw takes (moves s _ _ h.0, All-place_sections k ss base _ h.1)
    | inr skips ↦ rw skips (h.0, All-place_sections k ss base lo h.1)
  ]

  pub place_objects-All :
      (k : SectionKind) (objs : List Object) (base lo : ℕ)
      → All (λ (obj : Object). All P obj.sections) objs
      → All (λ (obj : Object). All P obj.sections) (place_objects k base lo objs).1
  unfolding place_objects place_object
  place_objects-All k [] base lo h = tt
  place_objects-All k (obj ∷ objs) base lo h = elim (Bool-cases obj.selected) [
    | inl on ↦
        rw on (All-place_sections k obj.sections base lo h.0, place_objects-All k objs base _ h.1)
    | inr off ↦ rw off (h.0, place_objects-All k objs base lo h.1)
  ]

pub place_objects-AreAligned :
    (k : SectionKind) (objs : List Object) (base lo : ℕ)
    → AreAligned objs
    → AreAligned (place_objects k base lo objs).1
place_objects-AreAligned = place_objects-All (λ (s : Section). 0 < s.align) (λ s off addr h. h)
