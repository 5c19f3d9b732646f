-- ===== src/Mlink/Emit/Disjoint.antt =====
-- tools/dev/mlink/emit.c: sections that each lie in the range of their kind, packed there, share no
-- byte of the file.
use one_tool.Common.{
  ℕ, ◌+◌, ◌%◌, ◌≤◌, ◌≡◌, ◌⊎◌, inl, inr, true, false, List, [], ◌∷◌, arith, All, Bool-cases,
}
use one_tool.Mlink.Types.{SectionKind, kind_eq, Section}
use one_tool.Mlink.Layout.{takes_part}
use one_tool.Mlink.Layout.Packing.{kept, Packed, Packed-lower}
use one_tool.Mlink.Emit.{is_copied}
use one_tool.Mlink.Emit.Contents.{copied_of, Apart, AllApart}
use one_tool.Mlink.Emit.Filed.{holds_bytes, IsRead, copied-takes_part}

pub Packed-le : (base lo hi : ℕ) (ss : List Section) → Packed base lo hi ss → lo ≤ hi
Packed-le base lo hi [] p = p
Packed-le base lo hi (s ∷ ss) p =
    omega (arith, p.0, Packed-le base (s.out_offset + s.size) hi ss p.3)

Packed-rest :
    (k : SectionKind) (base lo hi : ℕ) (s : Section) (ss : List Section)
    → Packed base lo hi (kept k (s ∷ ss))
    → Packed base lo hi (kept k ss)
Packed-rest k base lo hi s ss p = elim (Bool-cases (takes_part k s)) [
  | inl e ↦
      let q : Packed base lo hi (s ∷ kept k ss) = rw e at p in
      Packed-lower base lo (s.out_offset + s.size) hi (kept k ss) (omega (arith, q.0)) q.3
  | inr e ↦ rw e at p
]

-- The sections of a kind are packed into a range that misses the bytes from `p` up to `q`.
Misses : (base p q : ℕ) → List Section → SectionKind → Type 0
Misses base p q ss k = (lo : ℕ) × (hi : ℕ) × Packed base lo hi (kept k ss) × ((hi ≤ p) ⊎ (q ≤ lo))

Misses-rest :
    (base p q : ℕ) (s : Section) (ss : List Section) (k : SectionKind)
    → Misses base p q (s ∷ ss) k
    → Misses base p q ss k
unfolding Misses
Misses-rest base p q s ss k (lo, hi, packed, apart) =
    (lo, hi, Packed-rest k base lo hi s ss packed, apart)

Misses-first :
    (base p q : ℕ) (s : Section) (ss : List Section) (k : SectionKind)
    → takes_part k s ≡ true
    → Misses base p q (s ∷ ss) k
    → (s.out_offset + s.size ≤ p) ⊎ (q ≤ s.out_offset)
unfolding Misses
Misses-first base p q s ss k e (lo, hi, packed, apart) =
    let mine : Packed base lo hi (s ∷ kept k ss) = rw e at packed in
    let below = Packed-le base (s.out_offset + s.size) hi (kept k ss) mine.3 in
    omega (arith, mine.0, apart)

copied-Misses :
    (base p q : ℕ) (ss : List Section)
    → ((k : SectionKind) → holds_bytes k ≡ true → Misses base p q ss k)
    → All IsRead ss
    → All (λ t. (t.out_offset + t.file_size ≤ p) ⊎ (q ≤ t.out_offset)) (copied_of ss)
unfolding copied_of
copied-Misses base p q [] h r = tt
copied-Misses base p q (s ∷ ss) h r =
    let rest = copied-Misses base p q ss (λ k b. Misses-rest base p q s ss k (h k b)) r.1 in
    elim (Bool-cases (is_copied s)) [
      | inl e ↦ rw e (
        omega (
          arith,
          r.0.sized e,
          Misses-first base p q s ss s.kind (copied-takes_part s r.0 e) (h s.kind (r.0.filed e)),
        ),
        rest,
      )
      | inr e ↦ rw e rest
    ]

-- Where the sections of each kind are packed into a range of their own.
pub record IsSorted (base : ℕ) (lo hi : SectionKind → ℕ) (ss : List Section) : Type 0 where
  pub packed : (k : SectionKind) → holds_bytes k ≡ true → Packed base (lo k) (hi k) (kept k ss)
  pub apart :
      (k k' : SectionKind)
      → holds_bytes k ≡ true
      → holds_bytes k' ≡ true
      → kind_eq k k' ≡ false
      → (hi k ≤ lo k') ⊎ (hi k' ≤ lo k)

IsSorted-rest :
    (base : ℕ) (lo hi : SectionKind → ℕ) (s : Section) (ss : List Section)
    → IsSorted base lo hi (s ∷ ss)
    → IsSorted base lo hi ss
IsSorted-rest base lo hi s ss h = record {
  packed = λ k b. Packed-rest k base (lo k) (hi k) s ss (h.packed k b);
  apart = h.apart;
}

kind_eq-eq : (a b : SectionKind) → kind_eq a b ≡ true → a ≡ b
unfolding kind_eq
kind_eq-eq a b h = ground arith

module _ (base : ℕ) (lo hi : SectionKind → ℕ) (s : Section) (ss : List Section)
    (sorted : IsSorted base lo hi (s ∷ ss)) (read : IsRead s) (e : is_copied s ≡ true) where
  placed :
      (lo s.kind ≤ s.out_offset)
      × (s.out_offset % s.align ≡ 0)
      × (s.out_addr ≡ base + s.out_offset)
      × Packed base (s.out_offset + s.size) (hi s.kind) (kept s.kind ss)
  placed = rw (copied-takes_part s read e) at (sorted.packed s.kind (read.filed e))

  first-Misses :
      (k : SectionKind)
      → holds_bytes k ≡ true
      → Misses base s.out_offset (s.out_offset + s.size) ss k
  unfolding Misses
  first-Misses k b = elim (Bool-cases (kind_eq s.kind k)) [
    | inl same ↦ (
      s.out_offset + s.size,
      hi s.kind,
      rw (← kind_eq-eq s.kind k same) placed.3,
      inr (omega arith),
    )
    | inr other ↦ (
      lo k,
      hi k,
      Packed-rest k base (lo k) (hi k) s ss (sorted.packed k b),
      omega (
        arith,
        placed.0,
        Packed-le base (s.out_offset + s.size) (hi s.kind) (kept s.kind ss) placed.3,
        sorted.apart s.kind k (read.filed e) b other,
      ),
    )
  ]

All-map {ℓ κ} :
    (P : Section → Type ℓ) (Q : Section → Type κ) (ss : List Section)
    → ((s : Section) → P s → Q s)
    → All P ss
    → All Q ss
All-map P Q [] f h = tt
All-map P Q (s ∷ ss) f h = (f s h.0, All-map P Q ss f h.1)

-- No two copied sections share a byte.
pub copied_of-AllApart :
    (base : ℕ) (lo hi : SectionKind → ℕ) (ss : List Section)
    → IsSorted base lo hi ss
    → All IsRead ss
    → AllApart (copied_of ss)
unfolding copied_of AllApart Apart
copied_of-AllApart base lo hi [] h r = tt
copied_of-AllApart base lo hi (s ∷ ss) h r =
    let rest = copied_of-AllApart base lo hi ss (IsSorted-rest base lo hi s ss h) r.1 in
    elim (Bool-cases (is_copied s)) [
      | inl e ↦ rw e (
        All-map
            (λ t.
              (t.out_offset + t.file_size ≤ s.out_offset) ⊎ (s.out_offset + s.size ≤ t.out_offset))
            (Apart s) (copied_of ss) (λ t m. omega (arith, r.0.sized e, m))
            (copied-Misses base s.out_offset (s.out_offset + s.size) ss
              (first-Misses base lo hi s ss h r.0 e) r.1),
        rest,
      )
      | inr e ↦ rw e rest
    ]

-- The section is aligned, and its address is that of its place in the file.
unfoldable pub IsPlaced : (base : ℕ) → Section → Type 0
IsPlaced base s = (s.out_offset % s.align ≡ 0) × (s.out_addr ≡ base + s.out_offset)

pub copied_of-IsPlaced :
    (base : ℕ) (lo hi : SectionKind → ℕ) (ss : List Section)
    → IsSorted base lo hi ss
    → All IsRead ss
    → All (IsPlaced base) (copied_of ss)
unfolding copied_of IsPlaced
copied_of-IsPlaced base lo hi [] h r = tt
copied_of-IsPlaced base lo hi (s ∷ ss) h r =
    let rest = copied_of-IsPlaced base lo hi ss (IsSorted-rest base lo hi s ss h) r.1 in
    elim (Bool-cases (is_copied s)) [
      | inl e ↦ let p = placed base lo hi s ss h r.0 e in rw e ((p.1, p.2), rest)
      | inr e ↦ rw e rest
    ]
