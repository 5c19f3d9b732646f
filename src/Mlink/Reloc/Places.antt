-- ===== src/Mlink/Reloc/Places.antt =====
-- tools/dev/mlink/reloc.c: what it means that nothing was moved or resized, and what follows for
-- the sections that emit.c copies.
use one_tool.Common.{
  ℕ, zero, suc, List, [], ◌∷◌, ◌++◌, some, set, length, get_elem?, ◌≡◌, refl, ◌∙◌, inl, inr, arith,
  All, Bool-cases,
}
use one_tool.Mlink.Types.{Section, Object, IsWhole}
use one_tool.Mlink.Emit.{is_copied}
use one_tool.Mlink.Emit.Contents.{copied_of, copied, Apart, AllApart}
use one_tool.Mlink.Emit.Disjoint.{IsPlaced}

-- The place of a section in the file and in memory, its size and what it is.
unfoldable pub SamePlace : Section → Section → Type 0
SamePlace s t =
    (s.out_offset ≡ t.out_offset)
    × (s.out_addr ≡ t.out_addr)
    × (s.file_size ≡ t.file_size)
    × (length s.image ≡ length t.image)
    × (s.kind ≡ t.kind)
    × (s.type ≡ t.type)
    × (s.align ≡ t.align)

-- Section by section, in order.
unfoldable pub SamePlaces : List Section → List Section → Type 0
SamePlaces [] [] = Unit {0}
SamePlaces [] (t ∷ ts) = ⊥
SamePlaces (s ∷ ss) [] = ⊥
SamePlaces (s ∷ ss) (t ∷ ts) = SamePlace s t × SamePlaces ss ts

pub SamePlace-refl : (s : Section) → SamePlace s s
unfolding SamePlace
SamePlace-refl s = (refl, refl, refl, refl, refl, refl, refl)

SamePlace-trans : (s t u : Section) → SamePlace s t → SamePlace t u → SamePlace s u
unfolding SamePlace
SamePlace-trans s t u (a, b, c, d, e, f, g) (a', b', c', d', e', f', g') =
    (a ∙ a', b ∙ b', c ∙ c', d ∙ d', e ∙ e', f ∙ f', g ∙ g')

pub SamePlaces-refl : (ss : List Section) → SamePlaces ss ss
unfolding SamePlaces
SamePlaces-refl [] = tt
SamePlaces-refl (s ∷ ss) = (SamePlace-refl s, SamePlaces-refl ss)

pub SamePlaces-trans :
    (ss ts us : List Section) → SamePlaces ss ts → SamePlaces ts us → SamePlaces ss us
unfolding SamePlaces
SamePlaces-trans [] [] [] p q = tt
SamePlaces-trans [] [] (u ∷ us) p q = q
SamePlaces-trans [] (t ∷ ts) us p q = absurd p
SamePlaces-trans (s ∷ ss) [] us p q = absurd p
SamePlaces-trans (s ∷ ss) (t ∷ ts) [] p q = q
SamePlaces-trans (s ∷ ss) (t ∷ ts) (u ∷ us) (p, ps) (q, qs) =
    (SamePlace-trans s t u p q, SamePlaces-trans ss ts us ps qs)

pub set-SamePlaces :
    (ss : List Section) (i : ℕ) (s t : Section)
    → get_elem? ss i ≡ some s
    → SamePlace s t
    → SamePlaces ss (set ss i t)
unfolding SamePlaces
set-SamePlaces [] i s t h p = tt
set-SamePlaces (x ∷ ss) zero s t h p =
    let same : x ≡ s = ground arith in (rw same p, SamePlaces-refl ss)
set-SamePlaces (x ∷ ss) (suc i) s t h p = (SamePlace-refl x, set-SamePlaces ss i s t h p)

pub SamePlaces-IsWhole : (ss ts : List Section) → SamePlaces ss ts → All IsWhole ss → All IsWhole ts
unfolding SamePlaces SamePlace IsWhole
SamePlaces-IsWhole [] [] p w = tt
SamePlaces-IsWhole [] (t ∷ ts) p w = absurd p
SamePlaces-IsWhole (s ∷ ss) [] p w = absurd p
SamePlaces-IsWhole (s ∷ ss) (t ∷ ts) (p, ps) (w, ws) =
    (omega (arith, p.2, p.3, w), SamePlaces-IsWhole ss ts ps ws)

-- Object by object, in order.
unfoldable pub SameLayout : List Object → List Object → Type 0
SameLayout [] [] = Unit {0}
SameLayout [] (b ∷ bs) = ⊥
SameLayout (a ∷ more) [] = ⊥
SameLayout (a ∷ more) (b ∷ bs) =
    (a.selected ≡ b.selected) × SamePlaces a.sections b.sections × SameLayout more bs

pub SamePlaces-append :
    (ss ts us vs : List Section)
    → SamePlaces ss ts
    → SamePlaces us vs
    → SamePlaces (ss ++ us) (ts ++ vs)
unfolding SamePlaces
SamePlaces-append [] [] us vs p q = q
SamePlaces-append [] (t ∷ ts) us vs p q = absurd p
SamePlaces-append (s ∷ ss) [] us vs p q = absurd p
SamePlaces-append (s ∷ ss) (t ∷ ts) us vs (p, ps) q = (p, SamePlaces-append ss ts us vs ps q)

is_copied_same : (s t : Section) → SamePlace s t → is_copied s ≡ is_copied t
unfolding SamePlace is_copied
is_copied_same s t (_, _, size, _, kind, type, _) = rw (size, kind, type) refl

pub copied_of-SamePlaces :
    (ss ts : List Section) → SamePlaces ss ts → SamePlaces (copied_of ss) (copied_of ts)
unfolding SamePlaces copied_of
copied_of-SamePlaces [] [] p = tt
copied_of-SamePlaces [] (t ∷ ts) p = absurd p
copied_of-SamePlaces (s ∷ ss) [] p = absurd p
copied_of-SamePlaces (s ∷ ss) (t ∷ ts) (p, ps) =
    let same = is_copied_same s t p in
    elim (Bool-cases (is_copied t)) [
      | inl e ↦ rw (same, e) (p, copied_of-SamePlaces ss ts ps)
      | inr e ↦ rw (same, e) (copied_of-SamePlaces ss ts ps)
    ]

pub copied-SamePlaces :
    (xs ys : List Object) → SameLayout xs ys → SamePlaces (copied xs) (copied ys)
unfolding SameLayout copied
copied-SamePlaces [] [] p = unfold SamePlaces in tt
copied-SamePlaces [] (b ∷ bs) p = absurd p
copied-SamePlaces (a ∷ xs) [] p = absurd p
copied-SamePlaces (a ∷ xs) (b ∷ ys) (on, p, ps) = elim (Bool-cases b.selected) [
  | inl e ↦
      rw (on, e)
        (SamePlaces-append (copied_of a.sections) (copied_of b.sections) (copied xs) (copied ys)
          (copied_of-SamePlaces a.sections b.sections p) (copied-SamePlaces xs ys ps))
  | inr e ↦ rw (on, e) (copied-SamePlaces xs ys ps)
]

Apart-same :
    (s t : Section) (us vs : List Section)
    → SamePlace s t
    → SamePlaces us vs
    → All (Apart s) us
    → All (Apart t) vs
unfolding SamePlace SamePlaces Apart
Apart-same s t [] [] p q h = tt
Apart-same s t [] (v ∷ vs) p q h = absurd q
Apart-same s t (u ∷ us) [] p q h = absurd q
Apart-same s t (u ∷ us) (v ∷ vs) p (q, qs) (h, hs) = (omega arith, Apart-same s t us vs p qs hs)

pub SamePlaces-AllApart : (ss ts : List Section) → SamePlaces ss ts → AllApart ss → AllApart ts
unfolding SamePlaces AllApart
SamePlaces-AllApart [] [] p h = tt
SamePlaces-AllApart [] (t ∷ ts) p h = absurd p
SamePlaces-AllApart (s ∷ ss) [] p h = absurd p
SamePlaces-AllApart (s ∷ ss) (t ∷ ts) (p, ps) (h, hs) =
    (Apart-same s t ss ts p ps h, SamePlaces-AllApart ss ts ps hs)

pub SamePlaces-IsPlaced :
    (base : ℕ) (ss ts : List Section)
    → SamePlaces ss ts
    → All (IsPlaced base) ss
    → All (IsPlaced base) ts
unfolding SamePlaces SamePlace IsPlaced
SamePlaces-IsPlaced base [] [] p h = tt
SamePlaces-IsPlaced base [] (t ∷ ts) p h = absurd p
SamePlaces-IsPlaced base (s ∷ ss) [] p h = absurd p
SamePlaces-IsPlaced base (s ∷ ss) (t ∷ ts) (p, ps) (h, hs) =
    let (off, addr, _, _, _, _, align) = p in
    ((rw (← off, ← align) h.0, rw (← off, ← addr) h.1), SamePlaces-IsPlaced base ss ts ps hs)
