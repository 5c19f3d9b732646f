-- ===== src/Mlink/Emit/Filed.antt =====
-- tools/dev/mlink/emit.c on a laid out context: the copied sections are those that the passes of
-- layout.c placed, so no two of them share a byte of the file.
use one_tool.Common.{
  ◌≡◌, refl, ap, inl, inr, Bool, true, false, List, [], ◌∷◌, ◌++◌, arith, All, Bool-cases,
  if◌then◌else◌,
}
use one_tool.Mlink.Types.{
  SectionKind, sec_skip, sec_text, sec_rodata, sec_data, sec_bss, kind_eq, Section, Object, IsWhole,
}
use one_tool.Mlink.Layout.{takes_part}
use one_tool.Mlink.Layout.Packing.{kept, kept_of}
use one_tool.Mlink.Emit.{is_copied}
use one_tool.Mlink.Emit.Contents.{copied_of, copied}

-- The kinds with bytes in the file.
unfoldable pub holds_bytes : SectionKind → Bool
holds_bytes sec_text = true
holds_bytes sec_rodata = true
holds_bytes sec_data = true
holds_bytes _ = false

-- What the object reader sees to: the image has the size that the section claims, and a section
-- that goes into the file is of a kind with bytes and takes up as much memory as its bytes.
pub record IsRead (s : Section) : Type 0 where
  pub whole : IsWhole s
  pub sized : is_copied s ≡ true → s.size ≡ s.file_size
  pub filed : is_copied s ≡ true → holds_bytes s.kind ≡ true

abbrev pub AreRead : List Object → Type 0
AreRead objs = All (λ (obj : Object). All IsRead obj.sections) objs

-- The sections of the selected objects, in order.
unfoldable pub sections_of : List Object → List Section
sections_of [] = []
sections_of (obj ∷ objs) =
    if obj.selected then obj.sections ++ sections_of objs else sections_of objs

kept-append : (k : SectionKind) (xs ys : List Section) → kept k (xs ++ ys) ≡ kept k xs ++ kept k ys
kept-append k [] ys = refl
kept-append k (x ∷ xs) ys = elim (Bool-cases (takes_part k x)) [
  | inl e ↦ rw e (ap (λ t. x ∷ t) (kept-append k xs ys))
  | inr e ↦ rw e (kept-append k xs ys)
]

copied_of-append : (xs ys : List Section) → copied_of (xs ++ ys) ≡ copied_of xs ++ copied_of ys
unfolding copied_of
copied_of-append [] ys = refl
copied_of-append (x ∷ xs) ys = elim (Bool-cases (is_copied x)) [
  | inl e ↦ rw e (ap (λ t. x ∷ t) (copied_of-append xs ys))
  | inr e ↦ rw e (copied_of-append xs ys)
]

pub kept-sections_of :
    (k : SectionKind) (objs : List Object) → kept k (sections_of objs) ≡ kept_of k objs
unfolding sections_of
kept-sections_of k [] = refl
kept-sections_of k (obj ∷ objs) = elim (Bool-cases obj.selected) [
  | inl on ↦ rw (on, kept-append k obj.sections (sections_of objs), kept-sections_of k objs) refl
  | inr off ↦ rw off (kept-sections_of k objs)
]

pub copied_of-sections_of : (objs : List Object) → copied_of (sections_of objs) ≡ copied objs
unfolding sections_of copied
copied_of-sections_of [] = unfold copied_of in refl
copied_of-sections_of (obj ∷ objs) = elim (Bool-cases obj.selected) [
  | inl on ↦
      rw (on, copied_of-append obj.sections (sections_of objs), copied_of-sections_of objs) refl
  | inr off ↦ rw off (copied_of-sections_of objs)
]

All-append {ℓ} :
    (P : Section → Type ℓ) (xs ys : List Section) → All P xs → All P ys → All P (xs ++ ys)
All-append P [] ys p q = q
All-append P (x ∷ xs) ys p q = (p.0, All-append P xs ys p.1 q)

pub sections_of-IsRead : (objs : List Object) → AreRead objs → All IsRead (sections_of objs)
unfolding sections_of
sections_of-IsRead [] r = tt
sections_of-IsRead (obj ∷ objs) r = elim (Bool-cases obj.selected) [
  | inl on ↦
      rw on (All-append IsRead obj.sections (sections_of objs) r.0 (sections_of-IsRead objs r.1))
  | inr off ↦ rw off (sections_of-IsRead objs r.1)
]

pub copied_of-IsWhole : (ss : List Section) → All IsRead ss → All IsWhole (copied_of ss)
unfolding copied_of
copied_of-IsWhole [] r = tt
copied_of-IsWhole (s ∷ ss) r = elim (Bool-cases (is_copied s)) [
  | inl e ↦ rw e (r.0.whole, copied_of-IsWhole ss r.1)
  | inr e ↦ rw e (copied_of-IsWhole ss r.1)
]

kind_eq_refl : (k : SectionKind) → kind_eq k k ≡ true
unfolding kind_eq
kind_eq_refl sec_skip = refl
kind_eq_refl sec_text = refl
kind_eq_refl sec_rodata = refl
kind_eq_refl sec_data = refl
kind_eq_refl sec_bss = refl

-- The section that the reader leaves with bytes takes part in the pass over its own kind.
pub copied-takes_part : (s : Section) → IsRead s → is_copied s ≡ true → takes_part s.kind s ≡ true
unfolding is_copied
copied-takes_part s r e = ground (arith, r.sized e, kind_eq_refl s.kind)
