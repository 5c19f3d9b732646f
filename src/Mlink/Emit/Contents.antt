-- ===== src/Mlink/Emit/Contents.antt =====
-- tools/dev/mlink/emit.c: the sections' bytes in the output.
use one_tool.Common.{
  ℕ, ◌+◌, ◌-◌, ◌≤◌, ◌<◌, List, [], ◌∷◌, ◌++◌, Option, none, some, ◌≡◌, refl, ap, ◌∙◌, ◌⊎◌, inl, inr,
  arith, length, All, Bool-cases, Option-cases, if◌then◌else◌, ltb, ◌||◌,
}
use one_tool.Mlink.Bytes.{Buffer, get8, copy}
use one_tool.Mlink.Bytes.Frame.{KeepsOutside, copy_keeps, get8-copy}
use one_tool.Mlink.Types.{Section, Object, IsWhole}
use one_tool.Mlink.Emit.{is_copied, copy_section, copy_object, copy_sections}

-- The sections that `copy_sections` copies, in its order.
unfoldable pub copied_of : List Section → List Section
copied_of [] = []
copied_of (s ∷ ss) = if is_copied s then s ∷ copied_of ss else copied_of ss

unfoldable pub copied : List Object → List Section
copied [] = []
copied (obj ∷ objs) = if obj.selected then copied_of obj.sections ++ copied objs else copied objs

-- The loops as one loop over those sections.
unfoldable pub copy_all : List Section → (out_size : ℕ) → Buffer → Option Buffer
copy_all [] size out = some out
copy_all (s ∷ ss) size out =
    if ltb size s.out_offset || ltb (size - s.out_offset) s.file_size
    then none
    else copy_all ss size (copy s.image out s.out_offset)

pub Fits : ℕ → Section → Type 0
Fits size s = s.out_offset + s.file_size ≤ size

-- No byte of the file belongs to both.
unfoldable pub Apart : Section → Section → Type 0
Apart s t =
    (s.out_offset + s.file_size ≤ t.out_offset) ⊎ (t.out_offset + t.file_size ≤ s.out_offset)

unfoldable pub AllApart : List Section → Type 0
AllApart [] = Unit
AllApart (s ∷ ss) = All (Apart s) ss × AllApart ss

-- The section's bytes stand in the file where the layout put them.
pub StandsIn : Buffer → Section → Type 0
StandsIn out s = (j : ℕ) → j < s.file_size → get8 out (s.out_offset + j) ≡ get8 s.image j

copy_object-all :
    (ss rest : List Section) (size : ℕ) (out : Buffer)
    → copy_all (copied_of ss ++ rest) size out
      ≡ elim (copy_object ss size out) [ none ↦ none | some mid ↦ copy_all rest size mid ]
unfolding copied_of copy_all copy_object copy_section
copy_object-all [] rest size out = refl
copy_object-all (s ∷ ss) rest size out = elim (Bool-cases (is_copied s)) [
  | inl e ↦ elim (Bool-cases (ltb size s.out_offset || ltb (size - s.out_offset) s.file_size)) [
    | inl e' ↦ rw (e, e') refl
    | inr e' ↦ rw (e, e') (copy_object-all ss rest size (copy s.image out s.out_offset))
  ]
  | inr e ↦ rw e (copy_object-all ss rest size out)
]

pub copy_sections-all :
    (objs : List Object) (size : ℕ) (out : Buffer)
    → copy_sections objs size out ≡ copy_all (copied objs) size out
unfolding copied copy_all copy_sections
copy_sections-all [] size out = refl
copy_sections-all (obj ∷ objs) size out = elim (Bool-cases obj.selected) [
  | inl e ↦ elim (Option-cases (copy_object obj.sections size out)) [
    | inl e' ↦ rw (copy_sections, e, copy_object-all obj.sections (copied objs) size out, e') refl
    | inr (mid, e') ↦
        rw (copy_sections, e, copy_object-all obj.sections (copied objs) size out, e')
          (copy_sections-all objs size mid)
  ]
  | inr e ↦ rw e (copy_sections-all objs size out)
]

copy_all_step :
    (s : Section) (ss : List Section) (size : ℕ) (out out' : Buffer)
    → copy_all (s ∷ ss) size out ≡ some out'
    → Fits size s × (copy_all ss size (copy s.image out s.out_offset) ≡ some out')
unfolding copy_all Fits
copy_all_step s ss size out out' h = (ground arith, ground arith)

-- Bytes that belong to no copied section are left as they were.
pub copy_all-outside :
    (ss : List Section) (size : ℕ) (out out' : Buffer) (j : ℕ)
    → copy_all ss size out ≡ some out'
    → All IsWhole ss
    → All (λ s. (j < s.out_offset) ⊎ (s.out_offset + s.file_size ≤ j)) ss
    → get8 out' j ≡ get8 out j
unfolding copy_all IsWhole KeepsOutside
copy_all-outside [] size out out' j h whole o = ap (λ b. get8 b j) (ground arith)
copy_all-outside (s ∷ ss) size out out' j h whole o =
    let (fits, rest) = copy_all_step s ss size out out' h in
    let (_, kept) = copy_keeps s.image out s.out_offset in
    copy_all-outside ss size (copy s.image out s.out_offset) out' j rest whole.1 o.1
    ∙ kept j (omega (arith, whole.0, o.0))

misses :
    (s : Section) (j : ℕ)
    → j < s.file_size
    → (ss : List Section) → All (Apart s) ss
    → All
        (λ t. (s.out_offset + j < t.out_offset) ⊎ (t.out_offset + t.file_size ≤ s.out_offset + j))
        ss
unfolding Apart
misses s j hj [] a = tt
misses s j hj (t ∷ ss) a = (omega (arith, a.0), misses s j hj ss a.1)

-- Every section stands in the file once its own copy is made and later ones miss it.
pub copy_all-StandsIn :
    (ss : List Section) (size : ℕ) (out out' : Buffer)
    → copy_all ss size out ≡ some out'
    → size ≤ length out
    → All IsWhole ss
    → AllApart ss
    → All (StandsIn out') ss
unfolding AllApart StandsIn IsWhole Fits KeepsOutside
copy_all-StandsIn [] size out out' h room whole apart = tt
copy_all-StandsIn (s ∷ ss) size out out' h room whole apart =
    let (fits, rest) = copy_all_step s ss size out out' h in
    let (same, _) = copy_keeps s.image out s.out_offset in
    (
      λ j hj.
          copy_all-outside ss size (copy s.image out s.out_offset) out' (s.out_offset + j) rest
            whole.1 (misses s j hj ss apart.0)
          ∙ get8-copy s.image out s.out_offset j (omega (arith, whole.0)) (omega (arith, whole.0)),
      copy_all-StandsIn ss size (copy s.image out s.out_offset) out' rest (omega arith) whole.1
          apart.1,
    )
