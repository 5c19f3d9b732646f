-- ===== src/Mlink/Reloc/Apply.antt =====
-- tools/dev/mlink/reloc.c: `ml_apply_relocations` over all objects.
use one_tool.Common.{
  ℕ, zero, suc, ◌+◌, List, [], ◌∷◌, Option, none, some, get_elem?, ◌≡◌, refl, sym, ◌∙◌, inl, inr,
  arith, All, Option-cases, Bool-cases, ◌==◌, if◌then◌else◌,
}
use one_tool.Mlink.Types.{Section, Reloc, Object, Global, Context, IsWhole, sec_skip, kind_eq}
use one_tool.Mlink.Bytes.{Buffer}
use one_tool.Mlink.Bytes.Frame.{KeepsOutside}
use one_tool.Mlink.Reloc.{Outcome, overflowed, refused, patched, patch_reloc}
use one_tool.Mlink.Reloc.Rounds.{
  apply_reloc, apply_relocs, apply_objects, apply_relocations, with_image,
}
use one_tool.Mlink.Reloc.Places.{
  SamePlace, SamePlaces, SamePlaces-refl, SamePlaces-trans, SamePlaces-IsWhole, set-SamePlaces,
  SameLayout,
}
use one_tool.Mlink.Reloc.Whole.{after, patch_reloc-KeepsOutside}

All-get_elem? :
    (ss : List Section) (i : ℕ) (s : Section) → All IsWhole ss → get_elem? ss i ≡ some s → IsWhole s
All-get_elem? [] i s w h = absurd (ground arith)
All-get_elem? (x ∷ ss) zero s (w, ws) h = let same : x ≡ s = ground arith in rw (← same) w
All-get_elem? (x ∷ ss) (suc i) s (w, ws) h = All-get_elem? ss i s ws h

patched_place :
    (gs : List Global) (obj : Object) (sec : Section) (rel : Reloc) (image : Buffer)
    → IsWhole sec
    → after sec.image (patch_reloc gs obj sec rel) ≡ image
    → SamePlace sec (record sec { image = image })
unfolding SamePlace IsWhole KeepsOutside
patched_place gs obj sec rel image whole h =
    let ((same, _), _) = patch_reloc-KeepsOutside gs obj sec rel whole in
    (refl, refl, refl, sym (rw (← h) same), refl, refl, refl)

-- The context of a round is rebuilt from the outcome of its patch.
module _ (gs : List Global) (obj : Object) (sec : Section) (rel : Reloc) where
  rebuilt : Outcome → Option (ℕ × Object)
  rebuilt o = elim o [
    | overflowed ↦ none
    | refused image ↦ some (1, with_image obj rel.target_section sec image)
    | patched image ↦ some (0, with_image obj rel.target_section sec image)
  ]

  rebuilt-SamePlaces :
      (o : Outcome) (r : ℕ × Object)
      → IsWhole sec
      → get_elem? obj.sections rel.target_section ≡ some sec
      → patch_reloc gs obj sec rel ≡ o
      → rebuilt o ≡ some r
      → SamePlaces obj.sections r.1.sections
  unfolding rebuilt after
  rebuilt-SamePlaces overflowed r whole e h got = cc
  rebuilt-SamePlaces (refused image) r whole e h got =
      let same : (1, with_image obj rel.target_section sec image) ≡ r = ground arith in
      rw (← same) (
        set-SamePlaces obj.sections rel.target_section sec (record sec { image = image }) e
          (patched_place gs obj sec rel image whole (rw h refl)))
  rebuilt-SamePlaces (patched image) r whole e h got =
      let same : (0, with_image obj rel.target_section sec image) ≡ r = ground arith in
      rw (← same) (
        set-SamePlaces obj.sections rel.target_section sec (record sec { image = image }) e
          (patched_place gs obj sec rel image whole (rw h refl)))

apply_reloc-SamePlaces :
    (gs : List Global) (obj : Object) (rel : Reloc) (r : ℕ × Object)
    → All IsWhole obj.sections
    → apply_reloc gs obj rel ≡ some r
    → SamePlaces obj.sections r.1.sections
unfolding apply_reloc after
apply_reloc-SamePlaces gs obj rel r whole h =
    elim (Option-cases (get_elem? obj.sections rel.target_section)) [
      | inl e ↦
          let same : (1, obj) ≡ r = ground (arith, e) in rw (← same) (SamePlaces-refl obj.sections)
      | inr (sec, e) ↦ elim (Bool-cases (kind_eq sec.kind sec_skip)) [
        | inl f ↦
            let same : (0, obj) ≡ r = ground (arith, e, f) in
            rw (← same) (SamePlaces-refl obj.sections)
        | inr f ↦ elim (Bool-cases (sec.type == 8)) [
          | inl g ↦
              let same : (1, obj) ≡ r = ground (arith, e, f, g) in
              rw (← same) (SamePlaces-refl obj.sections)
          | inr g ↦
              rebuilt-SamePlaces gs obj sec rel (patch_reloc gs obj sec rel) r
                (All-get_elem? obj.sections rel.target_section sec whole e) e refl
                (unfold rebuilt in rw (apply_reloc, e, f, g) at h)
        ]
      ]
    ]

apply_relocs-SamePlaces :
    (rels : List Reloc) (gs : List Global) (obj : Object) (r : ℕ × Object)
    → All IsWhole obj.sections
    → apply_relocs rels gs obj ≡ some r
    → SamePlaces obj.sections r.1.sections
unfolding apply_relocs
apply_relocs-SamePlaces [] gs obj r whole h =
    let same : (0, obj) ≡ r = ground arith in rw (← same) (SamePlaces-refl obj.sections)
apply_relocs-SamePlaces (rel ∷ rels) gs obj r whole h =
    elim (Option-cases (apply_reloc gs obj rel)) [
      | inl e ↦ ground (arith, e)
      | inr (one, e) ↦ elim (Option-cases (apply_relocs rels gs one.1)) [
        | inl f ↦ ground (arith, e, f)
        | inr (rest, f) ↦
            let same : (one.0 + rest.0, rest.1) ≡ r = ground (arith, e, f) in
            let first = apply_reloc-SamePlaces gs obj rel one whole e in
            rw (← same) (
              SamePlaces-trans obj.sections one.1.sections rest.1.sections first (
                apply_relocs-SamePlaces rels gs one.1 rest
                  (SamePlaces-IsWhole obj.sections one.1.sections first whole) f))
      ]
    ]

apply_reloc-selected :
    (gs : List Global) (obj : Object) (rel : Reloc) (r : ℕ × Object)
    → apply_reloc gs obj rel ≡ some r
    → obj.selected ≡ r.1.selected
unfolding apply_reloc
apply_reloc-selected gs obj rel r h = ground arith

apply_relocs-selected :
    (rels : List Reloc) (gs : List Global) (obj : Object) (r : ℕ × Object)
    → apply_relocs rels gs obj ≡ some r
    → obj.selected ≡ r.1.selected
unfolding apply_relocs
apply_relocs-selected [] gs obj r h = ground arith
apply_relocs-selected (rel ∷ rels) gs obj r h = elim (Option-cases (apply_reloc gs obj rel)) [
  | inl e ↦ ground (arith, e)
  | inr (one, e) ↦ elim (Option-cases (apply_relocs rels gs one.1)) [
    | inl f ↦ ground (arith, e, f)
    | inr (rest, f) ↦
        let same : (one.0 + rest.0, rest.1) ≡ r = ground (arith, e, f) in
        rw (← same)
          (apply_reloc-selected gs obj rel one e ∙ apply_relocs-selected rels gs one.1 rest f)
  ]
]

object-selected :
    (obj : Object) (gs : List Global) (one : ℕ × Object)
    → (if obj.selected then apply_relocs obj.relocs gs obj else some (0, obj)) ≡ some one
    → obj.selected ≡ one.1.selected
object-selected obj gs one e = elim (Bool-cases obj.selected) [
  | inl on ↦ apply_relocs-selected obj.relocs gs obj one (ground (arith, on, e))
  | inr off ↦ let same : (0, obj) ≡ one = ground (arith, off, e) in rw (← same) refl
]

object-SamePlaces :
    (obj : Object) (gs : List Global) (one : ℕ × Object)
    → All IsWhole obj.sections
    → (if obj.selected then apply_relocs obj.relocs gs obj else some (0, obj)) ≡ some one
    → SamePlaces obj.sections one.1.sections
object-SamePlaces obj gs one whole e = elim (Bool-cases obj.selected) [
  | inl on ↦ apply_relocs-SamePlaces obj.relocs gs obj one whole (ground (arith, on, e))
  | inr off ↦
      let same : (0, obj) ≡ one = ground (arith, off, e) in
      rw (← same) (SamePlaces-refl obj.sections)
]

apply_objects-SameLayout :
    (objs : List Object) (gs : List Global) (r : ℕ × List Object)
    → All (λ obj. All IsWhole obj.sections) objs
    → apply_objects objs gs ≡ some r
    → SameLayout objs r.1
unfolding apply_objects SameLayout
apply_objects-SameLayout [] gs r whole h = let same : (0, []) ≡ r = ground arith in rw (← same) tt
apply_objects-SameLayout (obj ∷ objs) gs r whole h =
    elim (Option-cases (if obj.selected then apply_relocs obj.relocs gs obj else some (0, obj))) [
      | inl e ↦ ground (arith, e)
      | inr (one, e) ↦ elim (Option-cases (apply_objects objs gs)) [
        | inl f ↦ ground (arith, e, f)
        | inr (rest, f) ↦
            let same : (one.0 + rest.0, one.1 ∷ rest.1) ≡ r = ground (arith, e, f) in
            rw (← same) (
              object-selected obj gs one e,
              object-SamePlaces obj gs one whole.0 e,
              apply_objects-SameLayout objs gs rest whole.1 f,
            )
      ]
    ]

-- If the loaded sections have their claimed sizes, `ml_apply_relocations` moves and resizes
-- nothing: object by object, whether it takes part, and section by section, the offset, the address,
-- the size in the file, the length of the image, the kind, the type and the alignment are what they
-- were.
pub apply_relocations-SameLayout :
    (ctx ctx' : Context)
    → All (λ obj. All IsWhole obj.sections) ctx.objects
    → apply_relocations ctx ≡ some ctx'
    → SameLayout ctx.objects ctx'.objects
unfolding apply_relocations
apply_relocations-SameLayout ctx ctx' whole h =
    elim (Option-cases (apply_objects ctx.objects ctx.globals)) [
      | inl e ↦ ground (arith, e)
      | inr (r, e) ↦
          let same : r.1 ≡ ctx'.objects = ground (arith, e) in
          rw (← same) (apply_objects-SameLayout ctx.objects ctx.globals r whole e)
    ]
