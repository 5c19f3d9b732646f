-- ===== src/Mlink/Link/Ranges.antt =====
-- tools/dev/mlink/layout.c seen from emit.c: after the four passes the sections of each kind with
-- bytes in the file are packed into a range of their own.
use one_tool.Common.{
  ℕ, ◌≤◌, ◌≡◌, refl, ◌∙◌, ◌⊎◌, inl, inr, Bool, true, false, List, [], ◌∷◌, arith, Bool-cases, any,
}
use one_tool.Mlink.Bytes.{align_up}
use one_tool.Mlink.Types.{
  SectionKind, sec_skip, sec_text, sec_rodata, sec_data, sec_bss, kind_eq, Section, Object, Context,
}
use one_tool.Mlink.Layout.{
  place_if, takes_part, has_kind, has_ro, has_rw, header_size, text_pass, ro_start, ro_pass,
  data_start, data_pass, bss_pass, layout_sections,
}
use one_tool.Mlink.Layout.Packing.{kept, kept_of, Packed}
use one_tool.Mlink.Layout.Segments.{HasRoom, text-Stage, ro-Stage, data-Stage, final_sections}
use one_tool.Mlink.Emit.Filed.{holds_bytes, sections_of, kept-sections_of}
use one_tool.Mlink.Emit.Disjoint.{IsSorted}

kept-none : (k : SectionKind) (ss : List Section) → any (takes_part k) ss ≡ false → kept k ss ≡ []
unfolding any
kept-none k [] h = refl
kept-none k (s ∷ ss) h = elim (Bool-cases (takes_part k s)) [
  | inl e ↦ ground (arith, e)
  | inr e ↦ rw e (kept-none k ss (ground (arith, e)))
]

-- A kind that no selected object has leaves its pass nothing to place.
kept_of-none :
    (k : SectionKind) (objs : List Object) → has_kind k objs ≡ false → kept_of k objs ≡ []
unfolding has_kind any
kept_of-none k [] h = refl
kept_of-none k (obj ∷ objs) h = elim (Bool-cases obj.selected) [
  | inl on ↦ elim (Bool-cases (any (takes_part k) obj.sections)) [
    | inl e ↦ ground (arith, on, e)
    | inr e ↦ rw (on, kept-none k obj.sections e) (kept_of-none k objs (ground (arith, on, e)))
  ]
  | inr off ↦ rw off (kept_of-none k objs (ground (arith, off)))
]

pub range_lo : Context → SectionKind → ℕ
range_lo ctx sec_text = align_up (header_size ctx) 16
range_lo ctx sec_rodata = ro_start ctx
range_lo ctx sec_data = data_start ctx
range_lo ctx _ = 0

pub range_hi : Context → SectionKind → ℕ
range_hi ctx sec_text = (text_pass ctx).0
range_hi ctx sec_rodata = (ro_pass ctx).0
range_hi ctx sec_data = (data_pass ctx).0
range_hi ctx _ = 0

-- A pass that is skipped, and that had nothing to place.
skipped-Packed :
    (on : Bool) (k : SectionKind) (base lo : ℕ) (objs : List Object)
    → on ≡ false
    → kept_of k objs ≡ []
    → Packed base lo (place_if on k base lo objs).0 (kept_of k (place_if on k base lo objs).1)
skipped-Packed on k base lo objs off none_left = rw (off, none_left) (omega arith)

module _ (ctx : Context) (fits : HasRoom ctx) where
  ro-Packed :
      Packed ctx.base_addr (ro_start ctx) (ro_pass ctx).0 (kept_of sec_rodata (ro_pass ctx).1)
  ro-Packed = elim (Bool-cases (has_ro ctx)) [
    | inl on ↦ (ro-Stage ctx fits).0.packed on
    | inr off ↦
        let none_left : kept_of sec_rodata (text_pass ctx).1 ≡ [] =
          (text-Stage ctx fits).0.others sec_rodata (unfold kind_eq in refl)
          ∙ kept_of-none sec_rodata ctx.objects (unfold has_ro in off) in
        unfold ro_pass in
        skipped-Packed (has_ro ctx) sec_rodata ctx.base_addr (ro_start ctx) (text_pass ctx).1 off
          none_left
  ]

  no_data : has_rw ctx ≡ false → kept_of sec_data ctx.objects ≡ []
  unfolding has_rw
  no_data off = kept_of-none sec_data ctx.objects (ground arith)

  data-Packed :
      Packed ctx.base_addr (data_start ctx) (data_pass ctx).0 (kept_of sec_data (data_pass ctx).1)
  data-Packed = elim (Bool-cases (has_rw ctx)) [
    | inl on ↦ (data-Stage ctx fits).0.packed on
    | inr off ↦
        let none_left : kept_of sec_data (ro_pass ctx).1 ≡ [] =
          (ro-Stage ctx fits).0.others sec_data (unfold kind_eq in refl)
          ∙ (text-Stage ctx fits).0.others sec_data (unfold kind_eq in refl)
          ∙ no_data off in
        unfold data_pass in
        skipped-Packed (has_rw ctx) sec_data ctx.base_addr (data_start ctx) (ro_pass ctx).1 off
          none_left
  ]

  ranges_packed :
      (k : SectionKind)
      → holds_bytes k ≡ true
      → Packed ctx.base_addr (range_lo ctx k) (range_hi ctx k) (kept_of k (bss_pass ctx).1)
  unfolding range_lo range_hi holds_bytes
  ranges_packed sec_skip b = cc
  ranges_packed sec_text b = rw ((final_sections ctx fits).0) ((text-Stage ctx fits).0.packed refl)
  ranges_packed sec_rodata b = rw ((final_sections ctx fits).1) ro-Packed
  ranges_packed sec_data b = rw ((final_sections ctx fits).2) data-Packed
  ranges_packed sec_bss b = cc

  in_order :
      ((text_pass ctx).0 ≤ ro_start ctx)
      × (ro_start ctx ≤ (ro_pass ctx).0)
      × ((ro_pass ctx).0 ≤ data_start ctx)
  in_order = ((ro-Stage ctx fits).1, (ro-Stage ctx fits).0.forward, (data-Stage ctx fits).1)

  ranges_apart :
      (k k' : SectionKind)
      → holds_bytes k ≡ true
      → holds_bytes k' ≡ true
      → kind_eq k k' ≡ false
      → (range_hi ctx k ≤ range_lo ctx k') ⊎ (range_hi ctx k' ≤ range_lo ctx k)
  unfolding range_lo range_hi holds_bytes kind_eq
  ranges_apart sec_text sec_rodata b b' other = inl (omega (arith, in_order))
  ranges_apart sec_text sec_data b b' other = inl (omega (arith, in_order))
  ranges_apart sec_rodata sec_data b b' other = inl (omega (arith, in_order))
  ranges_apart sec_rodata sec_text b b' other = inr (omega (arith, in_order))
  ranges_apart sec_data sec_text b b' other = inr (omega (arith, in_order))
  ranges_apart sec_data sec_rodata b b' other = inr (omega (arith, in_order))
  ranges_apart k k' b b' other = cc

-- After the passes the sections of the selected objects are sorted by kind into ranges apart.
pub layout_sections-IsSorted :
    (ctx : Context)
    → HasRoom ctx
    → IsSorted ctx.base_addr
        (range_lo ctx)
        (range_hi ctx)
        (sections_of (layout_sections ctx).objects)
unfolding layout_sections
layout_sections-IsSorted ctx fits = record {
  packed = λ k b. rw (kept-sections_of k (bss_pass ctx).1) (ranges_packed ctx fits k b);
  apart = ranges_apart ctx fits;
}
