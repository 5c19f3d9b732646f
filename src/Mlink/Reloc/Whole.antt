-- ===== src/Mlink/Reloc/Whole.antt =====
-- tools/dev/mlink/reloc.c: what a patch leaves alone.
use one_tool.Common.{
  ℕ, ◌+◌, ◌-◌, ◌^◌, ◌≤◌, Option, none, some, List, set, length, ◌≡◌, refl, inl, inr, ◌⊎◌, arith,
  Option-cases, Bool-cases, ltb, ◌==◌, ◌||◌, not,
}
use one_tool.Common.Bits.{u64}
use one_tool.Common.Int.{ℤ}
use one_tool.Mlink.Types.{Section, Reloc, Object, Global}
use one_tool.Mlink.Bytes.{Buffer, put16, put32}
use one_tool.Mlink.Bytes.Frame.{
  KeepsOutside, KeepsOutside-trans, KeepsOutside-wider, keeps_self, put64_keeps, put32_keeps,
  put16_keeps, put8_keeps,
}
use one_tool.Mlink.Reloc.Signed.{
  unsigned, pc_relative, add_int64, signed, checked_i32, checked_i16, checked_i8, checked_u32,
  checked_u16, checked_u8,
}
use one_tool.Mlink.Reloc.Field.{relaxed_lem}
use one_tool.Mlink.Reloc.{
  Outcome, overflowed, refused, patched, store, patch_field, patch_reloc, relaxed, relax_gotpcrel,
  reloc_width, reloc_type, reloc_fits_section, get_symbol_value, get_symbol_size, addend_of,
  RelocType, r_none, r_64, r_pc64, r_size64, r_pc32, r_plt32, r_32, r_32s, r_size32, r_gotpcrel,
  r_gotpcrelx, r_rex_gotpcrelx, r_16, r_pc16, r_8, r_pc8, r_other,
}

-- The first byte a patch may write: a rewritten load starts two bytes before its field.
unfoldable pub first_byte : RelocType → (at : ℕ) → ℕ
first_byte r_gotpcrel at = at - 2
first_byte r_gotpcrelx at = at - 2
first_byte r_rex_gotpcrelx at = at - 2
first_byte _ at = at

-- The image after a patch; a run with no defined result is not followed.
unfoldable pub after : Buffer → Outcome → Buffer
after image overflowed = image
after image (refused image') = image'
after image (patched image') = image'

module _ (low high : ℕ) (image : Buffer) where
  store-KeepsOutside :
      {A : Type 0} (o : Option A) (check : A → Option ℕ) (put : ℕ → Buffer) (before : Buffer)
      → KeepsOutside low high image before
      → ((n : ℕ) → KeepsOutside low high image (put n))
      → KeepsOutside low high image (after image (store o check put before))
  unfolding store after
  store-KeepsOutside none check put before kept puts = keeps_self low high image
  store-KeepsOutside (some v) check put before kept puts =
      elim (check v)
        as (λ r.
          KeepsOutside low high image
            (after image (elim r [ none ↦ refused before | some n ↦ patched (put n) ]))) [
              | none ↦ kept
              | some n ↦ puts n
            ]

relax_gotpcrel-KeepsOutside :
    (image : Buffer) (at s : ℕ) (a : ℤ) (p : ℕ)
    → at + 4 ≤ length image
    → KeepsOutside (at - 2) (at + 4) image (after image (relax_gotpcrel image at s a p))
unfolding relax_gotpcrel KeepsOutside after
relax_gotpcrel-KeepsOutside image at s a p h = elim (Bool-cases (ltb at 2)) [
  | inl e ↦ rw (relax_gotpcrel, e) (keeps_self (at - 2) (at + 4) image)
  | inr e ↦ elim (Option-cases (relaxed image at)) [
    | inl e' ↦ rw (relax_gotpcrel, e, e') (keeps_self (at - 2) (at + 4) image)
    | inr (mid, e') ↦
        let (same, outside) = relaxed_lem image mid at e' (omega arith) (ground arith) in
        rw (relax_gotpcrel, e, e')
          (store-KeepsOutside (at - 2) (at + 4) image (pc_relative s a p) checked_i32 (put32 mid at)
            mid (unfold KeepsOutside in (same, λ j o. outside j (omega arith)))
            (λ n.
              KeepsOutside-trans (at - 2) (at + 4) image mid (put32 mid at n)
                (unfold KeepsOutside in (same, λ j o. outside j (omega arith)))
                (KeepsOutside-wider at (at + 4) (at - 2) (at + 4) mid (put32 mid at n)
                  (put32_keeps mid at n) (omega arith) (omega arith))))
  ]
]

-- A patch of any type, successful or refused, leaves the image its length and every byte outside
-- the field, except that a relaxed load may change in the two bytes before its field.
pub patch_field-KeepsOutside :
    (t : RelocType) (image : Buffer) (at s : ℕ) (a : ℤ) (p : ℕ) (z : Option ℕ)
    → at + reloc_width t ≤ length image
    → KeepsOutside
        (first_byte t at)
        (at + reloc_width t)
        image
        (after image (patch_field t image at s a p z))
unfolding patch_field first_byte reloc_width after
patch_field-KeepsOutside r_64 image at s a p z h = put64_keeps image at (u64 (s + unsigned 64 a))
patch_field-KeepsOutside r_pc64 image at s a p z h =
    put64_keeps image at (u64 (s + unsigned 64 a + 2 ^ 64 - p))
patch_field-KeepsOutside r_pc32 image at s a p z h =
    store-KeepsOutside at (at + 4) image (pc_relative s a p) checked_i32 (put32 image at) image
      (keeps_self at (at + 4) image) (λ n. put32_keeps image at n)
patch_field-KeepsOutside r_plt32 image at s a p z h =
    store-KeepsOutside at (at + 4) image (pc_relative s a p) checked_i32 (put32 image at) image
      (keeps_self at (at + 4) image) (λ n. put32_keeps image at n)
patch_field-KeepsOutside r_pc16 image at s a p z h =
    store-KeepsOutside at (at + 2) image (pc_relative s a p) checked_i16 (put16 image at) image
      (keeps_self at (at + 2) image) (λ n. put16_keeps image at n)
patch_field-KeepsOutside r_pc8 image at s a p z h =
    store-KeepsOutside at (at + 1) image (pc_relative s a p) checked_i8 (set image at) image
      (keeps_self at (at + 1) image) (λ n. put8_keeps image at n)
patch_field-KeepsOutside r_32 image at s a p z h =
    store-KeepsOutside at (at + 4) image (add_int64 (signed 64 s) a) checked_u32 (put32 image at)
      image (keeps_self at (at + 4) image) (λ n. put32_keeps image at n)
patch_field-KeepsOutside r_32s image at s a p z h =
    store-KeepsOutside at (at + 4) image (add_int64 (signed 64 s) a) checked_i32 (put32 image at)
      image (keeps_self at (at + 4) image) (λ n. put32_keeps image at n)
patch_field-KeepsOutside r_16 image at s a p z h =
    store-KeepsOutside at (at + 2) image (add_int64 (signed 64 s) a) checked_u16 (put16 image at)
      image (keeps_self at (at + 2) image) (λ n. put16_keeps image at n)
patch_field-KeepsOutside r_8 image at s a p z h =
    store-KeepsOutside at (at + 1) image (add_int64 (signed 64 s) a) checked_u8 (set image at) image
      (keeps_self at (at + 1) image) (λ n. put8_keeps image at n)
patch_field-KeepsOutside r_size32 image at s a p none h = keeps_self at (at + 4) image
patch_field-KeepsOutside r_size32 image at s a p (some z) h =
    store-KeepsOutside at (at + 4) image (add_int64 (signed 64 z) a) checked_u32 (put32 image at)
      image (keeps_self at (at + 4) image) (λ n. put32_keeps image at n)
patch_field-KeepsOutside r_size64 image at s a p none h = keeps_self at (at + 8) image
patch_field-KeepsOutside r_size64 image at s a p (some z) h =
    put64_keeps image at (u64 (z + unsigned 64 a))
patch_field-KeepsOutside r_gotpcrel image at s a p z h =
    relax_gotpcrel-KeepsOutside image at s a p h
patch_field-KeepsOutside r_gotpcrelx image at s a p z h =
    relax_gotpcrel-KeepsOutside image at s a p h
patch_field-KeepsOutside r_rex_gotpcrelx image at s a p z h =
    relax_gotpcrel-KeepsOutside image at s a p h
patch_field-KeepsOutside r_none image at s a p z h = keeps_self at (at + 0) image
patch_field-KeepsOutside r_other image at s a p z h = keeps_self at (at + 0) image

-- What holds of an untouched image and of a patched field that lies in the section holds of
-- `patch_reloc`.
patch_reloc-any :
    (P : Buffer → Type 0) (gs : List Global) (obj : Object) (sec : Section) (rel : Reloc)
    → P sec.image
    → ((s : ℕ) (a : ℤ) (p : ℕ) (z : Option ℕ)
        → rel.offset + reloc_width (reloc_type rel.type) ≤ sec.file_size
        → P (after sec.image (patch_field (reloc_type rel.type) sec.image rel.offset s a p z)))
    → P (after sec.image (patch_reloc gs obj sec rel))
unfolding patch_reloc after
patch_reloc-any P gs obj sec rel same field =
    let width = reloc_width (reloc_type rel.type) in
    elim (Bool-cases (rel.type == 0)) [
      | inl e ↦ rw (patch_reloc, e) same
      | inr e ↦ elim (Bool-cases (not (reloc_fits_section sec rel width) || width == 0)) [
        | inl e' ↦ rw (patch_reloc, e, e') same
        | inr e' ↦ elim (Option-cases (get_symbol_value gs obj rel.symbol_index)) [
          | inl v ↦ rw (patch_reloc, e, e', v) same
          | inr (s, v) ↦ elim (Option-cases (addend_of sec rel)) [
            | inl w ↦ rw (patch_reloc, e, e', v, w) same
            | inr (a, w) ↦
                rw (patch_reloc, e, e', v, w)
                  (field s a (u64 (sec.out_addr + rel.offset))
                    (get_symbol_size gs obj rel.symbol_index)
                    (unfold reloc_fits_section in ground (arith, e')))
          ]
        ]
      ]
    ]

-- If the section's image has the `file_size` bytes that the section claims, then whatever the
-- relocation says, `patch_reloc` keeps the image's length and every byte outside the field of the
-- relocation's type, two bytes more in front for a relaxed load; and it leaves the image as it was
-- unless the field lies inside it.
pub patch_reloc-KeepsOutside :
    (gs : List Global) (obj : Object) (sec : Section) (rel : Reloc)
    → length sec.image ≡ sec.file_size
    → KeepsOutside
        (first_byte (reloc_type rel.type) rel.offset)
        (rel.offset + reloc_width (reloc_type rel.type))
        sec.image
        (after sec.image (patch_reloc gs obj sec rel))
      × ((after sec.image (patch_reloc gs obj sec rel) ≡ sec.image)
          ⊎ (rel.offset + reloc_width (reloc_type rel.type) ≤ length sec.image))
patch_reloc-KeepsOutside gs obj sec rel whole =
    let low = first_byte (reloc_type rel.type) rel.offset in
    let high = rel.offset + reloc_width (reloc_type rel.type) in
    patch_reloc-any
      (λ out. KeepsOutside low high sec.image out × ((out ≡ sec.image) ⊎ (high ≤ length sec.image)))
      gs obj sec rel (keeps_self low high sec.image, inl refl)
      (λ s a p z fits. (
        patch_field-KeepsOutside (reloc_type rel.type) sec.image rel.offset s a p z (omega arith),
        inr (omega arith),
      ))
