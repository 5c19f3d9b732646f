-- ===== src/Mlink/Reloc/Field.antt =====
-- tools/dev/mlink/reloc.c: what a patched field holds.
use one_tool.Common.{
  ℕ, ◌+◌, ◌-◌, ◌^◌, ◌≤◌, ◌<◌, Bool, true, false, Option, none, some, set, length, ◌≡◌, refl, inl,
  inr, ◌⊎◌, arith, Option-cases, Bool-cases, get_or-set, length-set, ltb,
}
use one_tool.Common.Bits.{u64}
use one_tool.Common.Int.{ℤ, pos, negsuc, ◌+ℤ◌}
use one_tool.Mlink.Bytes.{Buffer, get8, get32, put32}
use one_tool.Mlink.Bytes.Laws.{get32-put32}
use one_tool.Mlink.Reloc.Signed.{
  signed, unsigned, add_int64, int64_cases, pc_relative, pc_relative_lem, checked_i32, checked_u32,
  signed-checked_i32,
}
use one_tool.Mlink.Reloc.{
  patched, store, patch_field, relaxed, relax_gotpcrel, RelocType, r_32, r_32s, r_pc32, r_plt32,
  r_gotpcrel, r_gotpcrelx, r_rex_gotpcrelx,
}

-- The types whose field is a signed 32-bit distance from the field to the symbol.
unfoldable pub is_pc32 : RelocType → Bool
is_pc32 r_pc32 = true
is_pc32 r_plt32 = true
is_pc32 r_gotpcrel = true
is_pc32 r_gotpcrelx = true
is_pc32 r_rex_gotpcrelx = true
is_pc32 _ = false

-- What is stored went through the check.
pub store_patched :
    {A : Type 0} (o : Option A) (check : A → Option ℕ) (put : ℕ → Buffer) (image image' : Buffer)
    → store o check put image ≡ patched image'
    → (v : A) × (n : ℕ) × (o ≡ some v) × (check v ≡ some n) × (put n ≡ image')
unfolding store
store_patched none check put image image' h = cc
store_patched (some v) check put image image' h = elim (Option-cases (check v)) [
  | inl e ↦ absurd (ground (arith, e))
  | inr (n, e) ↦ (v, n, refl, e, ground (arith, e))
]

pub checked_i32-lt : (v : ℤ) (n : ℕ) → checked_i32 v ≡ some n → n < 2 ^ 32
unfolding checked_i32 unsigned
checked_i32-lt (pos k) n h = ground arith
checked_i32-lt (negsuc k) n h = ground arith

-- The rewritten opcode: two bytes before the field, and bytes still.
pub relaxed_lem :
    (image image' : Buffer) (at : ℕ)
    → relaxed image at ≡ some image'
    → at ≤ length image
    → 2 ≤ at
    → (length image' ≡ length image)
      × ((j : ℕ) → j + 2 < at ⊎ at ≤ j → get8 image' j ≡ get8 image j)
unfolding relaxed
relaxed_lem image image' at h room two = (
  ground (
    arith,
    length-set image (at - 2) 0x8d,
    length-set image (at - 2) 0x67,
    length-set (set image (at - 2) 0x67) (at - 1) 0xe8,
    length-set (set image (at - 2) 0x67) (at - 1) 0xe9,
  ),
  λ j o. ground (
    arith,
    length-set image (at - 2) 0x67,
    get_or-set image (at - 2) j 0x8d 0,
    get_or-set image (at - 2) j 0x67 0,
    get_or-set (set image (at - 2) 0x67) (at - 1) j 0xe8 0,
    get_or-set (set image (at - 2) 0x67) (at - 1) j 0xe9 0,
  ),
)

module _ (image : Buffer) (at s : ℕ) (a : ℤ) (p : ℕ) (fits : at + 4 ≤ length image)
    (s_fits : s < 2 ^ 64) (p_fits : p < 2 ^ 64) where
  store_pc32 :
      (before image' : Buffer)
      → store (pc_relative s a p) checked_i32 (put32 image at) before ≡ patched image'
      → u64 (p + unsigned 64 (signed 32 (get32 image' at))) ≡ u64 (s + unsigned 64 a)
  store_pc32 before image' h =
      let (v, n, sum, checked, put) =
        store_patched (pc_relative s a p) checked_i32 (put32 image at) before image' h in
      rw
        (
          ← put,
          get32-put32 image at n fits (checked_i32-lt v n checked),
          signed-checked_i32 v n checked,
        )
        (pc_relative_lem s a p v s_fits p_fits sum)

relax_gotpcrel-target :
    (image image' : Buffer) (at s : ℕ) (a : ℤ) (p : ℕ)
    → at + 4 ≤ length image
    → s < 2 ^ 64
    → p < 2 ^ 64
    → relax_gotpcrel image at s a p ≡ patched image'
    → u64 (p + unsigned 64 (signed 32 (get32 image' at))) ≡ u64 (s + unsigned 64 a)
unfolding relax_gotpcrel
relax_gotpcrel-target image image' at s a p fits s_fits p_fits h = elim (Bool-cases (ltb at 2)) [
  | inl e ↦ ground (arith, e)
  | inr e ↦ elim (Option-cases (relaxed image at)) [
    | inl none_e ↦ ground (arith, e, none_e)
    | inr (mid, some_e) ↦
        let (same, _) = relaxed_lem image mid at some_e (omega arith) (ground arith) in
        store_pc32 mid at s a p (omega arith) s_fits p_fits mid image' (ground (arith, e, some_e))
  ]
]

-- After a 32-bit pc-relative patch the distance in the field, counted from the field's address,
-- leads to the symbol's value plus the addend. This holds of all five such types, those that
-- rewrite a load from the global offset table included.
pub patch_field-target :
    (t : RelocType) (image image' : Buffer) (at s : ℕ) (a : ℤ) (p : ℕ) (z : Option ℕ)
    → is_pc32 t ≡ true
    → at + 4 ≤ length image
    → s < 2 ^ 64
    → p < 2 ^ 64
    → patch_field t image at s a p z ≡ patched image'
    → u64 (p + unsigned 64 (signed 32 (get32 image' at))) ≡ u64 (s + unsigned 64 a)
unfolding patch_field is_pc32
patch_field-target r_pc32 image image' at s a p z i f hs hp h =
    store_pc32 image at s a p f hs hp image image' h
patch_field-target r_plt32 image image' at s a p z i f hs hp h =
    store_pc32 image at s a p f hs hp image image' h
patch_field-target r_gotpcrel image image' at s a p z i f hs hp h =
    relax_gotpcrel-target image image' at s a p f hs hp h
patch_field-target r_gotpcrelx image image' at s a p z i f hs hp h =
    relax_gotpcrel-target image image' at s a p f hs hp h
patch_field-target r_rex_gotpcrelx image image' at s a p z i f hs hp h =
    relax_gotpcrel-target image image' at s a p f hs hp h
patch_field-target _ image image' at s a p z i f hs hp h = cc

add_int64_same : (v w r : ℤ) → add_int64 v w ≡ some r → r ≡ v +ℤ w
unfolding add_int64
add_int64_same v w r h = elim (int64_cases (v +ℤ w)) [ inl e ↦ ground (arith, e) | inr e ↦ cc ]

pos-checked_u32 : (v : ℤ) (n : ℕ) → checked_u32 v ≡ some n → (pos n ≡ v) × (n < 2 ^ 32)
unfolding checked_u32 unsigned
pos-checked_u32 (pos k) n h = ground arith
pos-checked_u32 (negsuc k) n h = ground arith

-- A 32-bit absolute patch that succeeds leaves in the field the symbol's value, taken as a signed
-- number, plus the addend, with no bit lost: R_X86_64_32 zero-extended, R_X86_64_32S
-- sign-extended.
pub patch_field-absolute :
    (image image' : Buffer) (at s : ℕ) (a : ℤ) (p : ℕ) (z : Option ℕ)
    → at + 4 ≤ length image
    → (patch_field r_32 image at s a p z ≡ patched image'
        → pos (get32 image' at) ≡ signed 64 s +ℤ a)
      × (patch_field r_32s image at s a p z ≡ patched image'
          → signed 32 (get32 image' at) ≡ signed 64 s +ℤ a)
unfolding patch_field
patch_field-absolute image image' at s a p z fits =
    let sum = add_int64 (signed 64 s) a in
    (
      λ h.
          let (v, n, e, checked, put) =
            store_patched sum checked_u32 (put32 image at) image image' h in
          let (holds, small) = pos-checked_u32 v n checked in
          rw (← put, get32-put32 image at n fits small, holds) (add_int64_same (signed 64 s) a v e),
      λ h.
          let (v, n, e, checked, put) =
            store_patched sum checked_i32 (put32 image at) image image' h in
          rw
            (
              ← put,
              get32-put32 image at n fits (checked_i32-lt v n checked),
              signed-checked_i32 v n checked,
            )
            (add_int64_same (signed 64 s) a v e),
    )
