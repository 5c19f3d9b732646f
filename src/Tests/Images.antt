-- ===== src/Tests/Images.antt =====
-- Runs of the byte fields (bytes.c), of relocation (reloc.c) and of the output (emit.c).
use one_tool.Common.{◌+◌, ◌≤◌, ◌≡◌, ◌⊎◌, [], ◌∷◌, none, some, refl, arith, All, length, replicate}
use one_tool.Common.Bits.{u64}
use one_tool.Common.Int.{pos, negsuc, ◌+ℤ◌, ◌-ℤ◌}
use one_tool.Mlink.Bytes.{Buffer, get16, get32, get64, put32, put64}
use one_tool.Mlink.Bytes.Laws.{get64-put64}
use one_tool.Mlink.Bytes.Frame.{KeepsOutside}
use one_tool.Mlink.Types.{IsWhole, kind_eq}
use one_tool.Mlink.Reloc.{
  patched, reloc_type, reloc_width, patch_field, patch_reloc, store, r_pc32, r_32, r_32s,
}
use one_tool.Mlink.Reloc.Signed.{signed, unsigned, add_int64, int64, pc_relative, checked_i32}
use one_tool.Mlink.Reloc.Field.{patch_field-target, patch_field-absolute, is_pc32}
use one_tool.Mlink.Reloc.Whole.{patch_reloc-KeepsOutside, first_byte, after}
use one_tool.Mlink.Emit.{emit_image, copy_sections, copy_object, copy_section, is_copied}
use one_tool.Mlink.Emit.Contents.{copied, copied_of, AllApart, StandsIn}
use one_tool.Mlink.Emit.Output.{emit_image-StandsIn, emit_image-header}
use one_tool.Tests.{one_call, text_section, call_f, object_with, f_symbol}

get64-put64_example : get64 (put64 (replicate 10 0) 1 0x123456789abcdef0) 1 ≡ 0x123456789abcdef0
get64-put64_example = get64-put64 (replicate 10 0) 1 0x123456789abcdef0 (omega arith) (omega arith)

-- The distance from 0x400121 to 0x400120, less the four bytes of the field.
patch_field-target_example :
    u64 (0x400121 + unsigned 64 (signed 32 (get32 (put32 text_section.image 1 0xfffffffb) 1)))
    ≡ u64 (0x400120 + unsigned 64 (negsuc 3))
unfolding patch_field store pc_relative add_int64 int64 ◌+ℤ◌ ◌-ℤ◌ signed unsigned checked_i32
    is_pc32
patch_field-target_example =
    patch_field-target r_pc32 text_section.image (put32 text_section.image 1 0xfffffffb) 1 0x400120
      (negsuc 3) 0x400121 none refl (omega arith) (omega arith) (omega arith) refl

patch_field-absolute_example :
    (patch_field r_32 text_section.image 1 0x400120 (pos 2) 0x400121 none
        ≡ patched (put32 text_section.image 1 0x400122)
      → pos (get32 (put32 text_section.image 1 0x400122) 1) ≡ signed 64 0x400120 +ℤ pos 2)
    × (patch_field r_32s text_section.image 1 0x400120 (pos 2) 0x400121 none
          ≡ patched (put32 text_section.image 1 0x400122)
        → signed 32 (get32 (put32 text_section.image 1 0x400122) 1) ≡ signed 64 0x400120 +ℤ pos 2)
patch_field-absolute_example =
    patch_field-absolute text_section.image (put32 text_section.image 1 0x400122) 1 0x400120 (pos 2)
      0x400121 none (omega arith)

patch_reloc-KeepsOutside_example :
    KeepsOutside (first_byte (reloc_type 2) 1) (1 + reloc_width (reloc_type 2)) text_section.image (
      after text_section.image
        (patch_reloc [] (object_with (f_symbol 1 ∷ []) []) text_section call_f))
    × ((after text_section.image
            (patch_reloc [] (object_with (f_symbol 1 ∷ []) []) text_section call_f)
          ≡ text_section.image)
        ⊎ (1 + reloc_width (reloc_type 2) ≤ length text_section.image))
patch_reloc-KeepsOutside_example =
    patch_reloc-KeepsOutside [] (object_with (f_symbol 1 ∷ []) []) text_section call_f refl

abbrev output : Buffer
output = elim (emit_image one_call) [ none ↦ [] | some out ↦ out ]

emit_image-StandsIn_example : All (StandsIn output) (copied one_call.objects)
unfolding emit_image copy_sections copy_object copy_section is_copied kind_eq copied copied_of
    IsWhole AllApart
emit_image-StandsIn_example = emit_image-StandsIn one_call output (refl, tt) (tt, tt) refl

emit_image-header_example :
    (get64 output 24 ≡ one_call.entry_addr) × (get16 output 56 ≡ one_call.phnum)
unfolding emit_image copy_sections copy_object copy_section is_copied kind_eq copied copied_of
    IsWhole
emit_image-header_example =
    emit_image-header one_call output (refl, tt) (omega arith, tt) (omega arith) (omega arith)
      (omega arith) refl
