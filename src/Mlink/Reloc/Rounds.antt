-- ===== src/Mlink/Reloc/Rounds.antt =====
-- tools/dev/mlink/reloc.c: `ml_apply_relocations`, the rounds over objects and relocations.
use one_tool.Common.{ℕ, ◌+◌, List, [], ◌∷◌, Option, none, some, ◌==◌, if◌then◌else◌, get_elem?, set}
use one_tool.Mlink.Bytes.{Buffer}
use one_tool.Mlink.Types.{sec_skip, kind_eq, Section, Reloc, Object, Global, Context}
use one_tool.Mlink.Reloc.{overflowed, refused, patched, patch_reloc}

abbrev pub with_image : Object → ℕ → Section → Buffer → Object
with_image obj i sec image = record obj {
  sections = set obj.sections i (record sec { image = image });
}

-- One round of the inner loop: the errors and the object; `none` is an overflow of a signed sum.
unfoldable pub apply_reloc : List Global → Object → Reloc → Option (ℕ × Object)
apply_reloc gs obj rel = elim (get_elem? obj.sections rel.target_section) [
  | none ↦ some (1, obj)
  | some sec ↦
      if kind_eq sec.kind sec_skip
      then some (0, obj)
      else if sec.type == 8
      then some (1, obj)
      else elim (patch_reloc gs obj sec rel) [
        | overflowed ↦ none
        | refused image ↦ some (1, with_image obj rel.target_section sec image)
        | patched image ↦ some (0, with_image obj rel.target_section sec image)
      ]
]

unfoldable pub apply_relocs : List Reloc → List Global → Object → Option (ℕ × Object)
apply_relocs [] gs obj = some (0, obj)
apply_relocs (rel ∷ rels) gs obj = elim (apply_reloc gs obj rel) [
  | none ↦ none
  | some one ↦ elim (apply_relocs rels gs one.1) [
    | none ↦ none
    | some rest ↦ some (one.0 + rest.0, rest.1)
  ]
]

unfoldable pub apply_objects : List Object → List Global → Option (ℕ × List Object)
apply_objects [] gs = some (0, [])
apply_objects (obj ∷ objs) gs =
    elim (if obj.selected then apply_relocs obj.relocs gs obj else some (0, obj)) [
      | none ↦ none
      | some one ↦ elim (apply_objects objs gs) [
        | none ↦ none
        | some rest ↦ some (one.0 + rest.0, one.1 ∷ rest.1)
      ]
    ]

unfoldable pub apply_relocations : Context → Option Context
apply_relocations ctx = elim (apply_objects ctx.objects ctx.globals) [
  | none ↦ none
  | some r ↦ some (record ctx { objects = r.1; error_count = ctx.error_count + r.0 })
]
