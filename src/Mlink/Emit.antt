-- ===== src/Mlink/Emit.antt =====
-- tools/dev/mlink/emit.c: the output image. The file system is a parameter: `write` says if
-- `ml_write_file_mode` succeeds.
pub mod Header
pub mod Table
pub mod Contents
pub mod Output
pub mod Filed
pub mod Disjoint
use one_tool.Common.{
  ℕ, ◌+◌, ◌-◌, Bool, true, false, not, ◌||◌, List, [], ◌∷◌, Option, none, some, ltb, leb, ◌==◌,
  if◌then◌else◌, set, replicate,
}
use one_tool.Common.Bits.{u64}
use one_tool.Mlink.Bytes.{Buffer, put16, put32, put64, fill, copy}
use one_tool.Mlink.Layout.{ehdr_size, phdr_size}
use one_tool.Mlink.Types.{sec_skip, kind_eq, Section, Object, Context, report}

abbrev pub sht_nobits : ℕ
sht_nobits = 8

-- The identification bytes, the rest of the header cleared.
unfoldable pub put_ident : Buffer → Buffer
put_ident out =
    let b0 = fill ehdr_size out 0 0 in
    let b1 = set (set (set (set b0 0 0x7f) 1 0x45) 2 0x4c) 3 0x46 in
    set (set (set (set b1 4 2) 5 1) 6 1) 7 0

-- `put_ehdr`, at the start of the image.
unfoldable pub put_ehdr : Buffer → Context → Buffer
put_ehdr out ctx =
    let b0 = put32 (put16 (put16 (put_ident out) 16 2) 18 62) 20 1 in
    let b1 = put64 b0 24 ctx.entry_addr in
    let b2 = put32 (put64 (put64 b1 32 ehdr_size) 40 0) 48 0 in
    let b3 = put16 (put16 b2 52 ehdr_size) 54 phdr_size in
    let b4 = put16 b3 56 ctx.phnum in put16 (put16 (put16 b4 58 0) 60 0) 62 0

-- `put_phdr` of a loadable segment, at `p`.
unfoldable pub put_phdr : Buffer → (p flags offset vaddr filesz memsz : ℕ) → Buffer
put_phdr out p flags offset vaddr filesz memsz =
    let b0 = put32 (put32 (fill phdr_size out p 0) p 1) (p + 4) flags in
    let b1 = put64 (put64 (put64 b0 (p + 8) offset) (p + 16) vaddr) (p + 24) vaddr in
    put64 (put64 (put64 b1 (p + 32) filesz) (p + 40) memsz) (p + 48) 0x1000

unfoldable pub put_gnu_stack : Buffer → (p : ℕ) → (stack_exec : Bool) → Buffer
put_gnu_stack out p stack_exec =
    let b0 = put32 (fill phdr_size out p 0) p 0x6474e551 in
    put64 (put32 b0 (p + 4) (6 + (if stack_exec then 1 else 0))) (p + 48) 16

-- The segment headers in order, the cursor `ph` passed along.
unfoldable pub put_ro : Context → Buffer × ℕ → Buffer × ℕ
put_ro ctx (out, ph) =
    if ctx.has_rodata_segment
    then (
      put_phdr out ph 4 ctx.ro_offset (u64 (ctx.base_addr + ctx.ro_offset)) ctx.ro_filesz
          ctx.ro_filesz,
      ph + phdr_size,
    )
    else (out, ph)

unfoldable pub put_rw : Context → Buffer × ℕ → Buffer × ℕ
put_rw ctx (out, ph) =
    if ctx.has_rw_segment
    then (
      put_phdr out ph 6 ctx.data_offset (u64 (ctx.base_addr + ctx.data_offset)) ctx.data_filesz
          ctx.data_memsz,
      ph + phdr_size,
    )
    else (out, ph)

unfoldable pub put_stack : Context → Buffer × ℕ → Buffer
put_stack ctx (out, ph) = if ctx.no_gnu_stack then out else put_gnu_stack out ph ctx.stack_exec

unfoldable pub put_headers : Buffer → Context → Buffer
put_headers out ctx =
    let b0 = put_ehdr out ctx in
    let b1 = put_phdr b0 ehdr_size 5 0 ctx.base_addr ctx.rx_filesz ctx.rx_filesz in
    put_stack ctx (put_rw ctx (put_ro ctx (b1, ehdr_size + phdr_size)))

-- The sections whose bytes go into the file.
unfoldable pub is_copied : Section → Bool
is_copied s = not (kind_eq s.kind sec_skip || s.type == sht_nobits || s.file_size == 0)

-- One round of the inner loop of `copy_sections`; `none` is the error. An image has `file_size`
-- bytes.
unfoldable pub copy_section : Section → (out_size : ℕ) → Buffer → Option Buffer
copy_section s size out =
    if not (is_copied s)
    then some out
    else if ltb size s.out_offset || ltb (size - s.out_offset) s.file_size
    then none
    else some (copy s.image out s.out_offset)

unfoldable pub copy_object : List Section → (out_size : ℕ) → Buffer → Option Buffer
copy_object [] size out = some out
copy_object (s ∷ ss) size out = elim (copy_section s size out) [
  | none ↦ none
  | some out' ↦ copy_object ss size out'
]

unfoldable pub copy_sections : List Object → (out_size : ℕ) → Buffer → Option Buffer
copy_sections [] size out = some out
copy_sections (obj ∷ objs) size out =
    elim (if obj.selected then copy_object obj.sections size out else some out) [
      | none ↦ none
      | some out' ↦ copy_sections objs size out'
    ]

-- The image that `ml_emit_output` builds; a `size_t` has 64 bits, so every size fits in one.
unfoldable pub emit_image : Context → Option Buffer
emit_image ctx =
    let size = if ctx.final_file_size == 0 then 1 else ctx.final_file_size in
    copy_sections ctx.objects ctx.final_file_size (put_headers (replicate size 0) ctx)

-- `ml_emit_output`: the context with its errors, and the file if it is written in full; a write that
-- fails may leave a file that is empty or cut short.
unfoldable pub emit_output : (write : Buffer → Bool) → Context → Context × Option Buffer
emit_output write ctx = if ctx.dry_run then (ctx, none) else elim (emit_image ctx) [
  | none ↦ (report ctx, none)
  | some out ↦ if write out then (ctx, some out) else (report ctx, none)
]
