-- ===== src/Mlink/Emit/Output.antt =====
-- tools/dev/mlink/emit.c: what the output file holds.
use one_tool.Common.{
  ℕ, ◌+◌, ◌*◌, ◌≤◌, ◌<◌, ◌^◌, List, [], ◌∷◌, some, ◌≡◌, sym, ◌∙◌, ◌⊎◌, inl, arith, length, All,
  if◌then◌else◌, ◌==◌, replicate, length-replicate,
}
use one_tool.Mlink.Bytes.{Buffer, get8, get16, get64}
use one_tool.Mlink.Bytes.Frame.{KeepsOutside, get64_same, get16_same}
use one_tool.Mlink.Types.{Section, Context, IsWhole}
use one_tool.Mlink.Emit.{put_ehdr, put_headers, emit_image}
use one_tool.Mlink.Emit.Contents.{
  copied, AllApart, StandsIn, copy_all, copy_all-outside, copy_all-StandsIn, copy_sections-all,
}
use one_tool.Mlink.Emit.Header.{put_ehdr_fields}
use one_tool.Mlink.Emit.Table.{put_headers_keeps, length-put_headers}

-- The image before the sections' bytes come in.
abbrev start_image : Context → Buffer
start_image ctx = replicate (if ctx.final_file_size == 0 then 1 else ctx.final_file_size) 0

start_room : (ctx : Context) → ctx.final_file_size ≤ length (start_image ctx)
start_room ctx =
    let size = if ctx.final_file_size == 0 then 1 else ctx.final_file_size in
    ground (arith, length-replicate {A = ℕ} size 0)

headers_room : (ctx : Context) → ctx.final_file_size ≤ length (put_headers (start_image ctx) ctx)
headers_room ctx = omega (arith, start_room ctx, length-put_headers ctx (start_image ctx))

emit_image-all :
    (ctx : Context)
    → emit_image ctx
      ≡ copy_all (copied ctx.objects) ctx.final_file_size (put_headers (start_image ctx) ctx)
unfolding emit_image
emit_image-all ctx =
    copy_sections-all ctx.objects ctx.final_file_size (put_headers (start_image ctx) ctx)

-- If every copied section's image has the size that the section claims, and no two of them share a
-- byte of the file, then in the image that `ml_emit_output` builds each stands at its offset.
pub emit_image-StandsIn :
    (ctx : Context) (out : Buffer)
    → All IsWhole (copied ctx.objects)
    → AllApart (copied ctx.objects)
    → emit_image ctx ≡ some out
    → All (StandsIn out) (copied ctx.objects)
emit_image-StandsIn ctx out whole apart h =
    copy_all-StandsIn (copied ctx.objects) ctx.final_file_size (put_headers (start_image ctx) ctx)
      out (sym (emit_image-all ctx) ∙ h) (headers_room ctx) whole apart

after_headers :
    (j : ℕ) (ss : List Section)
    → j < 64
    → All (λ s. 64 ≤ s.out_offset) ss
    → All (λ s. (j < s.out_offset) ⊎ (s.out_offset + s.file_size ≤ j)) ss
after_headers j [] h a = tt
after_headers j (s ∷ ss) h a = (inl (omega (arith, a.0)), after_headers j ss h a.1)

-- If the file has room for the headers and every copied section, whose image has the size that it
-- claims, starts behind the ELF header, then the ELF header of the file names the link's entry
-- address and its number of program headers.
pub emit_image-header :
    (ctx : Context) (out : Buffer)
    → All IsWhole (copied ctx.objects)
    → All (λ s. 64 ≤ s.out_offset) (copied ctx.objects)
    → 64 + ctx.phnum * 56 ≤ ctx.final_file_size
    → ctx.entry_addr < 2 ^ 64
    → ctx.phnum < 2 ^ 16
    → emit_image ctx ≡ some out
    → (get64 out 24 ≡ ctx.entry_addr) × (get16 out 56 ≡ ctx.phnum)
unfolding KeepsOutside
emit_image-header ctx out whole behind room small few h =
    let b0 = put_ehdr (start_image ctx) ctx in
    let b1 = put_headers (start_image ctx) ctx in
    let (_, headers) = put_headers_keeps ctx (start_image ctx) in
    let kept : (j : ℕ) → j < 64 → get8 out j ≡ get8 b0 j = λ j hj.
      copy_all-outside (copied ctx.objects) ctx.final_file_size b1 out j
        (sym (emit_image-all ctx) ∙ h) whole (after_headers j (copied ctx.objects) hj behind)
      ∙ headers j (inl hj) in
    let (entry, count) =
      put_ehdr_fields ctx (start_image ctx) (omega (arith, room, start_room ctx)) small few in
    (
      get64_same b0 out 24 (λ j hj. kept (24 + j) (omega arith)) ∙ entry,
      get16_same b0 out 56 (λ j hj. kept (56 + j) (omega arith)) ∙ count,
    )
