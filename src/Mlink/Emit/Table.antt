-- ===== src/Mlink/Emit/Table.antt =====
-- tools/dev/mlink/emit.c: the table of program headers behind the ELF header.
use one_tool.Common.{ℕ, ◌+◌, ◌≤◌, ◌≡◌, ◌∙◌, inl, inr, arith, length, Bool-cases}
use one_tool.Common.Bits.{u64}
use one_tool.Mlink.Bytes.{Buffer}
use one_tool.Mlink.Bytes.Frame.{KeepsOutside, KeepsOutside-trans, KeepsOutside-wider, keeps_self}
use one_tool.Mlink.Types.{Context}
use one_tool.Mlink.Emit.{put_ehdr, put_phdr, put_ro, put_rw, put_stack, put_headers}
use one_tool.Mlink.Emit.Header.{length-put_ehdr, put_phdr_keeps, put_gnu_stack_keeps}

module _ (ctx : Context) where
  -- One optional header: nothing outside the header table is written, the cursor moves on.
  keeps_next :
      (out mid next : Buffer) (ph : ℕ)
      → KeepsOutside 64 288 out mid
      → KeepsOutside ph (ph + 56) mid next
      → 64 ≤ ph
      → ph + 56 ≤ 288
      → KeepsOutside 64 288 out next
  keeps_next out mid next ph kept one low high =
      KeepsOutside-trans 64 288 out mid next kept
        (KeepsOutside-wider ph (ph + 56) 64 288 mid next one low high)

  put_ro_keeps :
      (out mid : Buffer) (ph : ℕ)
      → KeepsOutside 64 288 out mid
      → 64 ≤ ph
      → ph + 56 ≤ 288
      → KeepsOutside 64 288 out (put_ro ctx (mid, ph)).0
        × (64 ≤ (put_ro ctx (mid, ph)).1)
        × ((put_ro ctx (mid, ph)).1 ≤ ph + 56)
  unfolding put_ro
  put_ro_keeps out mid ph kept low high = elim (Bool-cases ctx.has_rodata_segment) [
    | inl e ↦ rw e (
      keeps_next out mid _ ph kept
          (put_phdr_keeps mid ph 4 ctx.ro_offset (u64 (ctx.base_addr + ctx.ro_offset)) ctx.ro_filesz
            ctx.ro_filesz)
          low high,
      omega arith,
      omega arith,
    )
    | inr e ↦ rw e (kept, omega arith, omega arith)
  ]

  put_rw_keeps :
      (out mid : Buffer) (ph : ℕ)
      → KeepsOutside 64 288 out mid
      → 64 ≤ ph
      → ph + 56 ≤ 288
      → KeepsOutside 64 288 out (put_rw ctx (mid, ph)).0
        × (64 ≤ (put_rw ctx (mid, ph)).1)
        × ((put_rw ctx (mid, ph)).1 ≤ ph + 56)
  unfolding put_rw
  put_rw_keeps out mid ph kept low high = elim (Bool-cases ctx.has_rw_segment) [
    | inl e ↦ rw e (
      keeps_next out mid _ ph kept
          (put_phdr_keeps mid ph 6 ctx.data_offset (u64 (ctx.base_addr + ctx.data_offset))
            ctx.data_filesz ctx.data_memsz)
          low high,
      omega arith,
      omega arith,
    )
    | inr e ↦ rw e (kept, omega arith, omega arith)
  ]

  put_stack_keeps :
      (out mid : Buffer) (ph : ℕ)
      → KeepsOutside 64 288 out mid
      → 64 ≤ ph
      → ph + 56 ≤ 288
      → KeepsOutside 64 288 out (put_stack ctx (mid, ph))
  unfolding put_stack
  put_stack_keeps out mid ph kept low high = elim (Bool-cases ctx.no_gnu_stack) [
    | inl e ↦ rw e kept
    | inr e ↦
        rw e (keeps_next out mid _ ph kept (put_gnu_stack_keeps mid ph ctx.stack_exec) low high)
  ]

  pub put_headers_keeps :
      (out : Buffer) → KeepsOutside 64 288 (put_ehdr out ctx) (put_headers out ctx)
  unfolding put_headers
  put_headers_keeps out =
      let b0 = put_ehdr out ctx in
      let b1 = put_phdr b0 64 5 0 ctx.base_addr ctx.rx_filesz ctx.rx_filesz in
      let k1 =
        keeps_next b0 b0 b1 64 (keeps_self 64 288 b0)
          (put_phdr_keeps b0 64 5 0 ctx.base_addr ctx.rx_filesz ctx.rx_filesz) (omega arith)
          (omega arith) in
      let (k2, low2, high2) = put_ro_keeps b0 b1 120 k1 (omega arith) (omega arith) in
      let r2 = put_ro ctx (b1, 120) in
      let (k3, low3, high3) = put_rw_keeps b0 r2.0 r2.1 k2 low2 (omega arith) in
      let r3 = put_rw ctx r2 in put_stack_keeps b0 r3.0 r3.1 k3 low3 (omega arith)

  pub length-put_headers : (out : Buffer) → length (put_headers out ctx) ≡ length out
  unfolding KeepsOutside
  length-put_headers out = (put_headers_keeps out).0 ∙ length-put_ehdr ctx out
