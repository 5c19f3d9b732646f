-- ===== src/Mlink/Emit/Header.antt =====
-- tools/dev/mlink/emit.c: the headers of the output.
use one_tool.Common.{ℕ, ◌+◌, ◌≤◌, ◌<◌, ◌^◌, Bool, ◌≡◌, refl, ◌∙◌, arith, length, if◌then◌else◌}
use one_tool.Mlink.Bytes.{Buffer, get16, get64, put16, put32, put64}
use one_tool.Mlink.Bytes.Laws.{get64-put64}
use one_tool.Mlink.Bytes.Short.{get16-put16}
use one_tool.Mlink.Bytes.Frame.{
  KeepsOutside, keeps_self, put16_keeps, put64_keeps, fill_keeps, get64_kept, get16_kept,
}
use one_tool.Mlink.Bytes.Rows.{step8, step16, step32, step64}
use one_tool.Mlink.Layout.{ehdr_size, phdr_size}
use one_tool.Mlink.Types.{Context}
use one_tool.Mlink.Emit.{put_ident, put_ehdr, put_phdr, put_gnu_stack}

-- Each header keeps what is outside its own bytes.
module _ (out : Buffer) (p : ℕ) where
  pub put_phdr_keeps :
      (flags offset vaddr filesz memsz : ℕ)
      → KeepsOutside p (p + 56) out (put_phdr out p flags offset vaddr filesz memsz)
  unfolding put_phdr
  put_phdr_keeps flags offset vaddr filesz memsz =
      (step64 p (p + 56) out _ (p + 48) 0x1000
        (step64 p (p + 56) out _ (p + 40) memsz
          (step64 p (p + 56) out _ (p + 32) filesz
            (step64 p (p + 56) out _ (p + 24) vaddr
              (step64 p (p + 56) out _ (p + 16) vaddr
                (step64 p (p + 56) out _ (p + 8) offset
                  (step32 p (p + 56) out _ (p + 4) flags
                    (step32 p (p + 56) out _ p 1 (fill_keeps 56 out p 0) (omega arith)
                      (omega arith))
                    (omega arith) (omega arith))
                  (omega arith) (omega arith))
                (omega arith) (omega arith))
              (omega arith) (omega arith))
            (omega arith) (omega arith))
          (omega arith) (omega arith))
        (omega arith) (omega arith))

  pub put_gnu_stack_keeps : (exec : Bool) → KeepsOutside p (p + 56) out (put_gnu_stack out p exec)
  unfolding put_gnu_stack
  put_gnu_stack_keeps exec =
      (step64 p (p + 56) out _ (p + 48) 16
        (step32 p (p + 56) out _ (p + 4) (6 + (if exec then 1 else 0))
          (step32 p (p + 56) out _ p 0x6474e551 (fill_keeps 56 out p 0) (omega arith) (omega arith))
          (omega arith) (omega arith))
        (omega arith) (omega arith))

module _ (ctx : Context) where
  pub put_ident_keeps : (out : Buffer) → KeepsOutside 0 64 out (put_ident out)
  unfolding put_ident
  put_ident_keeps out =
      (step8 0 64 out _ 7 0
        (step8 0 64 out _ 6 1
          (step8 0 64 out _ 5 1
            (step8 0 64 out _ 4 2
              (step8 0 64 out _ 3 0x46
                (step8 0 64 out _ 2 0x4c
                  (step8 0 64 out _ 1 0x45
                    (step8 0 64 out _ 0 0x7f (fill_keeps 64 out 0 0) (omega arith) (omega arith))
                    (omega arith) (omega arith))
                  (omega arith) (omega arith))
                (omega arith) (omega arith))
              (omega arith) (omega arith))
            (omega arith) (omega arith))
          (omega arith) (omega arith))
        (omega arith) (omega arith))

  -- What comes before the entry address, and what comes after it.
  abbrev pub before_entry : Buffer → Buffer
  before_entry out = put32 (put16 (put16 (put_ident out) 16 2) 18 62) 20 1

  pub before_entry_keeps : (out : Buffer) → KeepsOutside 0 64 out (before_entry out)
  before_entry_keeps out =
      (step32 0 64 out _ 20 1
        (step16 0 64 out _ 18 62
          (step16 0 64 out _ 16 2 (put_ident_keeps out) (omega arith) (omega arith)) (omega arith)
          (omega arith))
        (omega arith) (omega arith))

  abbrev pub after_entry : Buffer → Buffer
  after_entry out =
      let b2 = put32 (put64 (put64 out 32 ehdr_size) 40 0) 48 0 in
      put16 (put16 b2 52 ehdr_size) 54 phdr_size

  pub after_entry_keeps : (out : Buffer) → KeepsOutside 32 64 out (after_entry out)
  after_entry_keeps out =
      (step16 32 64 out _ 54 phdr_size
        (step16 32 64 out _ 52 ehdr_size
          (step32 32 64 out _ 48 0
            (step64 32 64 out _ 40 0
              (step64 32 64 out _ 32 ehdr_size (keeps_self 32 64 out) (omega arith) (omega arith))
              (omega arith) (omega arith))
            (omega arith) (omega arith))
          (omega arith) (omega arith))
        (omega arith) (omega arith))

  abbrev pub after_count : Buffer → Buffer
  after_count out = put16 (put16 (put16 out 58 0) 60 0) 62 0

  pub after_count_keeps : (out : Buffer) → KeepsOutside 58 64 out (after_count out)
  after_count_keeps out =
      (step16 58 64 out _ 62 0
        (step16 58 64 out _ 60 0
          (step16 58 64 out _ 58 0 (keeps_self 58 64 out) (omega arith) (omega arith)) (omega arith)
          (omega arith))
        (omega arith) (omega arith))

  pub put_ehdr_parts :
      (out : Buffer)
      → put_ehdr out ctx
        ≡ after_count
            (put16 (after_entry (put64 (before_entry out) 24 ctx.entry_addr)) 56 ctx.phnum)
  unfolding put_ehdr
  put_ehdr_parts out = refl

  -- The two header fields that depend on the link, read back.
  pub put_ehdr_fields :
      (out : Buffer)
      → 64 ≤ length out
      → ctx.entry_addr < 2 ^ 64
      → ctx.phnum < 2 ^ 16
      → (get64 (put_ehdr out ctx) 24 ≡ ctx.entry_addr) × (get16 (put_ehdr out ctx) 56 ≡ ctx.phnum)
  unfolding put_ehdr KeepsOutside
  put_ehdr_fields out room small few =
      let b0 = before_entry out in
      let b1 = put64 b0 24 ctx.entry_addr in
      let b2 = after_entry b1 in
      let b3 = put16 b2 56 ctx.phnum in
      let k0 = before_entry_keeps out in
      let k2 = after_entry_keeps b1 in
      let k3 = after_count_keeps b3 in
      (
        get64_kept 58 64 b3 (after_count b3) 24 k3 (omega arith)
            ∙ get64_kept 56 58 b2 b3 24 (put16_keeps b2 56 ctx.phnum) (omega arith)
            ∙ get64_kept 32 64 b1 b2 24 k2 (omega arith)
            ∙ get64-put64 b0 24 ctx.entry_addr (omega (arith, k0.0)) small,
        get16_kept 58 64 b3 (after_count b3) 56 k3 (omega arith)
            ∙ get16-put16 b2 56 ctx.phnum
                (omega (arith, k0.0, k2.0, (put64_keeps b0 24 ctx.entry_addr).0)) few,
      )

  pub length-put_ehdr : (out : Buffer) → length (put_ehdr out ctx) ≡ length out
  unfolding KeepsOutside put_ehdr
  length-put_ehdr out =
      let b0 = before_entry out in
      let b1 = put64 b0 24 ctx.entry_addr in
      let b2 = after_entry b1 in
      let b3 = put16 b2 56 ctx.phnum in
      omega (
        arith,
        (after_count_keeps b3).0,
        (put16_keeps b2 56 ctx.phnum).0,
        (after_entry_keeps b1).0,
        (put64_keeps b0 24 ctx.entry_addr).0,
        (before_entry_keeps out).0,
      )
