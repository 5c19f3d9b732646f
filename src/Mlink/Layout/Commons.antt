-- ===== src/Mlink/Layout/Commons.antt =====
-- tools/dev/mlink/layout.c: `compute_global_values` lays the common blocks out behind the data.
use one_tool.Common.{
  ℕ, ◌+◌, ◌%◌, ◌^◌, ◌≤◌, ◌<◌, Bool, true, false, not, ◌&&◌, List, [], ◌∷◌, ltb, ◌==◌, if◌then◌else◌,
  ◌≡◌, refl, inl, inr, arith, Bool-cases,
}
use one_tool.Common.Bits.{u64}
use one_tool.Mlink.Bytes.Align.{align_up_least}
use one_tool.Mlink.Types.{Global, Object, Context}
use one_tool.Mlink.Layout.{
  common_start, global_value, global_values, common_cursor_start, compute_global_values,
}

-- A common block that no definition replaced.
abbrev pub is_block : Global → Bool
is_block g = not g.defined && g.common

-- The alignment that a block gets: what it asked for, at least 1 and at most a page.
abbrev pub block_align : Global → ℕ
block_align g =
    let asked = if g.common_align == 0 then 1 else g.common_align in
    if ltb 4096 asked then 4096 else asked

abbrev pub block_demand : List Global → ℕ
block_demand [] = 0
block_demand (g ∷ gs) = (if is_block g then 4096 + g.size else 0) + block_demand gs

-- The blocks of a table in order between two offsets, each aligned, at or after the end of the one
-- before it, and with its address as its value.
unfoldable pub Blocks : (base lo hi : ℕ) → List Global → Type 0
Blocks base lo hi [] = lo ≤ hi
Blocks base lo hi (g ∷ gs) =
    if is_block g
    then ((at : ℕ) × (lo ≤ at)
        × (at % block_align g ≡ 0)
        × (g.common_addr ≡ u64 (base + at))
        × (g.value ≡ u64 (base + at))
        × Blocks base (at + g.size) hi gs)
    else Blocks base lo hi gs

block_align-bounds : (g : Global) → (0 < block_align g) × (block_align g ≤ 4096)
block_align-bounds g = ground arith

-- What is not a block stays none and moves no cursor.
other_value :
    (objs : List Object) (base cursor : ℕ) (g : Global)
    → is_block g ≡ false
    → ((global_value objs base cursor g).1 ≡ cursor)
      × (is_block (global_value objs base cursor g).2 ≡ false)
unfolding global_value
other_value objs base cursor g h = (ground arith, ground arith)

abbrev placed : (base at : ℕ) → Global → Global
placed base at g = record g { common_addr = u64 (base + at); value = u64 (base + at) }

block_value :
    (objs : List Object) (base cursor : ℕ) (g : Global)
    → is_block g ≡ true
    → global_value objs base cursor g
      ≡ (0, u64 (common_start cursor g + g.size), placed base (common_start cursor g) g)
unfolding global_value
block_value objs base cursor g h = ground arith

common_start_lem :
    (cursor : ℕ) (g : Global)
    → cursor + 4096 ≤ 2 ^ 64
    → (common_start cursor g % block_align g ≡ 0)
      × (cursor ≤ common_start cursor g)
      × (common_start cursor g < cursor + 4096)
unfolding common_start
common_start_lem cursor g room =
    let (pos, small) = block_align-bounds g in
    let (multiple, above, close, _) = align_up_least cursor (block_align g) pos (omega arith) in
    (multiple, above, omega arith)

global_values-Blocks :
    (gs : List Global) (objs : List Object) (base cursor : ℕ)
    → cursor + block_demand gs < 2 ^ 64
    → Blocks base cursor (global_values objs base cursor gs).1 (global_values objs base cursor gs).2
unfolding Blocks global_values
global_values-Blocks [] objs base cursor room = omega arith
global_values-Blocks (g ∷ gs) objs base cursor room = elim (Bool-cases (is_block g)) [
  | inl block ↦
      let at = common_start cursor g in
      let need : cursor + (4096 + g.size + block_demand gs) < 2 ^ 64 =
        ground (arith, block, room) in
      let (multiple, above, close) = common_start_lem cursor g (omega arith) in
      let next : u64 (at + g.size) ≡ at + g.size = omega arith in
      rw (block_value objs base cursor g block, block, next)
        (
          at,
          above,
          multiple,
          refl,
          refl,
          global_values-Blocks gs objs base (at + g.size) (omega arith),
        )
  | inr other ↦
      let (same, still) = other_value objs base cursor g other in
      let need : cursor + block_demand gs < 2 ^ 64 = ground (arith, other, room) in
      rw (still, same) (global_values-Blocks gs objs base cursor need)
]

global_values-close :
    (gs : List Global) (objs : List Object) (base cursor : ℕ)
    → cursor + block_demand gs < 2 ^ 64
    → (cursor ≤ (global_values objs base cursor gs).1)
      × ((global_values objs base cursor gs).1 ≤ cursor + block_demand gs)
unfolding global_values
global_values-close [] objs base cursor room = (omega arith, omega arith)
global_values-close (g ∷ gs) objs base cursor room = elim (Bool-cases (is_block g)) [
  | inl block ↦
      let at = common_start cursor g in
      let need : cursor + (4096 + g.size + block_demand gs) < 2 ^ 64 =
        ground (arith, block, room) in
      let (_, above, close) = common_start_lem cursor g (omega arith) in
      let next : u64 (at + g.size) ≡ at + g.size = omega arith in
      let (low, high) = global_values-close gs objs base (at + g.size) (omega arith) in
      rw (block_value objs base cursor g block, block, next) (omega arith, omega arith)
  | inr other ↦
      let (same, _) = other_value objs base cursor g other in
      let need : cursor + block_demand gs < 2 ^ 64 = ground (arith, other, room) in
      let (low, high) = global_values-close gs objs base cursor need in
      rw (same, other) (omega arith, omega arith)
]

cursor_start_lem :
    (ctx : Context)
    → ctx.data_offset + ctx.data_memsz + 16 ≤ 2 ^ 64
    → (ctx.data_offset + ctx.data_memsz ≤ common_cursor_start ctx)
      × (common_cursor_start ctx < ctx.data_offset + ctx.data_memsz + 16)
unfolding common_cursor_start
cursor_start_lem ctx room =
    let end = ctx.data_offset + ctx.data_memsz in
    let exact : u64 end ≡ end = omega arith in
    let (_, above, close, _) = align_up_least (u64 end) 16 (omega arith) (omega arith) in
    (omega arith, omega arith)

same_globals :
    (ctx : Context)
    → (compute_global_values ctx).globals
      ≡ (global_values ctx.objects ctx.base_addr (common_cursor_start ctx) ctx.globals).2
unfolding compute_global_values
same_globals ctx = ground arith

-- If the data segment and all common blocks, each with a page to spare, fit below 2 ^ 64, then
-- `compute_global_values` puts the blocks that no definition replaced behind the data in table
-- order, each after the one before it, at an offset that is a multiple of its alignment, which is
-- taken as at most 4096, with base plus offset as its value; and if they take up any room, the data segment is there and its size in memory takes them in.
pub compute_global_values-Blocks :
    (ctx : Context)
    → ctx.data_offset + ctx.data_memsz + 16 + block_demand ctx.globals < 2 ^ 64
    → (last : ℕ) × Blocks ctx.base_addr
        (common_cursor_start ctx)
        last
        (compute_global_values ctx).globals
      × (ctx.data_offset + ctx.data_memsz ≤ common_cursor_start ctx)
      × (common_cursor_start ctx < last
          → (last ≤ ctx.data_offset + (compute_global_values ctx).data_memsz)
            × ((compute_global_values ctx).has_rw_segment ≡ true))
unfolding compute_global_values
compute_global_values-Blocks ctx room =
    let start = common_cursor_start ctx in
    let values = global_values ctx.objects ctx.base_addr start ctx.globals in
    let (low, high) = cursor_start_lem ctx (omega arith) in
    let (from, to) =
      global_values-close ctx.globals ctx.objects ctx.base_addr start (omega arith) in
    (
      values.1,
      rw (same_globals ctx)
          (global_values-Blocks ctx.globals ctx.objects ctx.base_addr start (omega arith)),
      low,
      λ grows. (ground arith, ground arith),
    )
