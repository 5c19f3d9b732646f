-- ===== src/Srapi/Command.antt =====
-- libs/srapi/src/core/command.c: recording of commands. A shader is a number; a buffer is what the
-- range checks read of it; the kinds and modes that are not in their enumerations are kept as
-- numbers, since the functions test for them. `reallocates` says whether `realloc` gives so many
-- bytes. A buffer that is NULL is `none`.
pub mod Log
use one_tool.Common.{
  ℕ, zero, suc, ◌+◌, ◌-◌, ◌*◌, ◌/◌, ◌%◌, ◌^◌, Bool, true, false, not, List, [], ◌∷◌, ◌++◌, Option,
  none, some, ltb, leb, ◌==◌, ◌||◌, ◌&&◌, if◌then◌else◌, length,
}
use one_tool.Common.Int.{ℤ}
use one_tool.Common.Bits.{u64}
use one_tool.Srapi.Types.{SrapiResult, ok, bad_arg, oom, overflow}

-- The size in bytes.
pub record Buffer : Type 0 where
  pub size : ℕ

-- What a draw of vertices names.
pub record Draw : Type 0 where
  pub topology : ℕ
  pub vertex_buffer : Option Buffer
  pub vertex_offset : ℕ
  pub vertex_count : ℕ
  pub index_buffer : Option Buffer
  pub index_offset : ℕ
  pub index_count : ℕ
  pub shader : Option ℕ

pub data Command : Type 0 where
  clear : (color : ℕ) → Command
  fill_rect : (x y : ℤ) (width height color : ℕ) → Command
  draw_line : (x0 y0 x1 y1 : ℤ) (color : ℕ) → Command
  fill_triangle : (x0 y0 x1 y1 x2 y2 : ℤ) (color : ℕ) → Command
  shade_rect : (x y : ℤ) (width height : ℕ) (shader : Option ℕ) → Command
  draw_vertices : Draw → Command
  set_scissor : (x y : ℤ) (width height : ℕ) → Command
  set_viewport : (x y : ℤ) (width height : ℕ) → Command
  set_blend : (mode : ℕ) → Command

pub record CmdBuffer : Type 0 where
  pub items : List Command
  pub capacity : ℕ

-- `srapi_create_cmd_buffer`, from `calloc`.
unfoldable pub srapi_create_cmd_buffer : CmdBuffer
srapi_create_cmd_buffer = record { items = []; capacity = 0 }

-- `buffer_range_ok` for a buffer that is not NULL; items have a positive size.
unfoldable pub buffer_range_ok : Buffer → ℕ → ℕ → ℕ → Bool
buffer_range_ok buffer offset count item_size =
    if item_size == 0 || not (buffer.size % item_size == 0)
    then false
    else let available = buffer.size / item_size in
      leb offset available && leb count (available - offset)

-- `sizeof(srapi_command_t)`.
abbrev pub command_size : ℕ
command_size = 112

unfoldable pub srapi_cmd_reset : CmdBuffer → CmdBuffer
srapi_cmd_reset cmd = record cmd { items = [] }

unfoldable pub new_capacity : ℕ → ℕ
new_capacity capacity = if capacity == 0 then 16 else u64 (capacity * 2)

unfoldable pub primitive_group_size : ℕ → ℕ
primitive_group_size topology =
    if topology == 1 then 1 else if topology == 2 then 2 else if topology == 3 then 3 else 0

-- The tests of the index buffer, if there is one.
unfoldable pub index_ok : Option Buffer → ℕ → ℕ → Bool
unfolding buffer_range_ok
index_ok none index_offset index_count = true
index_ok (some b) index_offset index_count =
    not (index_count == 0) && buffer_range_ok b index_offset index_count 4

-- `index_buffer != NULL ? index_count : vertex_count`.
unfoldable pub draw_count : Option Buffer → ℕ → ℕ → ℕ
draw_count none index_count vertex_count = vertex_count
draw_count (some b) index_count vertex_count = index_count

-- The guards of `srapi_cmd_draw_vertices` with a vertex buffer, and of
-- `srapi_cmd_draw_vertices_shader`, whose further guard is its shader.
unfoldable pub draw_ok : Draw → Buffer → Bool
unfolding buffer_range_ok primitive_group_size index_ok draw_count
draw_ok d vertices =
    let group_size = primitive_group_size d.topology in
    let drawn = draw_count d.index_buffer d.index_count d.vertex_count in
    if group_size == 0 || d.vertex_count == 0
    then false
    else if not (buffer_range_ok vertices d.vertex_offset d.vertex_count 12)
    then false
    else if not (index_ok d.index_buffer d.index_offset d.index_count)
    then false
    else not (drawn == 0 || not (drawn % group_size == 0))

-- The guards of the recording functions, one function for each kind of command.
unfoldable pub arguments_ok : Command → Bool
unfolding draw_ok
arguments_ok (clear color) = true
arguments_ok (fill_rect x y width height color) = not (width == 0 || height == 0)
arguments_ok (draw_line x0 y0 x1 y1 color) = true
arguments_ok (fill_triangle x0 y0 x1 y1 x2 y2 color) = true
arguments_ok (shade_rect x y width height none) = false
arguments_ok (shade_rect x y width height (some shader)) = not (width == 0 || height == 0)
arguments_ok (draw_vertices d) = elim d.vertex_buffer [
  | none ↦ false
  | some vertices ↦ draw_ok d vertices
]
arguments_ok (set_scissor x y width height) = not (width == 0 || height == 0)
arguments_ok (set_viewport x y width height) = not (width == 0 || height == 0)
arguments_ok (set_blend mode) = mode == 0 || mode == 1

module _ (reallocates : ℕ → Bool) where
  unfoldable pub srapi_cmd_push : CmdBuffer → Command → SrapiResult × CmdBuffer
  unfolding new_capacity
  srapi_cmd_push cmd item =
      let added = cmd.items ++ item ∷ [] in
      let grown = new_capacity cmd.capacity in
      if length cmd.items == cmd.capacity
      then (if ltb grown cmd.capacity || ltb ((2 ^ 64 - 1) / command_size) grown
          then (overflow, cmd)
          else if reallocates (grown * command_size)
          then (ok, record { items = added; capacity = grown })
          else (oom, cmd))
      else (ok, record cmd { items = added })

  -- `none` is a NULL pointer or a command of a kind that is not in the enumeration.
  unfoldable pub srapi_cmd_emit : CmdBuffer → Option Command → SrapiResult × CmdBuffer
  unfolding srapi_cmd_push
  srapi_cmd_emit cmd none = (bad_arg, cmd)
  srapi_cmd_emit cmd (some item) = srapi_cmd_push cmd item

  -- `srapi_cmd_clear` to `srapi_cmd_set_blend`: the guards of each, then `srapi_cmd_emit`.
  unfoldable pub record_command : CmdBuffer → Command → SrapiResult × CmdBuffer
  unfolding arguments_ok srapi_cmd_emit
  record_command cmd item =
      if arguments_ok item then srapi_cmd_emit cmd (some item) else (bad_arg, cmd)

  -- A sequence of calls of these functions, whatever they return.
  unfoldable pub record_all : CmdBuffer → List Command → CmdBuffer
  unfolding record_command
  record_all cmd [] = cmd
  record_all cmd (item ∷ items) = record_all (record_command cmd item).1 items
