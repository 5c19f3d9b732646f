-- ===== src/Srapi/Command/Log.antt =====
-- libs/srapi/src/core/command.c: a command buffer as the log of the accepted commands.
use one_tool.Common.{
  ℕ, ◌+◌, ◌-◌, ◌*◌, ◌/◌, ◌%◌, ◌^◌, ◌≤◌, ◌<◌, Bool, true, false, not, List, [], ◌∷◌, ◌++◌, Option,
  none, some, ltb, ◌==◌, ◌||◌, if◌then◌else◌, length, All, ◌≡◌, ◌≢◌, refl, ap, sym, arith,
  Bool-cases, Option-cases, inl, inr, ◌∙◌, length_snoc,
}
use mathlib.Core.Path.{subst}
use mathlib.Core.List.{append-nil, append_assoc}
use one_tool.Common.Bits.{u64}
use one_tool.Srapi.Types.{ok, bad_arg}
use one_tool.Srapi.Command.{
  srapi_create_cmd_buffer, Buffer, Draw, Command, CmdBuffer, clear, fill_rect, draw_line,
  fill_triangle, shade_rect, draw_vertices, set_scissor, set_viewport, set_blend, buffer_range_ok,
  draw_ok, arguments_ok, primitive_group_size, srapi_cmd_push, srapi_cmd_emit, record_command,
  record_all, new_capacity, command_size, index_ok, draw_count,
}

-- The vertices or indices that a draw reads lie inside the buffer.
abbrev pub Holds : Buffer → ℕ → ℕ → ℕ → Type 0
Holds b offset count item_size = (offset + count) * item_size ≤ b.size

range_lem :
    (b : Buffer) (offset count : ℕ)
    → (buffer_range_ok b offset count 12 ≡ true → Holds b offset count 12)
      × (buffer_range_ok b offset count 4 ≡ true → Holds b offset count 4)
unfolding buffer_range_ok
range_lem b offset count = (λ h. ground (arith, h), λ h. ground (arith, h))

-- What every recorded command satisfies.
abbrev pub IsDrawable : Draw → Buffer → Type 0
IsDrawable d vertices =
    (1 ≤ d.topology)
    × (d.topology ≤ 3)
    × Holds vertices d.vertex_offset d.vertex_count 12
    × (0 < draw_count d.index_buffer d.index_count d.vertex_count)
    × (draw_count d.index_buffer d.index_count d.vertex_count % d.topology ≡ 0)
    × ((b : Buffer) → d.index_buffer ≡ some b → Holds b d.index_offset d.index_count 4)

abbrev pub IsRecordable : Command → Type 0
IsRecordable (clear color) = Unit
IsRecordable (fill_rect x y width height color) = (0 < width) × (0 < height)
IsRecordable (draw_line x0 y0 x1 y1 color) = Unit
IsRecordable (fill_triangle x0 y0 x1 y1 x2 y2 color) = Unit
IsRecordable (shade_rect x y width height shader) = (0 < width) × (0 < height) × (shader ≢ none)
IsRecordable (draw_vertices d) = (b : Buffer) × (d.vertex_buffer ≡ some b) × IsDrawable d b
IsRecordable (set_scissor x y width height) = (0 < width) × (0 < height)
IsRecordable (set_viewport x y width height) = (0 < width) × (0 < height)
IsRecordable (set_blend mode) = mode ≤ 1

group_lem :
    (t : ℕ)
    → (primitive_group_size t == 0) ≡ false
    → (primitive_group_size t ≡ t) × (1 ≤ t) × (t ≤ 3)
unfolding primitive_group_size
group_lem t h = ground (arith, h)

index_lem :
    (o : Option Buffer) (offset count : ℕ)
    → index_ok o offset count ≡ true
    → (b : Buffer) → o ≡ some b
    → Holds b offset count 4
unfolding index_ok
index_lem none offset count h b e = cc
index_lem (some c) offset count h b e =
    let same : c ≡ b = ground arith in
    let fits : buffer_range_ok c offset count 4 ≡ true = ground (arith, h) in
    rw (← same) ((range_lem c offset count).1 fits)

three_guards :
    (p q r s : Bool)
    → (if p then false else if q then false else if r then false else s) ≡ true
    → (p ≡ false) × (q ≡ false) × (r ≡ false) × (s ≡ true)
three_guards p q r s h = ground (arith, h)

draw_ok-IsDrawable : (d : Draw) (b : Buffer) → draw_ok d b ≡ true → IsDrawable d b
unfolding draw_ok
draw_ok-IsDrawable d b h =
    let (sizes, vertices, indices, whole) =
      three_guards (primitive_group_size d.topology == 0 || d.vertex_count == 0)
        (not (buffer_range_ok b d.vertex_offset d.vertex_count 12))
        (not (index_ok d.index_buffer d.index_offset d.index_count))
        (not (
          draw_count d.index_buffer d.index_count d.vertex_count == 0
          || not (
              draw_count d.index_buffer d.index_count d.vertex_count
                % primitive_group_size d.topology
              == 0)))
        h in
    let group : (primitive_group_size d.topology == 0) ≡ false = ground (arith, sizes) in
    let (same, least, most) = group_lem d.topology group in
    let fits : buffer_range_ok b d.vertex_offset d.vertex_count 12 ≡ true =
      ground (arith, vertices) in
    let indexed : index_ok d.index_buffer d.index_offset d.index_count ≡ true =
      ground (arith, indices) in
    let divides : draw_count d.index_buffer d.index_count d.vertex_count
          % primitive_group_size d.topology
        ≡ 0 =
      ground (arith, whole) in
    (
      least,
      most,
      (range_lem b d.vertex_offset d.vertex_count).0 fits,
      ground (arith, whole),
      rw same at divides,
      index_lem d.index_buffer d.index_offset d.index_count indexed,
    )

arguments_ok-IsRecordable : (c : Command) → arguments_ok c ≡ true → IsRecordable c
unfolding arguments_ok
arguments_ok-IsRecordable (draw_vertices d) h = elim (Option-cases d.vertex_buffer) [
  | inl e ↦ absurd (ground (arith, e, h))
  | inr (b, e) ↦ (b, e, draw_ok-IsDrawable d b (ground (arith, e, h)))
]
arguments_ok-IsRecordable (clear color) h = tt
arguments_ok-IsRecordable (draw_line x0 y0 x1 y1 color) h = tt
arguments_ok-IsRecordable (fill_triangle x0 y0 x1 y1 x2 y2 color) h = tt
arguments_ok-IsRecordable (fill_rect x y width height color) h = ground (arith, h)
arguments_ok-IsRecordable (shade_rect x y width height none) h = cc
arguments_ok-IsRecordable (shade_rect x y width height (some shader)) h =
    (ground (arith, h), ground (arith, h), λ e. cc)
arguments_ok-IsRecordable (set_scissor x y width height) h = ground (arith, h)
arguments_ok-IsRecordable (set_viewport x y width height) h = ground (arith, h)
arguments_ok-IsRecordable (set_blend mode) h = ground (arith, h)

-- The commands of a sequence of calls that pass the guards.
abbrev pub accepted : List Command → List Command
accepted [] = []
accepted (c ∷ cs) = if arguments_ok c then c ∷ accepted cs else accepted cs

accepted-IsRecordable : (cs : List Command) → All IsRecordable (accepted cs)
accepted-IsRecordable [] = tt
accepted-IsRecordable (c ∷ cs) = elim (Bool-cases (arguments_ok c)) [
  | inl e ↦ rw e (arguments_ok-IsRecordable c e, accepted-IsRecordable cs)
  | inr e ↦ rw e (accepted-IsRecordable cs)
]

-- The capacities that growth gives: at least the items, at most twice as many and 16.
abbrev pub IsRoomy : CmdBuffer → Type 0
IsRoomy cmd = (length cmd.items ≤ cmd.capacity) × (cmd.capacity ≤ 16 + 2 * length cmd.items)

log_lem :
    (pushed items : List Command) (c : Command) (cs : List Command)
    → pushed ≡ items ++ c ∷ []
    → pushed ++ cs ≡ items ++ c ∷ cs
log_lem pushed items c cs e = rw (e, append_assoc)

grown_lem :
    (capacity count : ℕ)
    → count < 2 ^ 56
    → capacity ≡ count
    → ((ltb (new_capacity capacity) capacity
          || ltb ((2 ^ 64 - 1) / command_size) (new_capacity capacity))
        ≡ false)
      × (capacity < new_capacity capacity)
      × (new_capacity capacity ≤ 16 + 2 * capacity)
unfolding new_capacity
grown_lem capacity count few same =
    let wrap : u64 (capacity * 2) ≡ capacity * 2 = omega arith in
    elim (Bool-cases (capacity == 0)) [
      | inl e ↦ rw e (ground (arith, e), ground (arith, e), ground (arith, e))
      | inr e ↦ rw (e, wrap) (ground (arith, e), ground (arith, e), omega arith)
    ]

module _ (reallocates : ℕ → Bool) (never_fails : (n : ℕ) → reallocates n ≡ true) where
  push_lem :
      (cmd : CmdBuffer) (c : Command)
      → IsRoomy cmd
      → length cmd.items < 2 ^ 56
      → ((srapi_cmd_push reallocates cmd c).0 ≡ ok)
        × ((srapi_cmd_push reallocates cmd c).1.items ≡ cmd.items ++ c ∷ [])
        × IsRoomy (srapi_cmd_push reallocates cmd c).1
  unfolding srapi_cmd_push new_capacity
  push_lem cmd c roomy few =
      let more = length_snoc cmd.items c in
      elim (Bool-cases (length cmd.items == cmd.capacity)) [
        | inl full ↦
            let bounds = grown_lem cmd.capacity (length cmd.items) few (ground (arith, full)) in
            let given = never_fails (new_capacity cmd.capacity * command_size) in
            rw (full, bounds.0, given)
              (refl, refl, (ground (arith, full, more, bounds), ground (arith, full, more, bounds)))
        | inr free ↦ rw free (refl, refl, (ground (arith, free, more), ground (arith, more)))
      ]

  record_lem :
      (cmd : CmdBuffer) (c : Command)
      → arguments_ok c ≡ true
      → record_command reallocates cmd c ≡ srapi_cmd_push reallocates cmd c
  unfolding record_command srapi_cmd_emit
  record_lem cmd c e = rw (record_command, e)

  refuse_lem :
      (cmd : CmdBuffer) (c : Command)
      → arguments_ok c ≡ false
      → record_command reallocates cmd c ≡ (bad_arg, cmd)
  unfolding record_command
  refuse_lem cmd c e = rw (record_command, e)

  record_all-lem :
      (cmd : CmdBuffer) (cs : List Command)
      → IsRoomy cmd
      → length cmd.items + length cs < 2 ^ 56
      → ((record_all reallocates cmd cs).items ≡ cmd.items ++ accepted cs)
        × IsRoomy (record_all reallocates cmd cs)
  unfolding record_all
  record_all-lem cmd [] roomy few = (sym (append-nil cmd.items), roomy)
  record_all-lem cmd (c ∷ cs) roomy few = elim (Bool-cases (arguments_ok c)) [
    | inl e ↦
        let (fine, pushed, room) = push_lem cmd c roomy (omega arith) in
        let more = length_snoc cmd.items c in
        let size : length (srapi_cmd_push reallocates cmd c).1.items
            ≡ length (cmd.items ++ c ∷ []) =
          ap length pushed in
        let (logged, kept) =
          record_all-lem (srapi_cmd_push reallocates cmd c).1 cs room (omega arith) in
        rw (record_all, record_lem cmd c e, e)
          (logged ∙ log_lem _ cmd.items c (accepted cs) pushed, kept)
    | inr e ↦ rw (record_all, refuse_lem cmd c e, e) (record_all-lem cmd cs roomy (omega arith))
  ]

  -- If no reallocation fails, a new command buffer after any sequence of fewer than 2^56 calls of
  -- srapi_cmd_clear to srapi_cmd_set_blend, but none of srapi_cmd_emit itself, holds the commands of
  -- the calls that passed their guards, in order, within its capacity; and each of them is fit to be
  -- drawn: sizes are not zero, the vertices and indices of a draw lie inside their buffers, and their
  -- number is a multiple of the primitive's.
  pub record_all-accepted :
      (cs : List Command)
      → length cs < 2 ^ 56
      → let cmd = record_all reallocates srapi_create_cmd_buffer cs in
        (cmd.items ≡ accepted cs) × (length cmd.items ≤ cmd.capacity) × All IsRecordable cmd.items
  unfolding srapi_create_cmd_buffer
  record_all-accepted cs few =
      let (logged, room) =
        record_all-lem srapi_create_cmd_buffer cs (omega arith, omega arith) (omega arith) in
      (logged, room.0, subst (All IsRecordable) (sym logged) (accepted-IsRecordable cs))
