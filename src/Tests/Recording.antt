-- ===== src/Tests/Recording.antt =====
-- Runs of command recording (libs/srapi/src/core/command.c) and of the copies of queue.c.
use one_tool.Common.{
  ℕ, ◌+◌, ◌*◌, ◌≤◌, ◌<◌, Bool, true, List, [], ◌∷◌, none, some, length, All, ◌≡◌, ◌⊎◌, refl, arith,
}
use one_tool.Common.Int.{pos}
use one_tool.Srapi.Types.{ok}
use one_tool.Srapi.Command.{
  Buffer, Command, clear, fill_rect, draw_vertices, record_all, srapi_create_cmd_buffer,
}
use one_tool.Srapi.Command.Log.{accepted, IsRecordable, record_all-accepted}
use one_tool.Srapi.Queue.{
  Image, Region, Bytes, Access, transfer_src, transfer_dst, image_size, image_row, buffer_row,
  copy_region_ok, srapi_queue_copy_buffer_to_image, srapi_queue_copy_image_to_buffer,
}
use one_tool.Srapi.Queue.Bounds.{copy_region_ok-inside}
use one_tool.Srapi.Queue.Copies.{MayCopy, copy_through_buffer}

-- Two triangles' vertices of twelve bytes each; the rectangle without height is refused.
abbrev calls : List Command
calls =
    clear 7
    ∷ fill_rect (pos 0) (pos 0) 3 0 7
    ∷ draw_vertices (record {
      topology = 3;
      vertex_buffer = some (record { size = 72 });
      vertex_offset = 0;
      vertex_count = 6;
      index_buffer = none;
      index_offset = 0;
      index_count = 0;
      shader = none;
    })
    ∷ []

abbrev plenty : ℕ → Bool
plenty n = true

two_kept : length (record_all plenty srapi_create_cmd_buffer calls).items ≡ 2
unfolding record_all srapi_create_cmd_buffer
two_kept = refl

record_all-accepted_example :
    (let cmd = record_all plenty srapi_create_cmd_buffer calls in
      (cmd.items ≡ accepted calls) × (length cmd.items ≤ cmd.capacity) × All IsRecordable cmd.items)
record_all-accepted_example = record_all-accepted plenty (λ n. refl) calls (omega arith)

abbrev picture : Image
picture = record { width = 4; height = 2; pitch = 16 }

-- Two columns of both rows.
abbrev part : Region
part = record { buffer_offset = 3; image_x = 1; image_y = 0; width = 2; height = 2 }

abbrev nineteen_bytes : Buffer
nineteen_bytes = record { size = 19 }

copy_region_ok-inside_example :
    (image_row picture part 1 + 2 * 4 ≤ 32) × (buffer_row part 1 + 2 * 4 ≤ 19)
unfolding copy_region_ok image_size
copy_region_ok-inside_example =
    copy_region_ok-inside nineteen_bytes picture part 32 1 (omega arith) refl refl (omega arith)

abbrev counted : Bytes
counted k = k

abbrev blank_bytes : Bytes
blank_bytes k = 0

-- Both checks are on, and all flags are set.
abbrev open_access : Access
open_access = record {
  check_ownership = true;
  check_usage = true;
  queue_device = 5;
  buffer_device = 5;
  image_device = 5;
  buffer_usage = 3;
  image_usage = 3;
  buffer_data = true;
  image_data = true;
}

open_taking : MayCopy open_access transfer_dst transfer_src
open_taking = record {
  buffer_owned = λ e. refl;
  image_owned = λ e. refl;
  buffer_use = λ e. refl;
  image_use = λ e. refl;
  buffer_stored = refl;
  image_stored = refl;
}

open_giving : MayCopy open_access transfer_src transfer_dst
open_giving = record {
  buffer_owned = λ e. refl;
  image_owned = λ e. refl;
  buffer_use = λ e. refl;
  image_use = λ e. refl;
  buffer_stored = refl;
  image_stored = refl;
}

copy_through_buffer_example :
    (let taken =
        srapi_queue_copy_image_to_buffer open_access picture counted nineteen_bytes blank_bytes
          part in
      let given =
        srapi_queue_copy_buffer_to_image open_access nineteen_bytes taken.1 picture blank_bytes
          part in
      (taken.0 ≡ ok)
      × (given.0 ≡ ok)
      × ((j k : ℕ)
          → j < 2
          → k < 2 * 4
          → given.1 (image_row picture part j + k) ≡ counted (image_row picture part j + k))
      × ((at : ℕ)
          → ((j : ℕ)
              → j < 2
              → (at < image_row picture part j) ⊎ (image_row picture part j + 2 * 4 ≤ at))
          → given.1 at ≡ blank_bytes at))
unfolding copy_region_ok
copy_through_buffer_example =
    copy_through_buffer open_access open_access picture picture nineteen_bytes part counted
      blank_bytes blank_bytes open_taking open_giving (omega arith) refl refl
