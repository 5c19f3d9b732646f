-- ===== src/Srapi/Queue.antt =====
-- libs/srapi/src/core/queue.c: copies between buffers and images; the storage of an image created
-- by image.c. The bytes of a buffer or an image are a function of the offset. A device is a number; no
-- pointer to a queue, a resource or a region is NULL.
pub mod Bounds
pub mod Copies
use one_tool.Common.{
  ℕ, zero, suc, ◌+◌, ◌-◌, ◌*◌, ◌/◌, ◌%◌, ◌^◌, Bool, true, false, not, Option, none, some, ltb, leb,
  ◌==◌, ◌||◌, ◌&&◌, if◌then◌else◌,
}
use one_tool.Srapi.Types.{SrapiResult, ok, bad_arg, unsupported}
use one_tool.Srapi.Command.{Buffer}

-- The fields of `srapi_image_t` that copies read.
pub record Image : Type 0 where
  pub width : ℕ
  pub height : ℕ
  pub pitch : ℕ

pub record Region : Type 0 where
  pub buffer_offset : ℕ
  pub image_x : ℕ
  pub image_y : ℕ
  pub width : ℕ
  pub height : ℕ

-- `image_size`: pitch and size.
unfoldable pub image_size : ℕ → ℕ → Option (ℕ × ℕ)
image_size width height =
    let p = width * 4 in
    let total = (p * height) % 2 ^ 64 in
    if width == 0 || height == 0 || ltb (2 ^ 32 - 1) p || ltb (2 ^ 64 - 1) total
    then none
    else some (p, total)

abbrev pub size_max : ℕ
size_max = 2 ^ 64 - 1

unfoldable pub copy_region_ok : Buffer → Image → Region → Bool
copy_region_ok buffer image region =
    let row_bytes = region.width * 4 in
    let copy_bytes = row_bytes * region.height in
    if region.width == 0 || region.height == 0
    then false
    else if ltb image.width region.image_x
        || ltb image.height region.image_y
        || ltb (image.width - region.image_x) region.width
        || ltb (image.height - region.image_y) region.height
    then false
    else if ltb (size_max / 4) region.width
    then false
    else if ltb (size_max / row_bytes) region.height
    then false
    else if ltb (size_max - copy_bytes) region.buffer_offset
    then false
    else leb (region.buffer_offset + copy_bytes) buffer.size

abbrev pub Bytes : Type 0
Bytes = ℕ → ℕ

-- `memcpy` of `n` bytes between objects that do not overlap.
unfoldable pub memcpy : Bytes → ℕ → Bytes → ℕ → ℕ → Bytes
memcpy dst to src from n k = if leb to k && ltb k (to + n) then src (from + (k - to)) else dst k

-- Where a row of a region starts, in the image and in the buffer.
abbrev pub image_row : Image → Region → ℕ → ℕ
image_row image region y = (region.image_y + y) * image.pitch + region.image_x * 4

abbrev pub buffer_row : Region → ℕ → ℕ
buffer_row region y = region.buffer_offset + y * (region.width * 4)

-- The loops of both directions over `n` rows from `y` on, between the starts of the rows.
unfoldable pub copy_rows : (ℕ → ℕ) → (ℕ → ℕ) → ℕ → Bytes → ℕ → ℕ → Bytes → Bytes
unfolding memcpy
copy_rows to from row_bytes src zero y dst = dst
copy_rows to from row_bytes src (suc n) y dst =
    copy_rows to from row_bytes src n (y + 1) (memcpy dst (to y) src (from y) row_bytes)

-- What `check_copy_args` reads besides the region: the devices, the usage flags, the pointers to the
-- storage, and which checks `srapi_backend_check_enabled` reports for the queue's backend.
pub record Access : Type 0 where
  pub check_ownership : Bool
  pub check_usage : Bool
  pub queue_device : ℕ
  pub buffer_device : ℕ
  pub image_device : ℕ
  pub buffer_usage : ℕ
  pub image_usage : ℕ
  pub buffer_data : Bool
  pub image_data : Bool

-- `usage & (1u << bit)`.
abbrev pub has_flag : (usage bit : ℕ) → Bool
has_flag usage bit = usage / 2 ^ bit % 2 == 1

-- `SRAPI_BUFFER_TRANSFER_SRC` and `_DST`, `SRAPI_IMAGE_TRANSFER_SRC` and `_DST`: bits 0 and 1.
abbrev pub transfer_src : ℕ
transfer_src = 0

abbrev pub transfer_dst : ℕ
transfer_dst = 1

unfoldable pub check_copy_args :
    Access → Buffer → Image → Region → (buffer_bit image_bit : ℕ) → SrapiResult
unfolding copy_region_ok
check_copy_args access buffer image region buffer_bit image_bit =
    if access.check_ownership
      && (not (access.buffer_device == access.queue_device)
          || not (access.image_device == access.queue_device))
    then bad_arg
    else if not access.image_data
    then unsupported
    else if access.check_usage && not (has_flag access.buffer_usage buffer_bit)
    then bad_arg
    else if access.check_usage && not (has_flag access.image_usage image_bit)
    then bad_arg
    else if not (copy_region_ok buffer image region)
    then bad_arg
    else ok

-- The rest of both functions: `r` is what `check_copy_args` gives, `stored` whether both have storage.
unfoldable pub copied_if :
    (r : SrapiResult) → (stored : Bool) → (copied dst : Bytes) → SrapiResult × Bytes
copied_if ok stored copied dst = if stored then (ok, copied) else (bad_arg, dst)
copied_if r stored copied dst = (r, dst)

unfoldable pub srapi_queue_copy_buffer_to_image :
    Access → Buffer → Bytes → Image → Bytes → Region → SrapiResult × Bytes
unfolding check_copy_args copy_rows copied_if
srapi_queue_copy_buffer_to_image access buffer src image dst region =
    copied_if (check_copy_args access buffer image region transfer_src transfer_dst)
      (access.buffer_data && access.image_data)
      (copy_rows (image_row image region) (buffer_row region) (region.width * 4) src region.height 0
        dst)
      dst

unfoldable pub srapi_queue_copy_image_to_buffer :
    Access → Image → Bytes → Buffer → Bytes → Region → SrapiResult × Bytes
unfolding check_copy_args copy_rows copied_if
srapi_queue_copy_image_to_buffer access image src buffer dst region =
    copied_if (check_copy_args access buffer image region transfer_dst transfer_src)
      (access.image_data && access.buffer_data)
      (copy_rows (buffer_row region) (image_row image region) (region.width * 4) src region.height 0
        dst)
      dst
