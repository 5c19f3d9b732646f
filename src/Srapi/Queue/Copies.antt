-- ===== src/Srapi/Queue/Copies.antt =====
-- libs/srapi/src/core/queue.c: which bytes the copies write.
use one_tool.Common.{
  ℕ, zero, suc, ◌+◌, ◌-◌, ◌*◌, ◌/◌, ◌%◌, ◌^◌, not, ◌||◌, ◌==◌, ◌≤◌, ◌<◌, true, false, ltb, leb,
  ◌&&◌, ◌≡◌, ◌⊎◌, inl, inr, ◌∙◌, refl, arith,
}
use mathlib.Core.Path.{subst, sym}
use native.Mathlib.Nat.{mul-le-mul_right}
use one_tool.Srapi.Types.{ok}
use one_tool.Srapi.Command.{Buffer}
use one_tool.Srapi.Queue.{
  Image, Region, Bytes, memcpy, copy_rows, copy_region_ok, image_row, buffer_row, Access, has_flag,
  transfer_src, transfer_dst, check_copy_args, copied_if, srapi_queue_copy_buffer_to_image,
  srapi_queue_copy_image_to_buffer,
}
use one_tool.Srapi.Queue.Bounds.{copy_region_ok_lem}

memcpy_inside :
    (dst src : Bytes) (to from n k : ℕ) → k < n → memcpy dst to src from n (to + k) ≡ src (from + k)
unfolding memcpy
memcpy_inside dst src to from n k h =
    let hit : (leb to (to + k) && ltb (to + k) (to + n)) ≡ true = ground arith in
    let back : to + k - to ≡ k = omega arith in rw (hit, back)

memcpy_outside :
    (dst src : Bytes) (to from n at : ℕ)
    → (at < to) ⊎ (to + n ≤ at)
    → memcpy dst to src from n at ≡ dst at
unfolding memcpy
memcpy_outside dst src to from n at (inl h) =
    let miss : (leb to at && ltb at (to + n)) ≡ false = ground arith in rw miss
memcpy_outside dst src to from n at (inr h) =
    let miss : (leb to at && ltb at (to + n)) ≡ false = ground arith in rw miss

module _ (to from : ℕ → ℕ) (width : ℕ) (src : Bytes)
    (apart : (y z : ℕ) → y < z → to y + width ≤ to z) where
  copy_rows_outside :
      (n y at : ℕ) (dst : Bytes)
      → ((j : ℕ) → j < n → (at < to (y + j)) ⊎ (to (y + j) + width ≤ at))
      → copy_rows to from width src n y dst at ≡ dst at
  unfolding copy_rows
  copy_rows_outside zero y at dst h = refl
  copy_rows_outside (suc n) y at dst h =
      copy_rows_outside n (y + 1) at _
        (λ j c. (let e : y + 1 + j ≡ y + suc j = omega arith in rw e (h (suc j) (omega arith))))
      ∙ memcpy_outside dst src (to y) (from y) width at
          (let e : y ≡ y + 0 = omega arith in rw e (h 0 (omega arith)))

  copy_rows_inside :
      (n y : ℕ) (dst : Bytes) (j k : ℕ)
      → j < n
      → k < width
      → copy_rows to from width src n y dst (to (y + j) + k) ≡ src (from (y + j) + k)
  unfolding copy_rows
  copy_rows_inside zero y dst j k h c = absurd (omega arith)
  copy_rows_inside (suc n) y dst zero k h c =
      let e : y + 0 ≡ y = omega arith in
      rw e (
        copy_rows_outside n (y + 1) (to y + k) _
          (λ j d. inl (omega (arith, apart y (y + 1 + j) (omega arith))))
        ∙ memcpy_inside dst src (to y) (from y) width k c)
  copy_rows_inside (suc n) y dst (suc j) k h c =
      let e : y + suc j ≡ y + 1 + j = omega arith in
      rw e (copy_rows_inside n (y + 1) _ j k (omega arith) c)

  all_inside :
      (n : ℕ) (dst : Bytes) (j k : ℕ)
      → j < n
      → k < width
      → copy_rows to from width src n 0 dst (to j + k) ≡ src (from j + k)
  all_inside n dst j k h c =
      let start : 0 + j ≡ j = omega arith in
      subst (λ (i : ℕ). copy_rows to from width src n 0 dst (to i + k) ≡ src (from i + k)) start
        (copy_rows_inside n 0 dst j k h c)

  all_outside :
      (n at : ℕ) (dst : Bytes)
      → ((j : ℕ) → j < n → (at < to j) ⊎ (to j + width ≤ at))
      → copy_rows to from width src n 0 dst at ≡ dst at
  all_outside n at dst h = copy_rows_outside n 0 at dst (λ j c.
      (let start : 0 + j ≡ j = omega arith in
        subst (λ (i : ℕ). (at < to i) ⊎ (to i + width ≤ at)) (sym start) (h j c)))

buffer_apart :
    (region : Region) (y z : ℕ)
    → y < z
    → buffer_row region y + region.width * 4 ≤ buffer_row region z
buffer_apart region y z h =
    let rows : (y + 1) * (region.width * 4) ≤ z * (region.width * 4) =
      mul-le-mul_right (region.width * 4) (omega arith) in
    let next : (y + 1) * (region.width * 4) ≡ y * (region.width * 4) + region.width * 4 =
      grind arith in
    omega arith

image_apart :
    (image : Image) (region : Region)
    → region.width * 4 ≤ image.pitch
    → (y z : ℕ) → y < z
    → image_row image region y + region.width * 4 ≤ image_row image region z
image_apart image region wide y z h =
    let rows : (region.image_y + y + 1) * image.pitch ≤ (region.image_y + z) * image.pitch =
      mul-le-mul_right image.pitch (omega arith) in
    let next : (region.image_y + y + 1) * image.pitch
        ≡ (region.image_y + y) * image.pitch + image.pitch =
      grind arith in
    omega arith

-- The copies are allowed: each resource belongs to the queue's device and has the usage flag that is
-- needed, where the backend checks it, and each has storage.
pub record MayCopy (access : Access) (buffer_bit image_bit : ℕ) : Type 0 where
  pub buffer_owned : access.check_ownership ≡ true → access.buffer_device ≡ access.queue_device
  pub image_owned : access.check_ownership ≡ true → access.image_device ≡ access.queue_device
  pub buffer_use : access.check_usage ≡ true → access.buffer_usage / 2 ^ buffer_bit % 2 ≡ 1
  pub image_use : access.check_usage ≡ true → access.image_usage / 2 ^ image_bit % 2 ≡ 1
  pub buffer_stored : access.buffer_data ≡ true
  pub image_stored : access.image_data ≡ true

MayCopy-check :
    (access : Access) (buffer : Buffer) (image : Image) (region : Region) (buffer_bit image_bit : ℕ)
    → MayCopy access buffer_bit image_bit
    → copy_region_ok buffer image region ≡ true
    → check_copy_args access buffer image region buffer_bit image_bit ≡ ok
unfolding check_copy_args
MayCopy-check access buffer image region buffer_bit image_bit may fits =
    let owned : (access.check_ownership
          && (not (access.buffer_device == access.queue_device)
              || not (access.image_device == access.queue_device)))
        ≡ false =
      ground (arith, may.buffer_owned, may.image_owned) in
    let buffer_flag : (access.check_usage && not (has_flag access.buffer_usage buffer_bit))
        ≡ false =
      ground (arith, may.buffer_use) in
    let image_flag : (access.check_usage && not (has_flag access.image_usage image_bit)) ≡ false =
      ground (arith, may.image_use) in
    rw (owned, may.image_stored, buffer_flag, image_flag, fits) refl

-- If both copies are allowed and one region is accepted for a buffer and for two images whose rows
-- hold their pixels, then copying it from the first image into the buffer and from there into the
-- second image succeeds, gives the second image the first one's bytes in each row of the region, and
-- leaves the second image's bytes outside these rows as they were.
pub copy_through_buffer :
    (taking giving : Access) (first second : Image) (buffer : Buffer) (region : Region)
    (pixels others bytes : Bytes)
    → MayCopy taking transfer_dst transfer_src
    → MayCopy giving transfer_src transfer_dst
    → second.width * 4 ≤ second.pitch
    → copy_region_ok buffer first region ≡ true
    → copy_region_ok buffer second region ≡ true
    → let taken = srapi_queue_copy_image_to_buffer taking first pixels buffer bytes region in
      let given = srapi_queue_copy_buffer_to_image giving buffer taken.1 second others region in
      (taken.0 ≡ ok)
      × (given.0 ≡ ok)
      × ((j k : ℕ)
          → j < region.height
          → k < region.width * 4
          → given.1 (image_row second region j + k) ≡ pixels (image_row first region j + k))
      × ((at : ℕ)
          → ((j : ℕ)
              → j < region.height
              → (at < image_row second region j)
                ⊎ (image_row second region j + region.width * 4 ≤ at))
          → given.1 at ≡ others at)
unfolding srapi_queue_copy_image_to_buffer srapi_queue_copy_buffer_to_image copied_if
copy_through_buffer taking giving first second buffer region pixels others bytes from to wide one
      two =
    let promised = copy_region_ok_lem buffer second region two in
    let narrow : region.width * 4 ≤ second.pitch = omega arith in
    let apart = image_apart second region narrow in
    let filled =
      copy_rows (buffer_row region) (image_row first region) (region.width * 4) pixels region.height
        0 bytes in
    rw
      (
        MayCopy-check taking buffer first region transfer_dst transfer_src from one,
        MayCopy-check giving buffer second region transfer_src transfer_dst to two,
        from.buffer_stored,
        from.image_stored,
        to.buffer_stored,
        to.image_stored,
      )
      (
        refl,
        refl,
        λ j k h c.
            all_inside (image_row second region) (buffer_row region) (region.width * 4) filled apart
              region.height others j k h c
            ∙ all_inside (buffer_row region) (image_row first region) (region.width * 4) pixels
                (buffer_apart region) region.height bytes j k h c,
        λ at out.
            all_outside (image_row second region) (buffer_row region) (region.width * 4) filled
              apart region.height at others out,
      )
