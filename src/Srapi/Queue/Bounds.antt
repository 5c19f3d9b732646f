-- ===== src/Srapi/Queue/Bounds.antt =====
-- libs/srapi/src/core/queue.c: an accepted region lies inside the buffer and the image.
use one_tool.Common.{
  ℕ, ◌+◌, ◌-◌, ◌*◌, ◌/◌, ◌^◌, ◌≤◌, ◌<◌, Bool, true, false, ltb, leb, ◌==◌, ◌||◌, some, ◌%◌,
  if◌then◌else◌, none, ◌≡◌, arith,
}
use native.Mathlib.Nat.{mul-le-mul, mul-le-mul_right, mul_comm}
use one_tool.Srapi.Command.{Buffer}
use one_tool.Srapi.Queue.{
  Image, Region, image_size, copy_region_ok, image_row, buffer_row, size_max,
}

guards :
    (p q r s t u : Bool)
    → (if p
        then false
        else if q
        then false
        else if r
        then false
        else if s
        then false
        else if t
        then false
        else u)
      ≡ true
    → (p ≡ false) × (q ≡ false) × (u ≡ true)
guards p q r s t u h = ground (arith, h)

-- What `copy_region_ok` promises in numbers.
pub copy_region_ok_lem :
    (buffer : Buffer) (image : Image) (region : Region)
    → copy_region_ok buffer image region ≡ true
    → (0 < region.width)
      × (0 < region.height)
      × (region.image_x + region.width ≤ image.width)
      × (region.image_y + region.height ≤ image.height)
      × (region.buffer_offset + region.width * 4 * region.height ≤ buffer.size)
unfolding copy_region_ok
copy_region_ok_lem buffer image region h =
    let (sizes, inside, fits) =
      guards (region.width == 0 || region.height == 0)
        (ltb image.width region.image_x
          || ltb image.height region.image_y
          || ltb (image.width - region.image_x) region.width
          || ltb (image.height - region.image_y) region.height)
        (ltb (size_max / 4) region.width) (ltb (size_max / (region.width * 4)) region.height)
        (ltb (size_max - region.width * 4 * region.height) region.buffer_offset)
        (leb (region.buffer_offset + region.width * 4 * region.height) buffer.size) h in
    (
      ground (arith, sizes),
      ground (arith, sizes),
      ground (arith, inside),
      ground (arith, inside),
      ground (arith, fits),
    )

size_guards :
    (p q r s : Bool) (found wanted : ℕ × ℕ)
    → (if p || q || r || s then none else some found) ≡ some wanted
    → (r ≡ false) × (found ≡ wanted)
size_guards p q r s found wanted h = ground (arith, h)

image_size_lem :
    (width height pitch size : ℕ)
    → height < 2 ^ 32
    → image_size width height ≡ some (pitch, size)
    → (pitch ≡ width * 4) × (size ≡ width * 4 * height)
unfolding image_size
image_size_lem width height pitch size small h =
    let (short, same) =
      size_guards (width == 0) (height == 0) (ltb (2 ^ 32 - 1) (width * 4))
        (ltb (2 ^ 64 - 1) ((width * 4 * height) % 2 ^ 64))
        (width * 4, (width * 4 * height) % 2 ^ 64) (pitch, size) h in
    let narrow : width * 4 ≤ 2 ^ 32 - 1 = ground (arith, short) in
    let bound : width * 4 * height ≤ (2 ^ 32 - 1) * (2 ^ 32 - 1) =
      mul-le-mul {m₂ = 2 ^ 32 - 1} narrow (omega arith) in
    let whole : (width * 4 * height) % 2 ^ 64 ≡ width * 4 * height = omega arith in
    (ground (arith, same), ground (arith, same, whole))

image_lem :
    (top y left count width height pitch size : ℕ)
    → pitch ≡ width * 4
    → size ≡ width * 4 * height
    → top + y < height
    → left + count ≤ width
    → (top + y) * pitch + left * 4 + count * 4 ≤ size
image_lem top y left count width height pitch size pitched whole below right =
    let rows : (top + y + 1) * pitch ≤ height * pitch = mul-le-mul_right pitch (omega arith) in
    let next : (top + y + 1) * pitch ≡ (top + y) * pitch + pitch = grind arith in
    let turned : height * pitch ≡ width * 4 * height = rw pitched (mul_comm height (width * 4)) in
    omega arith

buffer_lem :
    (offset y count height size : ℕ)
    → y < height
    → offset + count * 4 * height ≤ size
    → offset + y * (count * 4) + count * 4 ≤ size
buffer_lem offset y count height size below fits =
    let rows : (y + 1) * (count * 4) ≤ height * (count * 4) =
      mul-le-mul_right (count * 4) (omega arith) in
    let next : (y + 1) * (count * 4) ≡ y * (count * 4) + count * 4 = grind arith in
    let turned = mul_comm height (count * 4) in omega arith

-- For an image as `srapi_create_image` makes it, each row of a region that `copy_region_ok`
-- accepts lies inside the image's storage and inside the buffer.
pub copy_region_ok-inside :
    (buffer : Buffer) (image : Image) (region : Region) (size y : ℕ)
    → image.height < 2 ^ 32
    → image_size image.width image.height ≡ some (image.pitch, size)
    → copy_region_ok buffer image region ≡ true
    → y < region.height
    → (image_row image region y + region.width * 4 ≤ size)
      × (buffer_row region y + region.width * 4 ≤ buffer.size)
copy_region_ok-inside buffer image region size y small sized h row =
    let (wide, tall, right, bottom, fits) = copy_region_ok_lem buffer image region h in
    let (pitched, whole) = image_size_lem image.width image.height image.pitch size small sized in
    (
      image_lem region.image_y y region.image_x region.width image.width image.height image.pitch
          size pitched whole (omega arith) right,
      buffer_lem region.buffer_offset y region.width region.height buffer.size row fits,
    )
