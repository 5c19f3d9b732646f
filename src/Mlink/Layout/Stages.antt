-- ===== src/Mlink/Layout/Stages.antt =====
-- tools/dev/mlink/layout.c: one pass over the sections that may be skipped, and the page it starts
-- on.
use one_tool.Common.{
  ℕ, ◌+◌, ◌%◌, ◌^◌, ◌≤◌, ◌<◌, ◌≡◌, refl, Bool, true, false, List, arith, if◌then◌else◌,
}
use one_tool.Mlink.Bytes.{align_up}
use one_tool.Mlink.Bytes.Align.{align_up_least}
use one_tool.Mlink.Types.{SectionKind, kind_eq, Object}
use one_tool.Mlink.Layout.{place_if, page_size}
use one_tool.Mlink.Layout.Packing.{kept_of, Packed, demand, AreAligned}
use one_tool.Mlink.Layout.Objects.{
  place_objects-PassOf, kept_of-place_objects, place_objects-AreAligned,
}

-- What a pass that may be skipped leaves.
pub record Stage (on : Bool) (k : SectionKind) (base lo : ℕ) (objs : List Object)
    (r : ℕ × List Object) : Type 0 where
  pub packed : on ≡ true → Packed base lo r.0 (kept_of k r.1)
  pub short : r.0 ≤ lo + demand (kept_of k objs)
  pub forward : lo ≤ r.0
  pub aligned : AreAligned r.1
  pub others : (k' : SectionKind) → kind_eq k k' ≡ false → kept_of k' r.1 ≡ kept_of k' objs

pub place_if-Stage :
    (on : Bool) (k : SectionKind) (base lo : ℕ) (objs : List Object)
    → AreAligned objs
    → base + lo + demand (kept_of k objs) < 2 ^ 64
    → Stage on k base lo objs (place_if on k base lo objs)
place_if-Stage true k base lo objs aligned room =
    let pass = place_objects-PassOf k base lo objs aligned room in
    record {
      packed = λ _. pass.packed;
      short = pass.short;
      forward = pass.forward;
      aligned = place_objects-AreAligned k objs base lo aligned;
      others = λ k' apart. kept_of-place_objects k k' apart objs base lo;
    }
place_if-Stage false k base lo objs aligned room = record {
  packed = λ h. cc;
  short = omega arith;
  forward = omega arith;
  aligned = aligned;
  others = λ k' apart. refl;
}

-- The start of a segment: on a page if the segment is there.
unfoldable pub page_start : (on : Bool) (cursor : ℕ) → ℕ
page_start on cursor = if on then align_up cursor page_size else cursor

pub page_start_lem :
    (on : Bool) (cursor : ℕ)
    → cursor + page_size ≤ 2 ^ 64
    → (cursor ≤ page_start on cursor)
      × (page_start on cursor ≤ cursor + page_size)
      × (on ≡ true → page_start on cursor % page_size ≡ 0)
unfolding page_start
page_start_lem true cursor room =
    let (multiple, above, close, _) = align_up_least cursor page_size (omega arith) room in
    (above, omega arith, λ _. multiple)
page_start_lem false cursor room = (omega arith, omega arith, λ h. cc)
