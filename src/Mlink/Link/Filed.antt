-- ===== src/Mlink/Link/Filed.antt =====
-- tools/dev/mlink/cli.c: the copied sections of a context after the layout and after relocation.
use one_tool.Common.{ℕ, ◌≡◌, Bool, true, false, List, [], ◌∷◌, some, arith, All}
use one_tool.Mlink.Types.{
  SectionKind, sec_text, sec_rodata, sec_data, sec_bss, Section, Object, Context, IsWhole,
}
use one_tool.Mlink.Layout.{
  layout, layout_sections, place_if, has_ro, has_rw, text_pass, ro_pass, data_pass, bss_pass,
}
use one_tool.Mlink.Layout.Objects.{place_objects-All}
use one_tool.Mlink.Layout.Segments.{HasRoom}
use one_tool.Mlink.Reloc.Rounds.{apply_relocations}
use one_tool.Mlink.Reloc.Apply.{apply_relocations-SameLayout}
use one_tool.Mlink.Reloc.Places.{
  copied-SamePlaces, SamePlaces-AllApart, SamePlaces-IsPlaced, SamePlaces-IsWhole,
}
use one_tool.Mlink.Emit.{is_copied}
use one_tool.Mlink.Emit.Contents.{copied, AllApart}
use one_tool.Mlink.Emit.Disjoint.{IsPlaced, copied_of-AllApart, copied_of-IsPlaced}
use one_tool.Mlink.Emit.Filed.{
  IsRead, AreRead, sections_of, sections_of-IsRead, copied_of-sections_of, copied_of-IsWhole,
}
use one_tool.Mlink.Link.Keeps.{SameInput, layout-SameInput}
use one_tool.Mlink.Link.Ranges.{range_lo, range_hi, layout_sections-IsSorted}

-- The copied sections of a context: whole, aligned, at the address of their place in the file, and
-- without a byte in common.
pub record IsFiled (ctx : Context) : Type 0 where
  pub whole : All IsWhole (copied ctx.objects)
  pub placed : All (IsPlaced ctx.base_addr) (copied ctx.objects)
  pub apart : AllApart (copied ctx.objects)

pub SameInput-IsFiled : (a b : Context) → SameInput a b → IsFiled a → IsFiled b
unfolding SameInput
SameInput-IsFiled a b (objs, at) f = record {
  whole = rw (← objs) f.whole;
  placed = rw (← objs, ← at) f.placed;
  apart = rw (← objs) f.apart;
}

moved-IsRead :
    (s : Section) (off addr : ℕ)
    → IsRead s
    → IsRead (record s { out_offset = off; out_addr = addr })
unfolding is_copied IsWhole
moved-IsRead s off addr r = record { whole = r.whole; sized = r.sized; filed = r.filed }

place_if-AreRead :
    (on : Bool) (k : SectionKind) (base lo : ℕ) (objs : List Object)
    → AreRead objs
    → AreRead (place_if on k base lo objs).1
place_if-AreRead true k base lo objs read =
    place_objects-All IsRead moved-IsRead k objs base lo read
place_if-AreRead false k base lo objs read = read

layout_sections-AreRead :
    (ctx : Context) → AreRead ctx.objects → AreRead (layout_sections ctx).objects
unfolding layout_sections bss_pass data_pass ro_pass text_pass
layout_sections-AreRead ctx read = place_if-AreRead (has_rw ctx) sec_bss ctx.base_addr _ _ (
    place_if-AreRead (has_rw ctx) sec_data ctx.base_addr _ _ (
      place_if-AreRead (has_ro ctx) sec_rodata ctx.base_addr _ _
        (place_objects-All IsRead moved-IsRead sec_text ctx.objects ctx.base_addr _ read)))

pub layout_sections-IsFiled :
    (ctx : Context) → HasRoom ctx → AreRead ctx.objects → IsFiled (layout_sections ctx)
unfolding layout_sections
layout_sections-IsFiled ctx fits read =
    let objs = (layout_sections ctx).objects in
    let sorted = layout_sections-IsSorted ctx fits in
    let all_read = sections_of-IsRead objs (layout_sections-AreRead ctx read) in
    record {
      whole = rw (← copied_of-sections_of objs) (copied_of-IsWhole (sections_of objs) all_read);
      placed = rw (← copied_of-sections_of objs) (
          copied_of-IsPlaced ctx.base_addr (range_lo ctx) (range_hi ctx) (sections_of objs) sorted
            all_read);
      apart = rw (← copied_of-sections_of objs) (
          copied_of-AllApart ctx.base_addr (range_lo ctx) (range_hi ctx) (sections_of objs) sorted
            all_read);
    }

pub SameInput-AreRead : (a b : Context) → SameInput a b → AreRead a.objects → AreRead b.objects
unfolding SameInput
SameInput-AreRead a b (objs, at) read = rw (← objs) read

pub layout-AreRead : (ctx : Context) → AreRead ctx.objects → AreRead (layout ctx).objects
layout-AreRead ctx read =
    SameInput-AreRead (layout_sections ctx) (layout ctx) (layout-SameInput ctx)
      (layout_sections-AreRead ctx read)

IsRead-IsWhole : (ss : List Section) → All IsRead ss → All IsWhole ss
IsRead-IsWhole [] r = tt
IsRead-IsWhole (s ∷ ss) r = (r.0.whole, IsRead-IsWhole ss r.1)

AreRead-IsWhole :
    (objs : List Object) → AreRead objs → All (λ (obj : Object). All IsWhole obj.sections) objs
AreRead-IsWhole [] r = tt
AreRead-IsWhole (obj ∷ objs) r = (IsRead-IsWhole obj.sections r.0, AreRead-IsWhole objs r.1)

-- Relocation keeps the sections where they are.
pub apply_relocations-IsFiled :
    (ctx patched : Context)
    → AreRead ctx.objects
    → apply_relocations ctx ≡ some patched
    → IsFiled ctx
    → IsFiled patched
unfolding apply_relocations
apply_relocations-IsFiled ctx patched read h f =
    let same =
      copied-SamePlaces ctx.objects patched.objects
        (apply_relocations-SameLayout ctx patched (AreRead-IsWhole ctx.objects read) h) in
    let at : ctx.base_addr ≡ patched.base_addr = ground arith in
    record {
      whole = SamePlaces-IsWhole (copied ctx.objects) (copied patched.objects) same f.whole;
      placed = rw (← at) (
          SamePlaces-IsPlaced ctx.base_addr (copied ctx.objects) (copied patched.objects) same
            f.placed);
      apart = SamePlaces-AllApart (copied ctx.objects) (copied patched.objects) same f.apart;
    }
