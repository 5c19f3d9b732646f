-- ===== src/Mlink/Layout/Segments.antt =====
-- The four passes together: segments on pages of their own, and the sections inside them.
use one_tool.Common.{ℕ, ◌+◌, ◌*◌, ◌%◌, ◌^◌, ◌≤◌, ◌<◌, ◌≡◌, refl, ◌∙◌, true, arith}
use one_tool.Mlink.Bytes.{align_up}
use one_tool.Mlink.Bytes.Align.{align_up_least}
use one_tool.Mlink.Types.{SectionKind, sec_text, sec_rodata, sec_data, sec_bss, kind_eq, Context}
use one_tool.Mlink.Layout.{
  has_ro, has_rw, header_count, header_size, text_pass, ro_start, ro_pass, data_start, data_pass,
  bss_pass, layout_sections, sub64, page_size, ehdr_size, phdr_size,
}
use one_tool.Mlink.Layout.Packing.{kept_of, Packed, Packed-lower, demand, AreAligned}
use one_tool.Mlink.Layout.Stages.{Stage, place_if-Stage, page_start, page_start_lem}

-- The image fits below 2 ^ 64 with its headers, three roundings to a page and all alignments.
pub record HasRoom (ctx : Context) : Type 0 where
  pub aligned : AreAligned ctx.objects
  pub room :
      ctx.base_addr
        + 0x3000
        + demand (kept_of sec_text ctx.objects)
        + demand (kept_of sec_rodata ctx.objects)
        + demand (kept_of sec_data ctx.objects)
        + demand (kept_of sec_bss ctx.objects)
      < 2 ^ 64

header_size-le : (ctx : Context) → header_size ctx ≤ 288
unfolding header_size header_count
header_size-le ctx = ground arith

module _ (ctx : Context) (fits : HasRoom ctx) where
  abbrev pub need : SectionKind → ℕ
  need k = demand (kept_of k ctx.objects)

  pub text-Stage :
      Stage true sec_text ctx.base_addr (align_up (header_size ctx) 16) ctx.objects (text_pass ctx)
      × (header_size ctx ≤ align_up (header_size ctx) 16)
      × (align_up (header_size ctx) 16 ≤ 304)
  unfolding text_pass
  text-Stage =
      let small = header_size-le ctx in
      let (_, above, close, _) = align_up_least (header_size ctx) 16 (omega arith) (omega arith) in
      (
        place_if-Stage true sec_text ctx.base_addr (align_up (header_size ctx) 16) ctx.objects
            fits.aligned (omega (arith, fits.room)),
        above,
        omega arith,
      )

  pub ro-Stage :
      Stage (has_ro ctx) sec_rodata ctx.base_addr (ro_start ctx) (text_pass ctx).1 (ro_pass ctx)
      × ((text_pass ctx).0 ≤ ro_start ctx)
      × (ro_start ctx ≤ 304 + need sec_text + page_size)
      × (has_ro ctx ≡ true → ro_start ctx % page_size ≡ 0)
  unfolding ro_pass ro_start page_start
  ro-Stage =
      let (text, _, low) = text-Stage in
      let (above, close, paged) =
        page_start_lem (has_ro ctx) (text_pass ctx).0 (omega (arith, text.short, fits.room)) in
      let same : kept_of sec_rodata (text_pass ctx).1 ≡ kept_of sec_rodata ctx.objects =
        text.others sec_rodata (unfold kind_eq in refl) in
      (
        place_if-Stage (has_ro ctx) sec_rodata ctx.base_addr (ro_start ctx) (text_pass ctx).1
            text.aligned (rw same (omega (arith, text.short, fits.room))),
        above,
        omega (arith, text.short),
        paged,
      )

  pub data-Stage :
      Stage (has_rw ctx) sec_data ctx.base_addr (data_start ctx) (ro_pass ctx).1 (data_pass ctx)
      × ((ro_pass ctx).0 ≤ data_start ctx)
      × (data_start ctx ≤ 304 + need sec_text + need sec_rodata + page_size + page_size)
      × (has_rw ctx ≡ true → data_start ctx % page_size ≡ 0)
  unfolding data_pass data_start page_start
  data-Stage =
      let (text, _, low) = text-Stage in
      let (ro, _, ro_low, _) = ro-Stage in
      let ro_need : kept_of sec_rodata (text_pass ctx).1 ≡ kept_of sec_rodata ctx.objects =
        text.others sec_rodata (unfold kind_eq in refl) in
      let ro_short : (ro_pass ctx).0 ≤ ro_start ctx + need sec_rodata = rw (← ro_need) ro.short in
      let (above, close, paged) =
        page_start_lem (has_rw ctx) (ro_pass ctx).0 (omega (arith, fits.room)) in
      let same : kept_of sec_data (ro_pass ctx).1 ≡ kept_of sec_data ctx.objects =
        ro.others sec_data (unfold kind_eq in refl)
        ∙ text.others sec_data (unfold kind_eq in refl) in
      (
        place_if-Stage (has_rw ctx) sec_data ctx.base_addr (data_start ctx) (ro_pass ctx).1
            ro.aligned (rw same (omega (arith, fits.room))),
        above,
        omega arith,
        paged,
      )

  data_short : (data_pass ctx).0 ≤ data_start ctx + need sec_data
  data_short =
      let (text, _, _) = text-Stage in
      let (ro, _, _, _) = ro-Stage in
      let (stage, _, _, _) = data-Stage in
      let same : kept_of sec_data (ro_pass ctx).1 ≡ kept_of sec_data ctx.objects =
        ro.others sec_data (unfold kind_eq in refl)
        ∙ text.others sec_data (unfold kind_eq in refl) in
      rw (← same) stage.short

  bss_same : kept_of sec_bss (data_pass ctx).1 ≡ kept_of sec_bss ctx.objects
  bss_same =
      let (text, _, _) = text-Stage in
      let (ro, _, _, _) = ro-Stage in
      let (stage, _, _, _) = data-Stage in
      stage.others sec_bss (unfold kind_eq in refl)
      ∙ ro.others sec_bss (unfold kind_eq in refl)
      ∙ text.others sec_bss (unfold kind_eq in refl)

  bss-Stage :
      Stage (has_rw ctx) sec_bss ctx.base_addr (data_pass ctx).0 (data_pass ctx).1 (bss_pass ctx)
  unfolding bss_pass
  bss-Stage =
      let (stage, _, low, _) = data-Stage in
      place_if-Stage (has_rw ctx) sec_bss ctx.base_addr (data_pass ctx).0 (data_pass ctx).1
        stage.aligned (rw bss_same (omega (arith, data_short, fits.room)))

  -- The later passes leave the sections of the earlier ones where they are.
  pub final_sections :
      (kept_of sec_text (bss_pass ctx).1 ≡ kept_of sec_text (text_pass ctx).1)
      × (kept_of sec_rodata (bss_pass ctx).1 ≡ kept_of sec_rodata (ro_pass ctx).1)
      × (kept_of sec_data (bss_pass ctx).1 ≡ kept_of sec_data (data_pass ctx).1)
  unfolding kind_eq
  final_sections =
      let (ro, _, _, _) = ro-Stage in
      let (stage, _, _, _) = data-Stage in
      (
        bss-Stage.others sec_text refl ∙ stage.others sec_text refl ∙ ro.others sec_text refl,
        bss-Stage.others sec_rodata refl ∙ stage.others sec_rodata refl,
        bss-Stage.others sec_data refl,
      )

  ends_small :
      ((ro_pass ctx).0 < 2 ^ 64) × ((data_pass ctx).0 < 2 ^ 64) × ((bss_pass ctx).0 < 2 ^ 64)
  ends_small =
      let (_, _, low, _) = data-Stage in
      let (_, above, _, _) = data-Stage in
      let bss : (bss_pass ctx).0 ≤ (data_pass ctx).0 + need sec_bss =
        rw (← bss_same) bss-Stage.short in
      omega (arith, data_short, fits.room)

-- What a finished layout looks like.
pub record IsLaidOut (out : Context) : Type 0 where
  pub text :
      Packed out.base_addr
        (ehdr_size + out.phnum * phdr_size)
        out.rx_filesz
        (kept_of sec_text out.objects)
  pub ro_after : out.rx_filesz ≤ out.ro_offset
  pub ro_paged : out.has_rodata_segment ≡ true → out.ro_offset % page_size ≡ 0
  pub ro :
      out.has_rodata_segment ≡ true
      → Packed out.base_addr out.ro_offset
          (out.ro_offset + out.ro_filesz)
          (kept_of sec_rodata out.objects)
  pub data_after_ro :
      out.has_rodata_segment ≡ true → out.ro_offset + out.ro_filesz ≤ out.data_offset
  pub data_after_text : out.rx_filesz ≤ out.data_offset
  pub data_paged : out.has_rw_segment ≡ true → out.data_offset % page_size ≡ 0
  pub rw_data :
      out.has_rw_segment ≡ true
      → Packed out.base_addr out.data_offset
          (out.data_offset + out.data_filesz)
          (kept_of sec_data out.objects)
  pub rw_bss :
      out.has_rw_segment ≡ true
      → Packed out.base_addr
          (out.data_offset + out.data_filesz)
          (out.data_offset + out.data_memsz)
          (kept_of sec_bss out.objects)

sub64_exact : (a b : ℕ) → b ≤ a → a < 2 ^ 64 → b + sub64 a b ≡ a
sub64_exact a b h small = omega arith

-- If the image fits below 2 ^ 64, `ml_layout` puts the headers first, then the text sections, then
-- on a page of their own the read-only ones, then on a page of their own the data sections and
-- behind them the bss sections. Inside its segment each section of a selected object starts at a
-- multiple of its alignment at or after the end of the one before it, and its address is the base
-- plus its offset.
pub layout_sections-IsLaidOut : (ctx : Context) → HasRoom ctx → IsLaidOut (layout_sections ctx)
unfolding layout_sections header_count header_size
layout_sections-IsLaidOut ctx fits =
    let (text, headers, low) = text-Stage ctx fits in
    let (ro, ro_above, ro_low, ro_page) = ro-Stage ctx fits in
    let (stage, data_above, data_low, data_page) = data-Stage ctx fits in
    let bss = bss-Stage ctx fits in
    let (text_same, ro_same, data_same) = final_sections ctx fits in
    let (ro_small, data_small, bss_small) = ends_small ctx fits in
    let ro_end = sub64_exact (ro_pass ctx).0 (ro_start ctx) ro.forward ro_small in
    let data_end = sub64_exact (data_pass ctx).0 (data_start ctx) stage.forward data_small in
    let bss_end =
      sub64_exact (bss_pass ctx).0 (data_start ctx) (omega (arith, stage.forward, bss.forward))
        bss_small in
    record {
      text = rw text_same (
          Packed-lower ctx.base_addr (header_size ctx) (align_up (header_size ctx) 16)
            (text_pass ctx).0 (kept_of sec_text (text_pass ctx).1) headers (text.packed refl));
      ro_after = ro_above;
      ro_paged = ro_page;
      ro = λ on. rw (ro_same, on, ro_end) (ro.packed on);
      data_after_ro = λ on. rw (on, ro_end) data_above;
      data_after_text = omega (arith, ro.forward);
      data_paged = data_page;
      rw_data = λ on. rw (data_same, on, data_end) (stage.packed on);
      rw_bss = λ on. rw (on, data_end, bss_end) (bss.packed on);
    }
