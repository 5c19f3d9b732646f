-- ===== src/Mlink/Input/Loads.antt =====
-- tools/dev/mlink/object.c: loading ends, and only adds objects, all of them accepted by the reader.
use mathlib.Core.List.{append-nil, append_assoc}
use one_tool.Common.{
  ℕ, zero, suc, ◌+◌, ◌<◌, ◌≡◌, refl, sym, ◌∙◌, inl, inr, Bool, true, false, not, ◌||◌, ◌&&◌, List,
  [], ◌∷◌, ◌++◌, Option, some, arith, length, drop, ltb, leb, ◌==◌, Bool-cases, Option-cases,
}
use one_tool.Elf.{Header, range_ok}
use one_tool.Mlink.Bytes.{Buffer, get8}
use one_tool.Mlink.Types.{Name, Object, Context, report}
use one_tool.Mlink.Macros.Parse.{Number, add_lines, add_from_object, pieces}
use one_tool.Common.Text.{codes}
use one_tool.Mlink.Reader.{slice, load_sections, parse_elf_object}
use one_tool.Mlink.Reader.Loaded.{parse_elf_object-IsRead}
use one_tool.Mlink.Emit.Filed.{AreRead}
use one_tool.Mlink.Input.{
  Long, add_object, load_contents, load_member, member_name, archive_round, archive_loop,
  load_archive, load_input, load_inputs, starts_with, armag, elfmag, parse_ar_decimal, full_name,
}

-- The objects of the second context are those of the first and then some that the reader accepted,
-- and the base address is the same.
pub record Grows (before after : Context) : Type 0 where
  pub more : List Object
  pub objects : after.objects ≡ before.objects ++ more
  pub read : AreRead more
  pub base : after.base_addr ≡ before.base_addr

-- The objects and the base address are the same.
abbrev Keeps : Context → Context → Type 0
Keeps a b = (b.objects ≡ a.objects) × (b.base_addr ≡ a.base_addr)

Grows-same : (a b : Context) → Keeps a b → Grows a b
Grows-same a b e = record {
  more = [];
  objects = e.0 ∙ sym (append-nil a.objects);
  read = tt;
  base = e.1;
}

append-AreRead : (xs ys : List Object) → AreRead xs → AreRead ys → AreRead (xs ++ ys)
append-AreRead [] ys p q = q
append-AreRead (x ∷ xs) ys p q = (p.0, append-AreRead xs ys p.1 q)

Grows-trans : (a b c : Context) → Grows a b → Grows b c → Grows a c
Grows-trans a b c g h = record {
  more = g.more ++ h.more;
  objects = rw (h.objects, g.objects) (append_assoc a.objects g.more h.more);
  read = append-AreRead g.more h.more g.read h.read;
  base = h.base ∙ g.base;
}

pub Grows-AreRead : (a b : Context) → Grows a b → AreRead a.objects → AreRead b.objects
Grows-AreRead a b g h = rw g.objects (append-AreRead a.objects g.more h g.read)

module _ (strtoull : Name → Number) where
  add_lines-Keeps : (lines : List Name) (ctx : Context) → Keeps ctx (add_lines strtoull lines ctx).0
  unfolding add_lines
  add_lines-Keeps [] ctx = (refl, refl)
  add_lines-Keeps (line ∷ lines) ctx = grind (arith, add_lines-Keeps lines)

  add_from_object-Keeps :
      (ctx : Context) (bytes : Buffer) → Keeps ctx (add_from_object strtoull ctx bytes).0
  unfolding add_from_object
  add_from_object-Keeps ctx bytes = add_lines-Keeps ((pieces bytes).0 ∷ (pieces bytes).1) ctx

  load_sections-Keeps :
      (hs : List Header) (file : Buffer) (ctx : Context)
      → Keeps ctx (load_sections strtoull hs file ctx).0
  unfolding load_sections
  load_sections-Keeps [] file ctx = (refl, refl)
  load_sections-Keeps (h ∷ hs) file ctx = ground (
    arith,
    load_sections-Keeps hs file ctx,
    add_from_object-Keeps ctx (slice file h.offset h.size),
    load_sections-Keeps hs file (add_from_object strtoull ctx (slice file h.offset h.size)).0,
  )

  parse_elf_object-Keeps :
      (ctx : Context) (name : Name) (file : Buffer) (selected from_archive : Bool)
      → Keeps ctx (parse_elf_object strtoull ctx name file selected from_archive).0
  unfolding parse_elf_object
  parse_elf_object-Keeps ctx name file selected from_archive =
      elim (Option-cases (one_tool.Elf.parse file)) [
        | inl e ↦ rw (parse_elf_object, e) (refl, refl)
        | inr (elf, e) ↦
            let loaded = load_sections-Keeps elf.sections file ctx in
            rw (parse_elf_object, e) (ground (arith, loaded))
      ]

  -- An object that is accepted is added at the end.
  accepted-Grows :
      (ctx : Context) (name : Name) (file : Buffer) (selected from_archive : Bool) (obj : Object)
      → (parse_elf_object strtoull ctx name file selected from_archive).1 ≡ some obj
      → Grows ctx (add_object (parse_elf_object strtoull ctx name file selected from_archive).0 obj)
  unfolding add_object
  accepted-Grows ctx name file selected from_archive obj h = record {
    more = obj ∷ [];
    objects = rw ((parse_elf_object-Keeps ctx name file selected from_archive).0) refl;
    read = (parse_elf_object-IsRead strtoull ctx name file selected from_archive obj h, tt);
    base = (parse_elf_object-Keeps ctx name file selected from_archive).1;
  }

  refused-Grows :
      (ctx : Context) (name : Name) (file : Buffer) (selected from_archive : Bool)
      → Grows ctx (parse_elf_object strtoull ctx name file selected from_archive).0
  refused-Grows ctx name file selected from_archive =
      Grows-same ctx _ (parse_elf_object-Keeps ctx name file selected from_archive)

module _ (strtoull : Name → Number) (strtol : Name → Long) where
  load_contents-Grows :
      (path member : Name) (contents : Buffer) (ctx : Context)
      → Grows ctx (load_contents strtoull strtol path member contents ctx).0
  unfolding load_contents
  load_contents-Grows path member contents ctx =
      let parsed = parse_elf_object strtoull ctx (full_name path member) contents false true in
      elim (Bool-cases (starts_with elfmag contents)) [
        | inl e ↦ elim (Option-cases parsed.1) [
          | inl f ↦
              rw (e, f) (refused-Grows strtoull ctx (full_name path member) contents false true)
          | inr (obj, f) ↦
              rw (e, f)
                (accepted-Grows strtoull ctx (full_name path member) contents false true obj f)
        ]
        | inr e ↦ rw e (Grows-same ctx ctx (refl, refl))
      ]

  load_member-Grows :
      (path : Name) (hdr body strtab : Buffer) (ctx : Context)
      → Grows ctx (load_member strtoull strtol path hdr body strtab ctx).0
  unfolding load_member
  load_member-Grows path hdr body strtab ctx = elim (Bool-cases (starts_with (codes "//") hdr)) [
    | inl e ↦ rw e (Grows-same ctx ctx (refl, refl))
    | inr e ↦
        elim (Bool-cases
          (get8 hdr 0 == 47 && get8 hdr 1 == 32 || starts_with (codes "/SYM64/") hdr)) [
            | inl f ↦ rw (e, f) (Grows-same ctx ctx (refl, refl))
            | inr f ↦ elim (Option-cases (member_name strtol hdr body strtab)) [
              | inl g ↦ rw (e, f, g) (Grows-same ctx (report ctx) (refl, refl))
              | inr (named, g) ↦
                  rw (e, f, g) (load_contents-Grows path named.0 (drop named.1 body) ctx)
            ]
          ]
  ]

  archive_round-Grows :
      (path : Name) (archive : Buffer) (off : ℕ) (strtab : Buffer) (ctx : Context)
      → Grows ctx (archive_round strtoull strtol path archive off strtab ctx).0
  unfolding archive_round
  archive_round-Grows path archive off strtab ctx =
      let hdr = drop off archive in
      let failed = Grows-same ctx (report ctx) (refl, refl) in
      elim (Bool-cases (not (get8 hdr 58 == 96) || not (get8 hdr 59 == 10))) [
        | inl e ↦ rw e failed
        | inr e ↦ elim (Option-cases (parse_ar_decimal strtol (slice hdr 48 10))) [
          | inl f ↦ rw (e, f) failed
          | inr (size, f) ↦ elim (Bool-cases (ltb (length archive) (off + 60 + size))) [
            | inl g ↦ rw (e, f, g) failed
            | inr g ↦ rw (e, f, g) (load_member-Grows path hdr (slice hdr 60 size) strtab ctx)
          ]
        ]
      ]

  -- A round that goes on does so behind the header that it read.
  archive_round-further :
      (path : Name) (archive : Buffer) (off : ℕ) (strtab : Buffer) (ctx : Context) (next : ℕ)
      (table : Buffer)
      → (archive_round strtoull strtol path archive off strtab ctx).1 ≡ some (next, table)
      → off < next
  unfolding archive_round
  archive_round-further path archive off strtab ctx next table h = ground arith

  archive_loop-Grows :
      (fuel : ℕ) (path : Name) (archive : Buffer) (off : ℕ) (strtab : Buffer) (ctx : Context)
      → 0 < fuel
      → length archive < off + fuel
      → (ctx' : Context) × (archive_loop strtoull strtol fuel path archive off strtab ctx
          ≡ some ctx')
        × Grows ctx ctx'
  unfolding archive_loop
  archive_loop-Grows zero path archive off strtab ctx some_fuel enough = absurd (omega arith)
  archive_loop-Grows (suc fuel) path archive off strtab ctx some_fuel enough =
      let r = archive_round strtoull strtol path archive off strtab ctx in
      let grown = archive_round-Grows path archive off strtab ctx in
      elim (Bool-cases (leb (off + 60) (length archive))) [
        | inl e ↦ elim (Option-cases r.1) [
          | inl f ↦ (r.0, rw (e, f) refl, grown)
          | inr ((next, table), f) ↦
              let further = archive_round-further path archive off strtab ctx next table f in
              let (ctx', done, rest) =
                archive_loop-Grows fuel path archive next table r.0 (ground arith) (omega arith) in
              (ctx', rw (e, f) done, Grows-trans ctx r.0 ctx' grown rest)
        ]
        | inr e ↦ (ctx, rw e refl, Grows-same ctx ctx (refl, refl))
      ]

  load_input-Grows :
      (read_file : Name → Option Buffer) (path : Name) (ctx : Context)
      → (ctx' : Context) × (load_input strtoull strtol read_file path ctx ≡ some ctx')
        × Grows ctx ctx'
  unfolding load_input load_archive
  load_input-Grows read_file path ctx = elim (Option-cases (read_file path)) [
    | inl e ↦ (report ctx, rw (load_input, e) refl, Grows-same ctx (report ctx) (refl, refl))
    | inr (bytes, e) ↦ elim (Bool-cases (starts_with armag bytes)) [
      | inl f ↦
          let (ctx', done, grown) =
            archive_loop-Grows (length bytes + 1) path bytes 8 [] ctx (omega arith) (omega arith) in
          (ctx', rw (load_input, e, f) done, grown)
      | inr f ↦ elim (Bool-cases (starts_with elfmag bytes)) [
        | inl g ↦
            let parsed = parse_elf_object strtoull ctx path bytes true false in
            elim (Option-cases parsed.1) [
              | inl k ↦ (
                parsed.0,
                rw (load_input, e, f, g, k) refl,
                refused-Grows strtoull ctx path bytes true false,
              )
              | inr (obj, k) ↦ (
                add_object parsed.0 obj,
                rw (load_input, e, f, g, k) refl,
                accepted-Grows strtoull ctx path bytes true false obj k,
              )
            ]
        | inr g ↦
            (report ctx, rw (load_input, e, f, g) refl, Grows-same ctx (report ctx) (refl, refl))
      ]
    ]
  ]

  -- Whatever the files hold, loading the inputs ends. The objects loaded before stay, in order, and
  -- every object added behind them is one that the reader accepted: each section's image has the
  -- size that the section claims, and a section that goes into the output is of a kind with bytes,
  -- as large as its bytes. The base address stays.
  pub load_inputs-Grows :
      (read_file : Name → Option Buffer) (paths : List Name) (ctx : Context)
      → (ctx' : Context) × (load_inputs strtoull strtol read_file paths ctx ≡ some ctx')
        × Grows ctx ctx'
  unfolding load_inputs
  load_inputs-Grows read_file [] ctx = (ctx, refl, Grows-same ctx ctx (refl, refl))
  load_inputs-Grows read_file (path ∷ paths) ctx =
      let (mid, loaded, grown) = load_input-Grows read_file path ctx in
      let (ctx', done, rest) = load_inputs-Grows read_file paths mid in
      (ctx', rw (load_inputs, loaded) done, Grows-trans ctx mid ctx' grown rest)
