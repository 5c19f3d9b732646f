-- ===== src/Mlink/Input/Archive.antt =====
-- tools/dev/mlink/object.c: an archive is read member by member as it was written.
use one_tool.Common.{
  ℕ, zero, suc, ◌+◌, ◌%◌, ◌≤◌, ◌<◌, ◌≡◌, refl, sym, ap, ◌∙◌, inl, inr, true, false, ◌&&◌, List, [],
  ◌∷◌, ◌++◌, Option, none, some, arith, All, length, drop, ltb, leb, ◌==◌, if◌then◌else◌,
  Option-cases, length-append, take-append, drop-append, take_all, drop_all, drop-drop,
  get_or-append, length-drop,
}
use one_tool.Common.Text.{codes}
use one_tool.Mlink.Bytes.{Buffer, get8}
use one_tool.Mlink.Types.{Name, Context}
use one_tool.Mlink.Macros.Parse.{Number}
use one_tool.Mlink.Reader.{slice}
use one_tool.Mlink.Input.{
  Long, armag, load_member, member_name, archive_round, archive_loop, load_archive, starts_with,
  parse_ar_decimal,
}

-- A member as it stands in an archive: a header of 60 bytes, which ends with a grave accent and a
-- newline, and a body.
pub record Member : Type 0 where
  pub header : Buffer
  pub body : Buffer

-- The header has its size and its end, and its size field reads as the body's length.
pub record IsFramed (strtol : Name → Long) (m : Member) : Type 0 where
  pub size : length m.header ≡ 60
  pub grave : get8 m.header 58 ≡ 96
  pub newline : get8 m.header 59 ≡ 10
  pub reads : parse_ar_decimal strtol (slice m.header 48 10) ≡ some (length m.body)

-- A body of odd length is followed by a newline.
unfoldable pub padding : Buffer → Buffer
padding body = if length body % 2 == 1 then 10 ∷ [] else []

-- The members as bytes, one behind the other.
unfoldable pub encode : List Member → Buffer
encode [] = []
encode (m ∷ ms) = m.header ++ (m.body ++ (padding m.body ++ encode ms))

starts_with-append :
    (magic xs ys : Buffer)
    → length magic ≤ length xs
    → starts_with magic (xs ++ ys) ≡ starts_with magic xs
unfolding starts_with
starts_with-append [] xs ys h = refl
starts_with-append (m ∷ ms) [] ys h = absurd (omega arith)
starts_with-append (m ∷ ms) (x ∷ xs) ys h =
    ap (λ t. m == x && t) (starts_with-append ms xs ys (omega arith))

slice-append :
    (xs ys : Buffer) (off size : ℕ)
    → off + size ≤ length xs
    → slice (xs ++ ys) off size ≡ slice xs off size
slice-append xs ys off size h =
    rw (drop-append off xs ys (omega arith))
      (take-append size (drop off xs) ys (omega (arith, length-drop off xs)))

module _ (strtoull : Name → Number) (strtol : Name → Long) (path : Name) where
  -- What the members do to the context, one by one: the long names of a `//` member serve those
  -- behind it, and the first member that cannot be read ends the archive.
  unfoldable pub load_members : (strtab : Buffer) → List Member → Context → Context
  load_members strtab [] ctx = ctx
  load_members strtab (m ∷ ms) ctx =
      let r = load_member strtoull strtol path m.header m.body strtab ctx in
      elim r.1 [ none ↦ r.0 | some table ↦ load_members table ms r.0 ]

  member_name-append :
      (header rest body strtab : Buffer)
      → length header ≡ 60
      → member_name strtol (header ++ rest) body strtab ≡ member_name strtol header body strtab
  unfolding member_name
  member_name-append header rest body strtab h =
      rw
        (
          starts_with-append (codes "#1/") header rest (omega arith),
          slice-append header rest 3 13 (omega arith),
          slice-append header rest 1 15 (omega arith),
          get_or-append header rest 0 0 (omega arith),
          get_or-append header rest 1 0 (omega arith),
          take-append 16 header rest (omega arith),
        )
        refl

  -- A member's header is read from its own 60 bytes.
  load_member-append :
      (header rest body strtab : Buffer) (ctx : Context)
      → length header ≡ 60
      → load_member strtoull strtol path (header ++ rest) body strtab ctx
        ≡ load_member strtoull strtol path header body strtab ctx
  unfolding load_member
  load_member-append header rest body strtab ctx h =
      rw
        (
          starts_with-append (codes "//") header rest (omega arith),
          starts_with-append (codes "/SYM64/") header rest (omega arith),
          get_or-append header rest 0 0 (omega arith),
          get_or-append header rest 1 0 (omega arith),
          member_name-append header rest body strtab h,
        )
        refl

  slice_body :
      (header body rest : Buffer)
      → length header ≡ 60
      → slice (header ++ (body ++ rest)) 60 (length body) ≡ body
  slice_body header body rest h =
      let none_left : drop 60 header ≡ [] = ap (λ n. drop n header) (sym h) ∙ drop_all header in
      rw (drop-append 60 header (body ++ rest) (omega arith), none_left)
        (take-append (length body) body rest (omega arith) ∙ take_all body)

  -- Where the next member starts.
  abbrev next_even : ℕ → ℕ
  next_even end = if end % 2 == 1 then end + 1 else end

  abbrev stepped : (end : ℕ) → Context × Option Buffer → Context × Option (ℕ × Buffer)
  stepped end r = (r.0, elim r.1 [ none ↦ none | some table ↦ some (next_even end, table) ])

  round_framed :
      (m : Member) (rest archive strtab : Buffer) (off : ℕ) (ctx : Context)
      → IsFramed strtol m
      → drop off archive ≡ m.header ++ (m.body ++ rest)
      → off + 60 + length m.body ≤ length archive
      → archive_round strtoull strtol path archive off strtab ctx
        ≡ stepped
            (off + 60 + length m.body)
            (load_member strtoull strtol path m.header m.body strtab ctx)
  unfolding archive_round
  round_framed m rest archive strtab off ctx f e room =
      let hdr = drop off archive in
      let rest' = m.body ++ rest in
      let inside : ltb (length archive) (off + 60 + length m.body) ≡ false = ground arith in
      let grave : get8 hdr 58 ≡ 96 =
        rw e (get_or-append m.header rest' 58 0 (omega (arith, f.size)) ∙ f.grave) in
      let newline : get8 hdr 59 ≡ 10 =
        rw e (get_or-append m.header rest' 59 0 (omega (arith, f.size)) ∙ f.newline) in
      let reads : parse_ar_decimal strtol (slice hdr 48 10) ≡ some (length m.body) =
        rw (e, slice-append m.header rest' 48 10 (omega (arith, f.size))) f.reads in
      let body : slice hdr 60 (length m.body) ≡ m.body =
        rw e (slice_body m.header m.body rest f.size) in
      let member : load_member strtoull strtol path hdr m.body strtab ctx
          ≡ load_member strtoull strtol path m.header m.body strtab ctx =
        rw e (load_member-append m.header rest' m.body strtab ctx f.size) in
      rw (grave, newline, reads, inside, body, member) refl

  length-padding : (body : Buffer) → length (padding body) ≡ length body % 2
  unfolding padding
  length-padding body = ground arith

  drop-padding : (body rest : Buffer) → drop (length body % 2) (padding body ++ rest) ≡ rest
  drop-padding body rest = rw (← length-padding body) (
      drop-append (length (padding body)) (padding body) rest (omega arith)
      ∙ ap (λ t. t ++ rest) (drop_all (padding body)))

  length-encode :
      (m : Member) (ms : List Member)
      → length m.header ≡ 60
      → length (encode (m ∷ ms)) ≡ 60 + (length m.body + (length m.body % 2 + length (encode ms)))
  unfolding encode
  length-encode m ms h = omega (
    arith,
    length-append m.body (padding m.body ++ encode ms),
    length-append m.header (m.body ++ (padding m.body ++ encode ms)),
    length-append (padding m.body) (encode ms),
    length-padding m.body,
  )

  drop_header : (header rest : Buffer) → length header ≡ 60 → drop 60 (header ++ rest) ≡ rest
  drop_header header rest h =
      drop-append 60 header rest (omega arith)
      ∙ ap (λ t. t ++ rest) (ap (λ n. drop n header) (sym h) ∙ drop_all header)

  -- Behind the member and its padding come the others.
  drop-encode :
      (m : Member) (ms : List Member)
      → length m.header ≡ 60
      → drop (60 + (length m.body + length m.body % 2)) (encode (m ∷ ms)) ≡ encode ms
  unfolding encode
  drop-encode m ms h =
      let odd = length m.body % 2 in
      let tail = padding m.body ++ encode ms in
      drop-drop 60 (length m.body + odd) (m.header ++ (m.body ++ tail))
      ∙ ap (λ t. drop (length m.body + odd) t) (drop_header m.header (m.body ++ tail) h)
      ∙ drop-drop (length m.body) odd (m.body ++ tail)
      ∙ ap (λ t. drop odd t)
          (drop-append (length m.body) m.body tail (omega arith)
            ∙ ap (λ t. t ++ tail) (drop_all m.body))
      ∙ drop-padding m.body (encode ms)

  -- How the loop goes on from the outcome of a round.
  abbrev goes_on : ℕ → Buffer → Context × Option (ℕ × Buffer) → Option Context
  goes_on fuel archive q = elim q.1 [
    | none ↦ some q.0
    | some (next, table) ↦ archive_loop strtoull strtol fuel path archive next table q.0
  ]

  loop_step :
      (fuel : ℕ) (archive strtab : Buffer) (off : ℕ) (ctx : Context)
      (q : Context × Option (ℕ × Buffer))
      → leb (off + 60) (length archive) ≡ true
      → archive_round strtoull strtol path archive off strtab ctx ≡ q
      → archive_loop strtoull strtol (suc fuel) path archive off strtab ctx ≡ goes_on fuel archive q
  unfolding archive_loop
  loop_step fuel archive strtab off ctx q on e = rw on (ap (goes_on fuel archive) e)

  archive_loop-encode :
      (ms : List Member) (fuel : ℕ) (archive strtab : Buffer) (off : ℕ) (ctx : Context)
      → All (IsFramed strtol) ms
      → drop off archive ≡ encode ms
      → length archive ≡ off + length (encode ms)
      → off % 2 ≡ 0
      → length (encode ms) < fuel
      → archive_loop strtoull strtol fuel path archive off strtab ctx
        ≡ some (load_members strtab ms ctx)
  unfolding archive_loop load_members load_member starts_with
  archive_loop-encode ms zero archive strtab off ctx f e size even enough = absurd (omega arith)
  archive_loop-encode [] (suc fuel) archive strtab off ctx f e size even enough =
      let over : leb (off + 60) (length archive) ≡ false =
        (let none_left : length (encode []) ≡ 0 = unfold encode in refl in ground arith) in
      rw over refl
  archive_loop-encode (m ∷ ms) (suc fuel) archive strtab off ctx f e size even enough =
      let long = length-encode m ms f.0.size in
      let on : leb (off + 60) (length archive) ≡ true = ground arith in
      let end = off + 60 + length m.body in
      let r = load_member strtoull strtol path m.header m.body strtab ctx in
      let round =
        round_framed m (padding m.body ++ encode ms) archive strtab off ctx f.0
          (e ∙ unfold encode in refl) (omega arith) in
      let next : next_even end ≡ off + (60 + (length m.body + length m.body % 2)) = ground arith in
      loop_step fuel archive strtab off ctx (stepped end r) on round ∙ elim (Option-cases r.1) [
        | inl stop ↦ rw stop refl
        | inr (table, go) ↦ rw go (
            archive_loop-encode ms fuel archive table (next_even end) r.0 f.1
              (rw (next, drop-drop off (60 + (length m.body + length m.body % 2)) archive, e)
                (drop-encode m ms f.0.size))
              (omega arith) (omega arith) (omega arith))
      ]

  -- Loading an archive of members, each with a header of 60 bytes that ends as it must and whose
  -- size field reads as the body's length, bodies of odd length padded, does to the context what the
  -- members do one by one, each with its own header and body.
  pub load_archive-encode :
      (ms : List Member) (ctx : Context)
      → All (IsFramed strtol) ms
      → load_archive strtoull strtol path (armag ++ encode ms) ctx ≡ some (load_members [] ms ctx)
  unfolding load_archive
  load_archive-encode ms ctx f =
      archive_loop-encode ms (length (armag ++ encode ms) + 1) (armag ++ encode ms) [] 8 ctx f refl
        (length-append armag (encode ms)) refl (omega (arith, length-append armag (encode ms)))
