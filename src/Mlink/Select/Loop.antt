-- ===== src/Mlink/Select/Loop.antt =====
-- The loop ends, and no member that is needed is left out.
use mathlib.Core.Path.{subst}
use one_tool.Common.{
  ℕ, zero, suc, ◌+◌, ◌≤◌, ◌<◌, ◌≡◌, refl, ◌∙◌, inl, inr, Bool, true, false, List, some, arith,
  Bool-cases, ◌==◌, get_elem?-lt, length, get_elem?,
}
use one_tool.Mlink.Types.{Object}
use one_tool.Mlink.Select.{archive_member_needed, select_round, select_loop, select_archive_members}
use one_tool.Mlink.Select.Steps.{
  Pulls, here, next, IsClosed, unselected, unselected-le, select_member-cases,
}

Pulls-trans : {t u v : List Object} → Pulls t u → Pulls u v → Pulls t v
Pulls-trans p here = p
Pulls-trans p (next q s) = next (Pulls-trans p q) s

-- No member from index `i` up to `j` is needed.
abbrev ClosedBetween : ℕ → ℕ → List Object → Type 0
ClosedBetween i j t =
    (k : ℕ) (obj : Object)
    → i ≤ k
    → k < j
    → get_elem? t k ≡ some obj
    → obj.selected ≡ false
    → obj.from_archive ≡ true
    → archive_member_needed t obj ≡ false

-- A round: what it leaves, by whether it selected anything.
record Round (t : List Object) (i j : ℕ) (r : Bool × List Object) : Type 0 where
  pulls : Pulls t r.1
  same_length : length r.1 ≡ length t
  fewer : r.0 ≡ true → unselected r.1 < unselected t
  not_more : unselected r.1 ≤ unselected t
  closed : r.0 ≡ false → (r.1 ≡ t) × ClosedBetween i j t

select_round-Round :
    (left i j : ℕ) (t : List Object) → i + left ≡ j → Round t i j (select_round left i t)
unfolding select_round
select_round-Round zero i j t e = record {
  pulls = here;
  same_length = refl;
  fewer = λ h. cc;
  not_more = omega arith;
  closed = λ h. (refl, λ k obj a b. absurd (omega arith));
}
select_round-Round (suc left) i j t e = elim (select_member-cases i t) [
  | inl (still, unneeded) ↦
      let rest = select_round-Round left (i + 1) j t (omega arith) in
      rw still record {
        pulls = rest.pulls;
        same_length = rest.same_length;
        fewer = rest.fewer;
        not_more = rest.not_more;
        closed = λ h.
            let (same, later) = rest.closed h in
            (
              same,
              λ k obj a b e' off arch. elim (Bool-cases (k == i)) [
                | inl now ↦
                    let here_now : k ≡ i = ground arith in
                    unneeded obj (subst (λ m. get_elem? t m ≡ some obj) here_now e') off arch
                | inr after ↦ later k obj (ground arith) b e' off arch
              ],
            );
      }
  | inr (u, moved, picked) ↦
      let rest = select_round-Round left (i + 1) j u (omega arith) in
      rw moved record {
        pulls = Pulls-trans (next here picked.step) rest.pulls;
        same_length = rest.same_length ∙ picked.same_length;
        fewer = λ h. omega (arith, rest.not_more, picked.fewer);
        not_more = omega (arith, rest.not_more, picked.fewer);
        closed = λ h. cc;
      }
]

-- The loop over the archive members ends within the rounds it is given.
select_loop-closes :
    (fuel : ℕ) (t : List Object)
    → unselected t < fuel
    → (u : List Object) × (select_loop fuel t ≡ some u) × Pulls t u × IsClosed u
unfolding select_loop
select_loop-closes zero t h = absurd (omega arith)
select_loop-closes (suc fuel) t h =
    let round = select_round-Round (length t) 0 (length t) t (omega arith) in
    elim (Bool-cases (select_round (length t) 0 t).0) [
      | inl changed ↦
          let (u, ends, pulls, closed) =
            select_loop-closes fuel (select_round (length t) 0 t).1
              (omega (arith, round.fewer changed)) in
          (u, rw changed ends, Pulls-trans round.pulls pulls, closed)
      | inr still ↦
          let (same, between) = round.closed still in
          (
            (select_round (length t) 0 t).1,
            rw still refl,
            round.pulls,
            rw same (λ k obj e off arch.
                between k obj (omega arith) (get_elem?-lt t k obj e) e off arch),
          )
    ]

-- `select_archive_members` ends. It only ever selects archive members that define a symbol which
-- the objects selected so far refer to and do not define, and when it ends no such member is left.
pub select_archive_members-closes :
    (objs : List Object)
    → (chosen : List Object) × (select_archive_members objs ≡ some chosen)
      × Pulls objs chosen
      × IsClosed chosen
unfolding select_archive_members
select_archive_members-closes objs =
    select_loop-closes (length objs + 1) objs (omega (arith, unselected-le objs))
