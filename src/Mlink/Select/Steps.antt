-- ===== src/Mlink/Select/Steps.antt =====
-- One member selected: what it needs, and what it changes.
use one_tool.Common.{
  ℕ, zero, suc, ◌+◌, ◌≤◌, ◌≡◌, refl, ◌⊎◌, inl, inr, Bool, true, false, not, ◌&&◌, List, [], ◌∷◌,
  some, arith, if◌then◌else◌, Bool-cases, Option-cases, length, get_elem?, set, length-set,
}
use one_tool.Mlink.Types.{Object}
use one_tool.Mlink.Select.{archive_member_needed, select_member}

-- `u` is `t` with one more member selected: an archive member that was not, and that defines a
-- symbol which the selected objects refer to and do not define.
pub data Pull (t u : List Object) : Type 0 where
  pull :
      (i : ℕ) (obj : Object)
      → get_elem? t i ≡ some obj
      → obj.selected ≡ false
      → obj.from_archive ≡ true
      → archive_member_needed t obj ≡ true
      → u ≡ set t i (record obj { selected = true })
      → Pull t u

pub data Pulls (t : List Object) : List Object → Type 0 where
  here : Pulls t t
  next : {u v : List Object} → Pulls t u → Pull u v → Pulls t v

-- No member is left that is needed.
abbrev pub IsClosed : List Object → Type 0
IsClosed objs =
    (i : ℕ) (obj : Object)
    → get_elem? objs i ≡ some obj
    → obj.selected ≡ false
    → obj.from_archive ≡ true
    → archive_member_needed objs obj ≡ false

abbrev pub unselected : List Object → ℕ
unselected [] = 0
unselected (obj ∷ objs) = (if obj.selected then 0 else 1) + unselected objs

pub unselected-le : (objs : List Object) → unselected objs ≤ length objs
unselected-le [] = omega arith
unselected-le (obj ∷ objs) = ground (arith, unselected-le objs)

unselected-set :
    (objs : List Object) (i : ℕ) (obj new : Object)
    → get_elem? objs i ≡ some obj
    → obj.selected ≡ false
    → new.selected ≡ true
    → suc (unselected (set objs i new)) ≡ unselected objs
unselected-set [] i obj new e off on = cc
unselected-set (x ∷ objs) zero obj new e off on = ground arith
unselected-set (x ∷ objs) (suc i) obj new e off on =
    ground (arith, unselected-set objs i obj new e off on)

-- What one body of the loop did.
pub record Picked (t u : List Object) : Type 0 where
  pub step : Pull t u
  pub fewer : suc (unselected u) ≡ unselected t
  pub same_length : length u ≡ length t

abbrev wanted : List Object → Object → Bool
wanted t obj = not obj.selected && obj.from_archive && archive_member_needed t obj

pub select_member-cases :
    (i : ℕ) (t : List Object)
    → ((select_member i t ≡ (false, t))
        × ((obj : Object)
            → get_elem? t i ≡ some obj
            → obj.selected ≡ false
            → obj.from_archive ≡ true
            → archive_member_needed t obj ≡ false))
      ⊎ ((u : List Object) × (select_member i t ≡ (true, u)) × Picked t u)
unfolding select_member
select_member-cases i t = elim (Option-cases (get_elem? t i)) [
  | inl missing ↦ inl (rw (missing, select_member), λ obj e off arch. cc)
  | inr (obj, e) ↦ elim (Bool-cases (wanted t obj)) [
    | inl yes! ↦
        let u = set t i (record obj { selected = true }) in
        let off : obj.selected ≡ false = ground arith in
        inr (
          u,
          ground arith,
          record {
            step = pull i obj e off (ground arith) (ground arith) refl;
            fewer = unselected-set t i obj (record obj { selected = true }) e off refl;
            same_length = length-set t i (record obj { selected = true });
          },
        )
    | inr no! ↦ inl (ground arith, λ o e' off arch. ground arith)
  ]
]
