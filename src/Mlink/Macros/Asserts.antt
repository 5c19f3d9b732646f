-- ===== src/Mlink/Macros/Asserts.antt =====
-- tools/dev/mlink/macro.c: ASSERT, and an independent description of what it asks for.
use one_tool.Common.{
  ℕ, ◌+◌, ◌-◌, ◌%◌, ◌^◌, ◌≤◌, ◌<◌, Bool, true, false, ◌||◌, List, [], ◌∷◌, none, some,
  if◌then◌else◌, ◌≡◌, ◌≢◌, ◌↔◌, refl, sym, ap, ◌∙◌, ◌⊎◌, inl, inr, arith, All, Bool-cases,
  Option-cases,
}
use one_tool.Common.Bits.{u64}
use one_tool.Common.Text.{str_eq}
use one_tool.Mlink.Types.{
  Global, Macro, AssertOp, op_lt, op_le, op_gt, op_ge, op_eq, op_ne, TermPart, symbol_part,
  value_part, Name, Context,
}
use one_tool.Mlink.Symtab.{find_global}
use one_tool.Mlink.Macros.{
  eval_op, resolve_part, resolve_parts, is_negative, resolve_term, is_assertion, assertion_fails,
  count_failures, apply_post_layout,
}

-- What an ASSERT asks for.
unfoldable pub Compares : AssertOp → ℕ → ℕ → Type 0
Compares op_lt l r = l < r
Compares op_le l r = l ≤ r
Compares op_gt l r = r < l
Compares op_ge l r = r ≤ l
Compares op_eq l r = l ≡ r
Compares op_ne l r = l ≢ r

eval_op-Compares : (op : AssertOp) (l r : ℕ) → (eval_op l op r ≡ true) ↔ Compares op l r
unfolding eval_op Compares
eval_op-Compares op_lt l r = ground arith
eval_op-Compares op_le l r = ground arith
eval_op-Compares op_gt l r = ground arith
eval_op-Compares op_ge l r = ground arith
eval_op-Compares op_eq l r = ground arith
eval_op-Compares op_ne l r = ground arith

-- The first entry of that name is a definition or a common block, and this is its value.
unfoldable pub IsValue : List Global → Name → ℕ → Type 0
IsValue [] name x = ⊥
IsValue (g ∷ gs) name x =
    (str_eq g.name name ≡ true → ((g.defined ≡ true) ⊎ (g.common ≡ true)) × (x ≡ g.value))
    × (str_eq g.name name ≡ false → IsValue gs name x)

-- The sums of what a term adds and of what it takes away.
pub data Sums (gs : List Global) : List TermPart → ℕ → ℕ → Type 0 where
  no_part : Sums gs [] 0 0
  plus_value :
      (v plus minus : ℕ) (ps : List TermPart)
      → Sums gs ps plus minus
      → Sums gs (value_part false v ∷ ps) (v + plus) minus
  minus_value :
      (v plus minus : ℕ) (ps : List TermPart)
      → Sums gs ps plus minus
      → Sums gs (value_part true v ∷ ps) plus (v + minus)
  plus_symbol :
      (name : Name) (v plus minus : ℕ) (ps : List TermPart)
      → IsValue gs name v
      → Sums gs ps plus minus
      → Sums gs (symbol_part false name ∷ ps) (v + plus) minus
  minus_symbol :
      (name : Name) (v plus minus : ℕ) (ps : List TermPart)
      → IsValue gs name v
      → Sums gs ps plus minus
      → Sums gs (symbol_part true name ∷ ps) plus (v + minus)

-- `t` is the difference of these sums modulo 2^64.
pub record IsTotal (gs : List Global) (ps : List TermPart) (t : ℕ) : Type 0 where
  plus : ℕ
  minus : ℕ
  summed : Sums gs ps plus minus
  small : t < 2 ^ 64
  difference : (t + minus) % 2 ^ 64 ≡ plus % 2 ^ 64

resolve_here :
    (b : Bool) (g : Global) (gs : List Global) (name : Name)
    → str_eq g.name name ≡ true
    → resolve_part (g ∷ gs) (symbol_part b name)
      ≡ (if g.defined || g.common then some g.value else none)
unfolding resolve_part find_global
resolve_here b g gs name e = rw (resolve_part, e) refl

resolve_later :
    (b : Bool) (g : Global) (gs : List Global) (name : Name)
    → str_eq g.name name ≡ false
    → resolve_part (g ∷ gs) (symbol_part b name) ≡ resolve_part gs (symbol_part b name)
unfolding resolve_part find_global
resolve_later b g gs name e = elim (Option-cases (find_global gs name)) [
  | inl f ↦ rw (resolve_part, e, f) refl
  | inr (i, f) ↦ rw (resolve_part, e, f) refl
]

IsValue-resolve_part :
    (b : Bool) (gs : List Global) (name : Name) (x : ℕ)
    → (resolve_part gs (symbol_part b name) ≡ some x) ↔ IsValue gs name x
unfolding IsValue
IsValue-resolve_part b [] name x = (λ h. unfold resolve_part find_global in cc, λ h. absurd h)
IsValue-resolve_part b (g ∷ gs) name x = elim (Bool-cases (str_eq g.name name)) [
  | inl e ↦
      rw (resolve_here b g gs name e)
        (λ h. (λ _. ground (arith, h), λ n. cc), λ v. (let at = v.0 e in ground (arith, at)))
  | inr e ↦
      let (to, from) = IsValue-resolve_part b gs name x in
      rw (resolve_later b g gs name e) (λ h. (λ y. cc, λ _. to h), λ v. from (v.1 e))
]

-- A part's contribution to the running total.
added :
    (gs : List Global) (part : TermPart) (ps : List TermPart) (v total : ℕ)
    → resolve_part gs part ≡ some v
    → resolve_parts (part ∷ ps) gs total
      ≡ resolve_parts ps gs
          (if is_negative part then u64 (total + 2 ^ 64 - u64 v) else u64 (total + v))
unfolding resolve_parts
added gs part ps v total e = rw (resolve_parts, e) refl

plus_lem :
    (total v t plus minus : ℕ)
    → (t + minus) % 2 ^ 64 ≡ (u64 (total + v) + plus) % 2 ^ 64
    → (t + minus) % 2 ^ 64 ≡ (total + (v + plus)) % 2 ^ 64
plus_lem total v t plus minus h = omega arith

minus_lem :
    (total v t plus minus : ℕ)
    → total < 2 ^ 64
    → (t + minus) % 2 ^ 64 ≡ (u64 (total + 2 ^ 64 - u64 v) + plus) % 2 ^ 64
    → (t + (v + minus)) % 2 ^ 64 ≡ (total + plus) % 2 ^ 64
minus_lem total v t plus minus small h = omega arith

-- From a running total, a term whose parts have these sums has a value.
record From (gs : List Global) (ps : List TermPart) (total plus minus : ℕ) : Type 0 where
  value : ℕ
  resolved : resolve_parts ps gs total ≡ some value
  small : value < 2 ^ 64
  difference : (value + minus) % 2 ^ 64 ≡ (total + plus) % 2 ^ 64

Sums-From :
    (gs : List Global) (ps : List TermPart) (total plus minus : ℕ)
    → total < 2 ^ 64
    → Sums gs ps plus minus
    → From gs ps total plus minus
unfolding is_negative resolve_part
Sums-From gs [] total _ _ small no_part = record {
  value = total;
  resolved = unfold resolve_parts in refl;
  small = small;
  difference = refl;
}
Sums-From gs _ total _ _ small (plus_value v plus minus ps s) =
    let f = Sums-From gs ps (u64 (total + v)) plus minus (omega arith) s in
    record {
      value = f.value;
      resolved = added gs (value_part false v) ps v total refl ∙ f.resolved;
      small = f.small;
      difference = plus_lem total v f.value plus minus f.difference;
    }
Sums-From gs _ total _ _ small (minus_value v plus minus ps s) =
    let f = Sums-From gs ps (u64 (total + 2 ^ 64 - u64 v)) plus minus (omega arith) s in
    record {
      value = f.value;
      resolved = added gs (value_part true v) ps v total refl ∙ f.resolved;
      small = f.small;
      difference = minus_lem total v f.value plus minus small f.difference;
    }
Sums-From gs _ total _ _ small (plus_symbol name v plus minus ps is s) =
    let f = Sums-From gs ps (u64 (total + v)) plus minus (omega arith) s in
    record {
      value = f.value;
      resolved =
          added gs (symbol_part false name) ps v total ((IsValue-resolve_part false gs name v).1 is)
          ∙ f.resolved;
      small = f.small;
      difference = plus_lem total v f.value plus minus f.difference;
    }
Sums-From gs _ total _ _ small (minus_symbol name v plus minus ps is s) =
    let f = Sums-From gs ps (u64 (total + 2 ^ 64 - u64 v)) plus minus (omega arith) s in
    record {
      value = f.value;
      resolved =
          added gs (symbol_part true name) ps v total ((IsValue-resolve_part true gs name v).1 is)
          ∙ f.resolved;
      small = f.small;
      difference = minus_lem total v f.value plus minus small f.difference;
    }

-- A term with a value has sums.
abbrev HasSums : List Global → List TermPart → Type 0
HasSums gs ps = (plus : ℕ) × (minus : ℕ) × Sums gs ps plus minus

part-HasSums :
    (gs : List Global) (part : TermPart) (ps : List TermPart) (v : ℕ)
    → resolve_part gs part ≡ some v
    → HasSums gs ps
    → HasSums gs (part ∷ ps)
part-HasSums gs (value_part false w) ps v e (plus, minus, s) =
    (w + plus, minus, plus_value w plus minus ps s)
part-HasSums gs (value_part true w) ps v e (plus, minus, s) =
    (plus, w + minus, minus_value w plus minus ps s)
part-HasSums gs (symbol_part false name) ps v e (plus, minus, s) = (
  v + plus,
  minus,
  plus_symbol name v plus minus ps ((IsValue-resolve_part false gs name v).0 e) s,
)
part-HasSums gs (symbol_part true name) ps v e (plus, minus, s) = (
  plus,
  v + minus,
  minus_symbol name v plus minus ps ((IsValue-resolve_part true gs name v).0 e) s,
)

resolve_parts-HasSums :
    (gs : List Global) (ps : List TermPart) (total t : ℕ)
    → resolve_parts ps gs total ≡ some t
    → HasSums gs ps
unfolding resolve_parts
resolve_parts-HasSums gs [] total t h = (0, 0, no_part)
resolve_parts-HasSums gs (part ∷ ps) total t h = elim (Option-cases (resolve_part gs part)) [
  | inl e ↦ absurd (ground (arith, e, h))
  | inr (v, e) ↦ part-HasSums gs part ps v e (
      resolve_parts-HasSums gs ps
        (if is_negative part then u64 (total + 2 ^ 64 - u64 v) else u64 (total + v)) t
        (sym (added gs part ps v total e) ∙ h))
]

same_total :
    (s t minus plus : ℕ)
    → s < 2 ^ 64
    → t < 2 ^ 64
    → (s + minus) % 2 ^ 64 ≡ (0 + plus) % 2 ^ 64
    → (t + minus) % 2 ^ 64 ≡ plus % 2 ^ 64
    → s ≡ t
same_total s t minus plus a b c d = omega arith

total_unique :
    (gs : List Global) (ps : List TermPart) (t plus minus : ℕ)
    → From gs ps 0 plus minus
    → resolve_parts ps gs 0 ≡ some t
    → (t < 2 ^ 64) × ((t + minus) % 2 ^ 64 ≡ (0 + plus) % 2 ^ 64)
total_unique gs ps t plus minus f h =
    let same : some f.value ≡ some t = sym f.resolved ∙ h in
    let equal : f.value ≡ t = cc in (rw equal at f.small, rw equal at f.difference)

resolve_parts-IsTotal :
    (gs : List Global) (ps : List TermPart) (t : ℕ)
    → HasSums gs ps
    → resolve_parts ps gs 0 ≡ some t
    → IsTotal gs ps t
resolve_parts-IsTotal gs ps t (plus, minus, s) h =
    let (small, difference) =
      total_unique gs ps t plus minus (Sums-From gs ps 0 plus minus (omega arith) s) h in
    record { plus = plus; minus = minus; summed = s; small = small; difference = omega arith }

-- `resolve_term` finds exactly the totals.
resolve_term-IsTotal :
    (gs : List Global) (ps : List TermPart) (t : ℕ)
    → (resolve_term ps gs ≡ some t) ↔ IsTotal gs ps t
resolve_term-IsTotal gs ps t = (
  λ h. resolve_parts-IsTotal gs ps t (resolve_parts-HasSums gs ps 0 t h) h,
  λ total.
      (let f = Sums-From gs ps 0 total.plus total.minus (omega arith) total.summed in
        let same : f.value ≡ t =
          same_total f.value t total.minus total.plus f.small total.small f.difference
            total.difference in
        f.resolved ∙ ap some same),
)

-- Both sides have a total, and these compare as the macro says.
pub Holds : List Global → Macro → Type 0
Holds gs m = (l : ℕ) × (r : ℕ) × IsTotal gs m.lhs l × IsTotal gs m.rhs r × Compares m.op l r

assertion_fails-Holds : (gs : List Global) (m : Macro) → (assertion_fails gs m ≡ false) ↔ Holds gs m
unfolding assertion_fails Holds
assertion_fails-Holds gs m = elim (Option-cases (resolve_term m.lhs gs)) [
  | inl e ↦ (
    λ h. ground (arith, e),
    λ (l, r, el, _, _). (let got = (resolve_term-IsTotal gs m.lhs l).1 el in cc),
  )
  | inr (l, e) ↦ elim (Option-cases (resolve_term m.rhs gs)) [
    | inl f ↦ (
      λ h. ground (arith, e, f),
      λ (_, r, _, er, _). (let got = (resolve_term-IsTotal gs m.rhs r).1 er in cc),
    )
    | inr (r, f) ↦ (
      λ h. (
        l,
        r,
        (resolve_term-IsTotal gs m.lhs l).0 e,
        (resolve_term-IsTotal gs m.rhs r).0 f,
        (eval_op-Compares m.op l r).0 (ground (arith, e, f)),
      ),
      λ (l', r', e', f', c).
          let left = (resolve_term-IsTotal gs m.lhs l').1 e' in
          let right = (resolve_term-IsTotal gs m.rhs r').1 f' in
          let sl : l' ≡ l = ground (arith, e, left) in
          let sr : r' ≡ r = ground (arith, f, right) in
          let yes = (eval_op-Compares m.op l r).1 (rw (sl, sr) at c) in ground (arith, e, f, yes),
    )
  ]
]

count_failures-Holds :
    (ms : List Macro) (gs : List Global)
    → (count_failures ms gs ≡ 0) ↔ All (λ m. is_assertion m ≡ true → Holds gs m) ms
unfolding count_failures
count_failures-Holds [] gs = (λ _. tt, λ _. refl)
count_failures-Holds (m ∷ ms) gs =
    let (to, from) = count_failures-Holds ms gs in
    (
      λ h. (λ a. (assertion_fails-Holds gs m).0 (ground (arith, a, h)), to (ground (arith, h))),
      λ (one, rest). elim (Bool-cases (is_assertion m)) [
        | inl a ↦ ground (arith, a, from rest, (assertion_fails-Holds gs m).1 (one a))
        | inr a ↦ ground (arith, a, from rest)
      ],
    )

-- `ml_macros_apply_post_layout` reports no error exactly when, for each ASSERT, each name's first
-- entry in the table is a definition or a common block, and the sums of the two sides, what is
-- added less what is taken away, modulo 2^64, compare as the ASSERT says.
pub apply_post_layout-Holds :
    (ctx : Context)
    → ((apply_post_layout ctx).error_count ≡ ctx.error_count)
      ↔ All (λ m. is_assertion m ≡ true → Holds ctx.globals m) ctx.macros
unfolding apply_post_layout
apply_post_layout-Holds ctx =
    let (to, from) = count_failures-Holds ctx.macros ctx.globals in
    (λ h. to (omega arith), λ all. omega (arith, from all))
