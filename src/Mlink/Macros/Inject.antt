-- ===== src/Mlink/Macros/Inject.antt =====
-- tools/dev/mlink/macro.c: `ml_macros_inject_symbols` as writes to the table.
use one_tool.Common.{
  Bool, true, false, List, [], ◌∷◌, none, some, if◌then◌else◌, ◌≡◌, ◌∙◌, All, refl, inl, inr, ◌⊎◌,
  arith, Bool-cases, Option-cases,
}
use one_tool.Common.Text.{str_eq, str_eq_iff, str_eq_self}
use one_tool.Mlink.Types.{
  Name, Macro, MacroKind, provide, define, base, stack_exec, keep, assertion, Global,
}
use one_tool.Mlink.Symtab.{find_global}
use one_tool.Mlink.Symtab.Table.{entry, write, KeepsName, entry-write}
use one_tool.Mlink.Macros.{macro_entry, inject_macro, inject_one, inject_macros}

macro_entry-KeepsName : (weak : Bool) (m : Macro) → KeepsName (macro_entry weak m)
macro_entry-KeepsName weak m g = refl

-- A found index is the entry's; a missing name has a blank one.
inject_macro-write :
    (weak : Bool) (m : Macro) (gs : List Global)
    → inject_macro weak m gs ≡ (
        if (entry gs m.name).defined
        then if weak then some gs else none
        else some (write gs m.name (macro_entry weak m)))
unfolding inject_macro find_global
inject_macro-write weak m [] = refl
inject_macro-write weak m (g ∷ gs) = ground (arith, inject_macro-write weak m gs)

-- PROVIDE and DEFINE, which make symbols.
abbrev pub makes_symbol : Macro → Bool
makes_symbol m = elim m.kind [ provide ↦ true | define ↦ true | _ ↦ false ]

abbrev pub is_define : Macro → Bool
is_define m = elim m.kind [ define ↦ true | _ ↦ false ]

-- Such a directive that ends well writes its entry or, for a PROVIDE, does nothing.
inject_macro-cases :
    (weak : Bool) (m : Macro) (gs gs' : List Global)
    → inject_macro weak m gs ≡ some gs'
    → (((entry gs m.name).defined ≡ true) × (weak ≡ true) × (gs ≡ gs'))
      ⊎ (((entry gs m.name).defined ≡ false) × (write gs m.name (macro_entry weak m) ≡ gs'))
inject_macro-cases weak m gs gs' h = elim (Bool-cases (entry gs m.name).defined) [
  | inl e ↦ elim (Bool-cases weak) [
    | inl w ↦ inl (e, w, ground (arith, e, w, inject_macro-write weak m gs))
    | inr w ↦ ground (arith, e, w, inject_macro-write weak m gs)
  ]
  | inr e ↦ inr (e, ground (arith, e, inject_macro-write weak m gs))
]

-- A definition that is there is kept.
inject_macro-keeps :
    (weak : Bool) (m : Macro) (gs gs' : List Global) (name : Name)
    → inject_macro weak m gs ≡ some gs'
    → (entry gs name).defined ≡ true
    → entry gs' name ≡ entry gs name
inject_macro-keeps weak m gs gs' name h there = elim (inject_macro-cases weak m gs gs' h) [
  | inl (_, _, same) ↦ rw (← same) refl
  | inr (e, same) ↦ elim (Bool-cases (str_eq m.name name)) [
    | inl s ↦ let n : m.name ≡ name = (str_eq_iff m.name name).0 s in ground (arith, e, n, there)
    | inr s ↦
        rw
          (
            ← same,
            entry-write gs m.name name (macro_entry weak m) (macro_entry-KeepsName weak m),
            s,
          )
          refl
  ]
]

inject_macro-makes :
    (weak : Bool) (m : Macro) (gs gs' : List Global)
    → inject_macro weak m gs ≡ some gs'
    → ((entry gs' m.name).defined ≡ true) × (weak ≡ false → (entry gs' m.name).value ≡ m.value)
inject_macro-makes weak m gs gs' h = elim (inject_macro-cases weak m gs gs' h) [
  | inl (e, w, same) ↦ rw (← same) (e, λ strong. cc)
  | inr (e, same) ↦
      rw
        (
          ← same,
          entry-write gs m.name m.name (macro_entry weak m) (macro_entry-KeepsName weak m),
          str_eq_self m.name,
        )
        (refl, λ _. refl)
]

-- What a PROVIDE or DEFINE asks of the table.
pub Met : List Global → Macro → Type 0
Met gs m =
    (makes_symbol m ≡ true → (entry gs m.name).defined ≡ true)
    × (is_define m ≡ true → (entry gs m.name).value ≡ m.value)

define_makes : (m : Macro) → is_define m ≡ true → makes_symbol m ≡ true
define_makes m d = ground arith

kind_cases :
    (m : Macro) (gs : List Global) (k : MacroKind)
    → m.kind ≡ k
    → ((inject_one m gs ≡ inject_macro true m gs) × (is_define m ≡ false))
      ⊎ (inject_one m gs ≡ inject_macro false m gs)
      ⊎ ((inject_one m gs ≡ some gs) × (makes_symbol m ≡ false) × (is_define m ≡ false))
unfolding inject_one
kind_cases m gs provide e = inl (rw e (refl, refl))
kind_cases m gs define e = inr (inl (rw e refl))
kind_cases m gs MacroKind.entry e = inr (inr (rw e (refl, refl, refl)))
kind_cases m gs base e = inr (inr (rw e (refl, refl, refl)))
kind_cases m gs stack_exec e = inr (inr (rw e (refl, refl, refl)))
kind_cases m gs keep e = inr (inr (rw e (refl, refl, refl)))
kind_cases m gs assertion e = inr (inr (rw e (refl, refl, refl)))

inject_one-keeps :
    (m : Macro) (gs gs' : List Global) (name : Name)
    → inject_one m gs ≡ some gs'
    → (entry gs name).defined ≡ true
    → entry gs' name ≡ entry gs name
inject_one-keeps m gs gs' name h there = elim (kind_cases m gs m.kind refl) [
  | inl (e, _) ↦ inject_macro-keeps true m gs gs' name (rw e at h) there
  | inr (inl e) ↦ inject_macro-keeps false m gs gs' name (rw e at h) there
  | inr (inr (e, _, _)) ↦ let same : gs ≡ gs' = ground (arith, e) in rw (← same) refl
]

inject_one-Met : (m : Macro) (gs gs' : List Global) → inject_one m gs ≡ some gs' → Met gs' m
unfolding Met
inject_one-Met m gs gs' h = elim (kind_cases m gs m.kind refl) [
  | inl (e, weak) ↦
      let (there, _) = inject_macro-makes true m gs gs' (rw e at h) in (λ _. there, λ d. cc)
  | inr (inl e) ↦
      let (there, value) = inject_macro-makes false m gs gs' (rw e at h) in
      (λ _. there, λ d. value refl)
  | inr (inr (_, neither, plain)) ↦ (λ d. cc, λ d. cc)
]

inject_macros-keeps :
    (ms : List Macro) (gs gs' : List Global) (name : Name)
    → inject_macros ms gs ≡ (false, gs')
    → (entry gs name).defined ≡ true
    → entry gs' name ≡ entry gs name
unfolding inject_macros
inject_macros-keeps [] gs gs' name h there = let same : gs ≡ gs' = cc in rw (← same) refl
inject_macros-keeps (m ∷ ms) gs gs' name h there = elim (Option-cases (inject_one m gs)) [
  | inl e ↦ ground (arith, e)
  | inr (mid, e) ↦
      let first = inject_one-keeps m gs mid name e there in
      inject_macros-keeps ms mid gs' name (rw (inject_macros, e) at h) (rw first there) ∙ first
]

-- If `ml_macros_inject_symbols` reports no conflict, then afterwards the symbol of every PROVIDE
-- and DEFINE is defined, and that of a DEFINE has the directive's own value.
pub inject_macros-Met :
    (ms : List Macro) (gs gs' : List Global) → inject_macros ms gs ≡ (false, gs') → All (Met gs') ms
unfolding inject_macros Met
inject_macros-Met [] gs gs' h = tt
inject_macros-Met (m ∷ ms) gs gs' h = elim (Option-cases (inject_one m gs)) [
  | inl e ↦ ground (arith, e)
  | inr (mid, e) ↦
      let rest : inject_macros ms mid ≡ (false, gs') = rw (inject_macros, e) at h in
      let (there, value) = inject_one-Met m gs mid e in
      (
        (
          λ d. rw (inject_macros-keeps ms mid gs' m.name rest (there d)) (there d),
          λ d. rw (inject_macros-keeps ms mid gs' m.name rest (there (define_makes m d))) (value d),
        ),
        inject_macros-Met ms mid gs' rest,
      )
]
