-- ===== src/Mlink/Resolve/Spec.antt =====
-- What resolution should find, read off the sequence of symbols alone: the first strong
-- definition of a name, or else the first weak one.
use one_tool.Common.{
  ℕ, ◌+◌, ◌≡◌, refl, Bool, true, false, not, ◌&&◌, ◌||◌, List, [], ◌∷◌, ◌++◌, map, Option, none,
  some, arith, if◌then◌else◌, Bool-cases, inl, inr, any, first,
}
use one_tool.Common.Text.{str_eq}
use one_tool.Mlink.Types.{Name, Symbol, Object, Global}
use one_tool.Mlink.Symtab.{is_weak_symbol}
use one_tool.Mlink.Select.{defines}
use one_tool.Mlink.Resolve.{resolve_symbol, resolve_object, resolve_objects}

-- A symbol with the index of its object.
abbrev pub Entry : Type 0
Entry = ℕ × Symbol

abbrev pub defines_name : Name → Entry → Bool
defines_name name e = defines e.1 && str_eq e.1.name name

abbrev pub defines_strongly : Name → Entry → Bool
defines_strongly name e = defines_name name e && not (is_weak_symbol e.1)

abbrev pub winner : Name → List Entry → Option Entry
winner name es = elim (first (defines_strongly name) es) [
  | some e ↦ some e
  | none ↦ first (defines_name name) es
]

-- A strong definition of the name with a definition of it later on.
abbrev pub clash : Name → List Entry → Bool
clash name [] = false
clash name (e ∷ es) = defines_strongly name e && any (defines_name name) es || clash name es

-- The symbols of the selected objects, in the order of the walk.
unfoldable pub entries : ℕ → List Object → List Entry
entries i [] = []
entries i (obj ∷ objs) =
    if obj.selected
    then map (λ sym. (i, sym)) obj.symbols ++ entries (i + 1) objs
    else entries (i + 1) objs

-- The walk over that one sequence.
unfoldable pub walk : List Entry → List Global → Bool × List Global
walk [] gs = (false, gs)
walk (e ∷ es) gs =
    let (stop, gs') = resolve_symbol e.0 e.1 gs in
    let rest = walk es gs' in if stop then (true, gs') else rest

pub walk-append :
    (es fs : List Entry) (gs : List Global)
    → walk (es ++ fs) gs
      ≡ (let (stop, gs') = walk es gs in if stop then (true, gs') else walk fs gs')
unfolding walk
walk-append [] fs gs = refl
walk-append (e ∷ es) fs gs = ground (arith, walk-append es fs (resolve_symbol e.0 e.1 gs).1)

resolve_object-walk :
    (i : ℕ) (syms : List Symbol) (gs : List Global)
    → resolve_object i syms gs ≡ walk (map (λ sym. (i, sym)) syms) gs
unfolding walk resolve_object
resolve_object-walk i [] gs = refl
resolve_object-walk i (sym ∷ syms) gs =
    ground (arith, resolve_object-walk i syms (resolve_symbol i sym gs).1)

pub resolve_objects-walk :
    (i : ℕ) (objs : List Object) (gs : List Global)
    → resolve_objects i objs gs ≡ walk (entries i objs) gs
unfolding walk resolve_objects entries
resolve_objects-walk i [] gs = refl
resolve_objects-walk i (obj ∷ objs) gs = elim (Bool-cases obj.selected) [
  | inl on ↦ ground (
    arith,
    resolve_object-walk i obj.symbols gs,
    walk-append (map (λ sym. (i, sym)) obj.symbols) (entries (i + 1) objs) gs,
    resolve_objects-walk (i + 1) objs (resolve_object i obj.symbols gs).1,
  )
  | inr off ↦ ground (arith, resolve_objects-walk (i + 1) objs gs)
]
