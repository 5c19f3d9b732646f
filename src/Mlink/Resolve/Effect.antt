-- ===== src/Mlink/Resolve/Effect.antt =====
-- tools/dev/mlink/symtab.c: what one symbol does to the entry of a name.
use one_tool.Common.{
  ℕ, ◌≡◌, Bool, true, false, ◌&&◌, ◌||◌, List, [], ◌∷◌, ◌++◌, Option, none, some, arith, ◌==◌,
  if◌then◌else◌, Option-cases, inl, inr, any, first, first_snoc, first_holds, first_missing,
  any-first, any_snoc,
}
use one_tool.Common.Text.{str_eq, str_eq_iff}
use one_tool.Mlink.Types.{Name, Symbol, Global}
use one_tool.Mlink.Symtab.{
  is_weak_symbol, is_global_symbol, symbol_has_name, merge_symbol, refer, shn_abs,
}
use one_tool.Mlink.Symtab.Table.{
  entry, entry-write, define_global-write, record_undefined-write, merge-KeepsName, refer-KeepsName,
}
use one_tool.Mlink.Select.{defines}
use one_tool.Mlink.Resolve.{resolve_symbol}
use one_tool.Mlink.Resolve.Spec.{Entry, defines_name, defines_strongly, winner, clash}

abbrev pub applies : Symbol → Bool
applies s = symbol_has_name s && is_global_symbol s

abbrev pub effect : ℕ → Symbol → Global → Bool × Global
effect obj s g = if s.undefined then (false, refer s g) else merge_symbol obj s g

pub resolve_symbol-entry :
    (obj : ℕ) (s : Symbol) (gs : List Global) (name : Name)
    → entry (resolve_symbol obj s gs).1 name ≡ (
        if applies s && str_eq s.name name then (effect obj s (entry gs name)).1 else entry gs name)
unfolding resolve_symbol
resolve_symbol-entry obj s gs name = ground (
  arith,
  str_eq_iff s.name name,
  record_undefined-write s gs,
  define_global-write obj s gs,
  entry-write gs s.name name (refer s) (refer-KeepsName s),
  entry-write gs s.name name (λ g. (merge_symbol obj s g).1) (merge-KeepsName obj s),
)

pub resolve_symbol_stop :
    (obj : ℕ) (s : Symbol) (gs : List Global)
    → (resolve_symbol obj s gs).0 ≡ (applies s && (effect obj s (entry gs s.name)).0)
unfolding resolve_symbol
resolve_symbol_stop obj s gs = ground (arith, define_global-write obj s gs)

-- The entry is the definition `e`, or no definition.
abbrev pub HeldBy : Global → Option Entry → Type 0
HeldBy g none = g.defined ≡ false
HeldBy g (some e) =
    (g.defined ≡ true)
    × (g.common ≡ false)
    × (g.object ≡ some e.0)
    × (g.symbol ≡ some e.1)
    × (g.size ≡ e.1.size)
    × (g.absolute ≡ (e.1.shndx == shn_abs))
    × (g.weak ≡ is_weak_symbol e.1)

pub clash_snoc :
    (name : Name) (es : List Entry) (e : Entry)
    → clash name (es ++ e ∷ [])
      ≡ (clash name es || any (defines_strongly name) es && defines_name name e)
clash_snoc name [] e =
    ground (arith, any-first (defines_name name) [], any-first (defines_strongly name) [])
clash_snoc name (x ∷ es) e = ground (
  arith,
  clash_snoc name es e,
  any_snoc (defines_name name) es e,
  any-first (defines_strongly name) (x ∷ es),
  any-first (defines_strongly name) es,
)

-- One symbol of the name, taken after the symbols `es`.
module _ (name : Name) (es : List Entry) (obj : ℕ) (s : Symbol) (g : Global) where
  abbrev pub more : List Entry
  more = es ++ (obj, s) ∷ []

  pub effect-HeldBy :
      HeldBy g (winner name es)
      → applies s && str_eq s.name name ≡ true
      → (effect obj s g).0 ≡ false
      → HeldBy (effect obj s g).1 (winner name more)
  unfolding merge_symbol refer defines
  effect-HeldBy held mine going = elim (Option-cases (first (defines_strongly name) es)) [
    | inr (e, strong) ↦ ground (
      arith,
      first_snoc (defines_strongly name) es (obj, s),
      first_holds (defines_strongly name) es e,
    )
    | inl weak ↦ elim (Option-cases (first (defines_name name) es)) [
      | inr (e, found) ↦ ground (
        arith,
        first_snoc (defines_strongly name) es (obj, s),
        first_snoc (defines_name name) es (obj, s),
      )
      | inl missing ↦ ground (
        arith,
        first_snoc (defines_strongly name) es (obj, s),
        first_snoc (defines_name name) es (obj, s),
      )
    ]
  ]

  pub effect-clash :
      HeldBy g (winner name es)
      → clash name es ≡ false
      → applies s && str_eq s.name name ≡ true
      → (effect obj s g).0 ≡ clash name more
  unfolding merge_symbol refer defines
  effect-clash held calm mine = elim (Option-cases (first (defines_strongly name) es)) [
    | inr (e, strong) ↦ ground (
      arith,
      clash_snoc name es (obj, s),
      any-first (defines_strongly name) es,
      first_holds (defines_strongly name) es e,
    )
    | inl weak ↦ elim (Option-cases (first (defines_name name) es)) [
      | inr (e, found) ↦ ground (
        arith,
        clash_snoc name es (obj, s),
        any-first (defines_strongly name) es,
        first_holds (defines_name name) es e,
        first_missing (defines_strongly name) (defines_name name) es e,
      )
      | inl missing ↦
          ground (arith, clash_snoc name es (obj, s), any-first (defines_strongly name) es)
    ]
  ]

  pub other-winner : applies s && str_eq s.name name ≡ false → winner name more ≡ winner name es
  unfolding defines
  other-winner theirs = ground (
    arith,
    first_snoc (defines_strongly name) es (obj, s),
    first_snoc (defines_name name) es (obj, s),
  )

  pub other-clash : applies s && str_eq s.name name ≡ false → clash name more ≡ clash name es
  unfolding defines
  other-clash theirs = ground (arith, clash_snoc name es (obj, s))
