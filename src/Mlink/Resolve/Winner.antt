-- ===== src/Mlink/Resolve/Winner.antt =====
-- The entry of each name after the walk, against the specification.
use mathlib.Core.List.{append_assoc, append-nil}
use one_tool.Common.{
  ℕ, ◌≡◌, ◌↔◌, refl, ◌∙◌, sym, true, false, ◌&&◌, List, [], ◌∷◌, ◌++◌, arith, Bool-cases, inl, inr,
}
use one_tool.Common.Text.{str_eq, str_eq_iff, str_eq_self}
use one_tool.Mlink.Types.{Name, Symbol, Object, Global}
use one_tool.Mlink.Symtab.Table.{entry}
use one_tool.Mlink.Resolve.{resolve_symbol, resolve_objects}
use one_tool.Mlink.Resolve.Spec.{Entry, winner, clash, walk, entries, resolve_objects-walk}
use one_tool.Mlink.Resolve.Effect.{
  applies, effect, resolve_symbol-entry, resolve_symbol_stop, HeldBy, clash_snoc, effect-HeldBy,
  effect-clash, other-winner, other-clash,
}

stop_mine :
    (obj : ℕ) (s : Symbol) (gs : List Global) (name : Name)
    → applies s && str_eq s.name name ≡ true
    → (resolve_symbol obj s gs).0 ≡ (effect obj s (entry gs name)).0
stop_mine obj s gs name mine =
    let same : s.name ≡ name = ground (arith, str_eq_iff s.name name) in
    rw (← same) (ground (arith, resolve_symbol_stop obj s gs))

-- What the walk has established after the symbols `es`.
abbrev Settled : List Entry → List Global → Type 0
Settled es gs = (name : Name) → HeldBy (entry gs name) (winner name es) × (clash name es ≡ false)

Settled-step :
    (es : List Entry) (e : Entry) (gs : List Global)
    → Settled es gs
    → (resolve_symbol e.0 e.1 gs).0 ≡ false
    → Settled (es ++ e ∷ []) (resolve_symbol e.0 e.1 gs).1
Settled-step es e gs settled going name = elim (Bool-cases (applies e.1 && str_eq e.1.name name)) [
  | inl mine ↦
      let quiet = sym (stop_mine e.0 e.1 gs name mine) ∙ going in
      let (held, calm) = settled name in
      (
        rw (resolve_symbol-entry e.0 e.1 gs name, mine)
            (effect-HeldBy name es e.0 e.1 (entry gs name) held mine quiet),
        sym (effect-clash name es e.0 e.1 (entry gs name) held calm mine) ∙ quiet,
      )
  | inr theirs ↦
      let (held, calm) = settled name in
      (
        rw
            (
              resolve_symbol-entry e.0 e.1 gs name,
              theirs,
              other-winner name es e.0 e.1 (entry gs name) theirs,
            )
            held,
        other-clash name es e.0 e.1 (entry gs name) theirs ∙ calm,
      )
]

stop-clash :
    (es : List Entry) (e : Entry) (gs : List Global)
    → Settled es gs
    → (resolve_symbol e.0 e.1 gs).0 ≡ true
    → clash e.1.name (es ++ e ∷ []) ≡ true
stop-clash es e gs settled stops =
    let (held, calm) = settled e.1.name in
    let mine : applies e.1 && str_eq e.1.name e.1.name ≡ true =
      ground (arith, resolve_symbol_stop e.0 e.1 gs, str_eq_self e.1.name) in
    sym (effect-clash e.1.name es e.0 e.1 (entry gs e.1.name) held calm mine)
    ∙ sym (stop_mine e.0 e.1 gs e.1.name mine)
    ∙ stops

clash-append :
    (name : Name) (es fs : List Entry) → clash name es ≡ true → clash name (es ++ fs) ≡ true
clash-append name es [] h = rw (append-nil es) h
clash-append name es (e ∷ fs) h =
    rw (← append_assoc es (e ∷ []) fs)
      (clash-append name (es ++ e ∷ []) fs (ground (arith, clash_snoc name es e)))

walk-Settled :
    (es fs : List Entry) (gs : List Global)
    → Settled es gs
    → (walk fs gs).0 ≡ false
    → Settled (es ++ fs) (walk fs gs).1
unfolding walk
walk-Settled es [] gs settled going = rw (append-nil es) settled
walk-Settled es (e ∷ fs) gs settled going = elim (Bool-cases (resolve_symbol e.0 e.1 gs).0) [
  | inl stops ↦ cc (rw stops at going)
  | inr goes ↦
      rw (goes, ← append_assoc es (e ∷ []) fs)
        (walk-Settled (es ++ e ∷ []) fs (resolve_symbol e.0 e.1 gs).1
          (Settled-step es e gs settled goes) (rw goes at going))
]

walk-clash :
    (es fs : List Entry) (gs : List Global)
    → Settled es gs
    → (walk fs gs).0 ≡ true
    → (name : Name) × (clash name (es ++ fs) ≡ true)
unfolding walk
walk-clash es [] gs settled stops = cc
walk-clash es (e ∷ fs) gs settled stops = elim (Bool-cases (resolve_symbol e.0 e.1 gs).0) [
  | inl now ↦ (
    e.1.name,
    rw (← append_assoc es (e ∷ []) fs)
        (clash-append e.1.name (es ++ e ∷ []) fs (stop-clash es e gs settled now)),
  )
  | inr goes ↦ rw (← append_assoc es (e ∷ []) fs) (
      walk-clash (es ++ e ∷ []) fs (resolve_symbol e.0 e.1 gs).1 (Settled-step es e gs settled goes)
        (rw goes at stops))
]

Settled-start : Settled [] []
Settled-start name = (refl, refl)

-- If `ml_resolve_symbols` gets through the selected objects, each name is defined exactly when
-- some symbol defines it, and then by the first strong definition if there is one, else by the
-- first weak one.
pub resolve_objects-winner :
    (objs : List Object) (name : Name)
    → (resolve_objects 0 objs []).0 ≡ false
    → HeldBy (entry (resolve_objects 0 objs []).1 name) (winner name (entries 0 objs))
resolve_objects-winner objs name going =
    rw (resolve_objects-walk 0 objs [])
      (walk-Settled [] (entries 0 objs) [] Settled-start
        (rw (resolve_objects-walk 0 objs []) at going) name).0

-- `ml_resolve_symbols` reports a duplicate exactly when some name has a strong definition and,
-- anywhere after it, another definition: a weak one too.
pub resolve_objects-clash :
    (objs : List Object)
    → ((resolve_objects 0 objs []).0 ≡ true)
      ↔ ((name : Name) × (clash name (entries 0 objs) ≡ true))
resolve_objects-clash objs = rw (resolve_objects-walk 0 objs []) (
  walk-clash [] (entries 0 objs) [] Settled-start,
  λ (name, clashes). elim (Bool-cases (walk (entries 0 objs) []).0) [
    | inl stops ↦ stops
    | inr goes ↦ cc (clashes, (walk-Settled [] (entries 0 objs) [] Settled-start goes name).1)
  ],
)
