-- ===== src/Mlink/Resolve/Names.antt =====
-- tools/dev/mlink/symtab.c: the table of globals has one entry for a name.
use one_tool.Common.{
  ℕ, ◌+◌, true, false, not, ◌||◌, List, [], ◌∷◌, inl, inr, if◌then◌else◌, Bool-cases,
}
use one_tool.Mlink.Types.{Symbol, Object, Global}
use one_tool.Mlink.Symtab.{
  symbol_has_name, is_global_symbol, merge_symbol, define_global, record_undefined, refer,
}
use one_tool.Mlink.Symtab.Table.{
  Unique, write-Unique, define_global-write, record_undefined-write, merge-KeepsName,
  refer-KeepsName,
}
use one_tool.Mlink.Resolve.{resolve_symbol, resolve_object, resolve_objects}

define_global-Unique :
    (obj : ℕ) (sym : Symbol) (gs : List Global) → Unique gs → Unique (define_global obj sym gs).1
define_global-Unique obj sym gs u =
    rw (define_global-write obj sym gs)
      (write-Unique gs sym.name (λ g. (merge_symbol obj sym g).1) (merge-KeepsName obj sym) u)

record_undefined-Unique :
    (sym : Symbol) (gs : List Global) → Unique gs → Unique (record_undefined sym gs)
unfolding record_undefined
record_undefined-Unique sym gs u = elim (Bool-cases (symbol_has_name sym)) [
  | inl named ↦ elim (Bool-cases (is_global_symbol sym)) [
    | inl global ↦
        rw (record_undefined-write sym gs named global)
          (write-Unique gs sym.name (refer sym) (refer-KeepsName sym) u)
    | inr local ↦ rw (record_undefined, named, local) u
  ]
  | inr nameless ↦ rw (record_undefined, nameless) u
]

resolve_symbol-Unique :
    (obj : ℕ) (sym : Symbol) (gs : List Global) → Unique gs → Unique (resolve_symbol obj sym gs).1
unfolding resolve_symbol
resolve_symbol-Unique obj sym gs u =
    elim (Bool-cases (not (symbol_has_name sym) || not (is_global_symbol sym))) [
      | inl skip ↦ rw (resolve_symbol, skip) u
      | inr taken ↦
          rw (resolve_symbol, taken)
            (elim sym.undefined
              as (λ b.
                Unique
                  (if b then (false, record_undefined sym gs) else define_global obj sym gs).1) [
                    | true ↦ record_undefined-Unique sym gs u
                    | false ↦ define_global-Unique obj sym gs u
                  ])
    ]

resolve_object-Unique :
    (syms : List Symbol) (obj : ℕ) (gs : List Global)
    → Unique gs
    → Unique (resolve_object obj syms gs).1
unfolding resolve_object
resolve_object-Unique [] obj gs u = u
resolve_object-Unique (sym ∷ syms) obj gs u =
    let step = resolve_symbol-Unique obj sym gs u in
    elim (Bool-cases (resolve_symbol obj sym gs).0) [
      | inl e ↦ rw e step
      | inr e ↦ rw e (resolve_object-Unique syms obj (resolve_symbol obj sym gs).1 step)
    ]

-- Resolution keeps the table free of two entries for one name, also where it ends with a duplicate
-- definition.
pub resolve_objects-Unique :
    (objs : List Object) (i : ℕ) (gs : List Global)
    → Unique gs
    → Unique (resolve_objects i objs gs).1
unfolding resolve_objects
resolve_objects-Unique [] i gs u = u
resolve_objects-Unique (obj ∷ objs) i gs u = elim (Bool-cases obj.selected) [
  | inl on ↦
      let step = resolve_object-Unique obj.symbols i gs u in
      elim (Bool-cases (resolve_object i obj.symbols gs).0) [
        | inl e ↦ rw (on, e) step
        | inr e ↦
            rw (on, e)
              (resolve_objects-Unique objs (i + 1) (resolve_object i obj.symbols gs).1 step)
      ]
  | inr off ↦ rw off (resolve_objects-Unique objs (i + 1) gs u)
]
