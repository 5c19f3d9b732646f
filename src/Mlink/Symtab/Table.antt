-- ===== src/Mlink/Symtab/Table.antt =====
-- The table as a map from names to entries: what a write through `intern_global` does to it.
use one_tool.Common.{
  ℕ, ◌≡◌, ◌≢◌, refl, inl, inr, true, List, [], ◌∷◌, arith, if◌then◌else◌, Bool-cases, Option-cases,
  get_or, set, All,
}
use one_tool.Common.Text.{str_eq, str_eq_iff}
use one_tool.Mlink.Types.{Name, Symbol, Global, blank}
use one_tool.Mlink.Symtab.{
  find_global, intern_global, update_global, merge_symbol, define_global, refer, record_undefined,
  symbol_has_name, is_global_symbol,
}

-- The entry that a name stands for, blank where the table has none.
abbrev pub entry : List Global → Name → Global
entry [] name = blank name
entry (g ∷ gs) name = if str_eq g.name name then g else entry gs name

-- The write, by recursion on the table.
abbrev pub write : List Global → Name → (Global → Global) → List Global
write [] name f = f (blank name) ∷ []
write (g ∷ gs) name f = if str_eq g.name name then f g ∷ gs else g ∷ write gs name f

abbrev pub KeepsName : (Global → Global) → Type 0
KeepsName f = (g : Global) → (f g).name ≡ g.name

pub update_global-write :
    (gs : List Global) (name : Name) (f : Global → Global)
    → update_global gs name f ≡ write gs name f
unfolding update_global intern_global find_global
update_global-write [] name f = refl
update_global-write (g ∷ gs) name f = elim (Bool-cases (str_eq g.name name)) [
  | inl same ↦ ground arith
  | inr other ↦ elim (Option-cases (find_global gs name)) [
    | inl missing ↦ ground (arith, update_global-write gs name f)
    | inr (i, found) ↦ ground (arith, update_global-write gs name f)
  ]
]

pub entry-write :
    (gs : List Global) (name other : Name) (f : Global → Global)
    → KeepsName f
    → entry (write gs name f) other
      ≡ (if str_eq name other then f (entry gs name) else entry gs other)
entry-write [] name other f keeps = ground (arith, keeps (blank name))
entry-write (g ∷ gs) name other f keeps = ground (
  arith,
  keeps g,
  str_eq_iff g.name name,
  str_eq_iff g.name other,
  str_eq_iff name other,
  entry-write gs name other f keeps,
)

-- The entry that `intern_global` points at.
pub intern_global-entry :
    (gs : List Global) (name : Name)
    → get_or (intern_global gs name).1 (intern_global gs name).0 (blank name) ≡ entry gs name
unfolding intern_global find_global
intern_global-entry [] name = refl
intern_global-entry (g ∷ gs) name = elim (Bool-cases (str_eq g.name name)) [
  | inl same ↦ ground arith
  | inr other ↦ elim (Option-cases (find_global gs name)) [
    | inl missing ↦ ground (arith, intern_global-entry gs name)
    | inr (i, found) ↦ ground (arith, intern_global-entry gs name)
  ]
]

-- No two entries have one name.
abbrev pub Unique : List Global → Type 0
Unique [] = Unit
Unique (g ∷ gs) = All (λ h. g.name ≢ h.name) gs × Unique gs

All-write :
    (gs : List Global) (name avoid : Name) (f : Global → Global)
    → KeepsName f
    → avoid ≢ name
    → All (λ h. avoid ≢ h.name) gs
    → All (λ h. avoid ≢ h.name) (write gs name f)
All-write [] name avoid f keeps ne h = (rw (keeps (blank name)) ne, tt)
All-write (g ∷ gs) name avoid f keeps ne h = elim (Bool-cases (str_eq g.name name)) [
  | inl same ↦ rw same (rw (keeps g) h.0, h.1)
  | inr other ↦ rw other (h.0, All-write gs name avoid f keeps ne h.1)
]

pub write-Unique :
    (gs : List Global) (name : Name) (f : Global → Global)
    → KeepsName f
    → Unique gs
    → Unique (write gs name f)
write-Unique [] name f keeps u = (tt, tt)
write-Unique (g ∷ gs) name f keeps u = elim (Bool-cases (str_eq g.name name)) [
  | inl same ↦ rw same (rw (keeps g) u.0, u.1)
  | inr other ↦ rw other (
    All-write gs name g.name f keeps (λ e. cc (other, (str_eq_iff g.name name).1 e)) u.0,
    write-Unique gs name f keeps u.1,
  )
]

-- A write through the index that `intern_global` gives.
pub intern_global-set :
    (gs : List Global) (name : Name) (f : Global → Global)
    → set
        (intern_global gs name).1
        (intern_global gs name).0
        (f (get_or (intern_global gs name).1 (intern_global gs name).0 (blank name)))
      ≡ write gs name f
unfolding update_global
intern_global-set gs name f = update_global-write gs name f

-- The operations of the file as writes.
pub merge-KeepsName : (obj : ℕ) (sym : Symbol) → KeepsName (λ g. (merge_symbol obj sym g).1)
unfolding merge_symbol
merge-KeepsName obj sym g = ground arith

pub refer-KeepsName : (sym : Symbol) → KeepsName (refer sym)
unfolding refer
refer-KeepsName sym g = refl

pub define_global-write :
    (obj : ℕ) (sym : Symbol) (gs : List Global)
    → define_global obj sym gs ≡ (
      (merge_symbol obj sym (entry gs sym.name)).0,
      write gs sym.name (λ g. (merge_symbol obj sym g).1),
    )
unfolding define_global
define_global-write obj sym gs = ground (
  arith,
  intern_global-entry gs sym.name,
  intern_global-set gs sym.name (λ g. (merge_symbol obj sym g).1),
)

pub record_undefined-write :
    (sym : Symbol) (gs : List Global)
    → symbol_has_name sym ≡ true
    → is_global_symbol sym ≡ true
    → record_undefined sym gs ≡ write gs sym.name (refer sym)
unfolding record_undefined
record_undefined-write sym gs named global =
    ground (arith, update_global-write gs sym.name (refer sym))
