-- ===== src/Mlink/Link/Keeps.antt =====
-- tools/dev/mlink/cli.c: what the steps of `main` before relocation leave of the objects and of the
-- base address.
use mathlib.Core.Path.{subst}
use one_tool.Common.{
  ℕ, zero, suc, ◌≡◌, refl, ◌∙◌, inl, inr, true, false, List, [], ◌∷◌, some, arith, All, set,
  get_elem?, Bool-cases, ◌==◌,
}
use one_tool.Mlink.Types.{Object, Context, Macro}
use one_tool.Mlink.Symtab.{inject_defsyms, inject_linker_symbols, report_undefined}
use one_tool.Mlink.Select.Steps.{Pull, pull, Pulls, here, next}
use one_tool.Mlink.Select.Loop.{select_archive_members-closes}
use one_tool.Mlink.Resolve.{resolve_symbols}
use one_tool.Mlink.Macros.{
  PreLayout, apply_entry, apply_base, apply_macro, apply_macros, apply_pre_layout, inject_symbols,
  apply_post_layout,
}
use one_tool.Mlink.Layout.{layout, layout_sections, compute_global_values, set_entry}
use one_tool.Mlink.Layout.Segments.{HasRoom}
use one_tool.Mlink.Emit.Filed.{IsRead, AreRead}
use one_tool.Mlink.Link.{gate, gate_option}

-- The objects and the base address are the same.
unfoldable pub SameInput : Context → Context → Type 0
SameInput a b = (a.objects ≡ b.objects) × (a.base_addr ≡ b.base_addr)

pub SameInput-refl : (a : Context) → SameInput a a
unfolding SameInput
SameInput-refl a = (refl, refl)

pub SameInput-trans : (a b c : Context) → SameInput a b → SameInput b c → SameInput a c
unfolding SameInput
SameInput-trans a b c (p, q) (p', q') = (p ∙ p', q ∙ q')

pub SameInput-HasRoom : (a b : Context) → SameInput a b → HasRoom a → HasRoom b
unfolding SameInput
SameInput-HasRoom a b (objs, at) h = record {
  aligned = rw (← objs) h.aligned;
  room = rw (← objs, ← at) h.room;
}

pub gate-SameInput :
    (step : Context → Context)
    → ((ctx : Context) → SameInput ctx (step ctx))
    → (ctx : Context) → SameInput ctx (gate step ctx)
unfolding gate
gate-SameInput step keeps ctx = elim (Bool-cases (ctx.error_count == 0)) [
  | inl e ↦ rw e (keeps ctx)
  | inr e ↦ rw e (SameInput-refl ctx)
]

pub inject_defsyms-SameInput : (ctx : Context) → SameInput ctx (inject_defsyms ctx)
unfolding SameInput inject_defsyms
inject_defsyms-SameInput ctx = (ground arith, ground arith)

pub inject_symbols-SameInput : (ctx : Context) → SameInput ctx (inject_symbols ctx)
unfolding SameInput inject_symbols
inject_symbols-SameInput ctx = (refl, refl)

pub report_undefined-SameInput : (ctx : Context) → SameInput ctx (report_undefined ctx)
unfolding SameInput report_undefined
report_undefined-SameInput ctx = (refl, refl)

pub apply_post_layout-SameInput : (ctx : Context) → SameInput ctx (apply_post_layout ctx)
unfolding SameInput apply_post_layout
apply_post_layout-SameInput ctx = (refl, refl)

compute_global_values-SameInput : (ctx : Context) → SameInput ctx (compute_global_values ctx)
unfolding SameInput compute_global_values
compute_global_values-SameInput ctx = (ground arith, ground arith)

set_entry-SameInput : (ctx : Context) → SameInput ctx (set_entry ctx)
unfolding SameInput set_entry
set_entry-SameInput ctx = (ground arith, ground arith)

sized-SameInput :
    (ctx : Context) (size : ℕ)
    → SameInput ctx (inject_linker_symbols (record ctx { final_file_size = size }))
unfolding SameInput inject_linker_symbols
sized-SameInput ctx size = (refl, refl)

-- `ml_layout` after its passes over the sections.
pub layout-SameInput : (ctx : Context) → SameInput (layout_sections ctx) (layout ctx)
unfolding layout
layout-SameInput ctx =
    let valued = compute_global_values (layout_sections ctx) in
    let first = compute_global_values-SameInput (layout_sections ctx) in
    elim (Bool-cases (valued.error_count == 0)) [
      | inl e ↦ rw e (
          SameInput-trans (layout_sections ctx) valued _ first
            (SameInput-trans valued _ _ (sized-SameInput valued _) (set_entry-SameInput _)))
      | inr e ↦ rw e first
    ]

set-AreRead :
    (objs : List Object) (i : ℕ) (obj : Object)
    → AreRead objs
    → All IsRead obj.sections
    → AreRead (set objs i obj)
set-AreRead [] i obj h new = tt
set-AreRead (x ∷ objs) zero obj h new = (new, h.1)
set-AreRead (x ∷ objs) (suc i) obj h new = (h.0, set-AreRead objs i obj h.1 new)

get_elem?-AreRead :
    (objs : List Object) (i : ℕ) (obj : Object)
    → AreRead objs
    → get_elem? objs i ≡ some obj
    → All IsRead obj.sections
get_elem?-AreRead [] i obj h e = cc
get_elem?-AreRead (x ∷ objs) zero obj h e =
    let same : x ≡ obj = ground arith in subst (λ (o : Object). All IsRead o.sections) same h.0
get_elem?-AreRead (x ∷ objs) (suc i) obj h e = get_elem?-AreRead objs i obj h.1 e

Pull-AreRead : {t u : List Object} → AreRead t → Pull t u → AreRead u
Pull-AreRead {t} {u} h (pull i obj e off arch needed same) =
    rw same (set-AreRead t i (record obj { selected = true }) h (get_elem?-AreRead t i obj h e))

Pulls-AreRead : {t u : List Object} → AreRead t → Pulls t u → AreRead u
Pulls-AreRead h here = h
Pulls-AreRead h (next p step) = Pull-AreRead (Pulls-AreRead h p) step

resolve_symbols-AreRead :
    (ctx resolved : Context)
    → resolve_symbols ctx ≡ some resolved
    → AreRead ctx.objects
    → AreRead resolved.objects
unfolding resolve_symbols
resolve_symbols-AreRead ctx resolved h read =
    let (chosen, e, pulls, _) = select_archive_members-closes ctx.objects in
    let same : chosen ≡ resolved.objects = ground (arith, e) in
    rw (← same) (Pulls-AreRead read pulls)

apply_macro-objects : (s : PreLayout) (m : Macro) → (apply_macro s m).ctx.objects ≡ s.ctx.objects
unfolding apply_macro apply_entry apply_base
apply_macro-objects s m = ground arith

apply_macros-objects :
    (ms : List Macro) (s : PreLayout) → (apply_macros ms s).ctx.objects ≡ s.ctx.objects
unfolding apply_macros
apply_macros-objects [] s = refl
apply_macros-objects (m ∷ ms) s =
    apply_macros-objects ms (apply_macro s m) ∙ apply_macro-objects s m

gate-pre_layout-objects : (ctx : Context) → (gate apply_pre_layout ctx).objects ≡ ctx.objects
unfolding gate apply_pre_layout
gate-pre_layout-objects ctx =
    let start : PreLayout = record { ctx = ctx; entry_seen = false; base_seen = false } in
    elim (Bool-cases (ctx.error_count == 0)) [
      | inl e ↦ rw e (apply_macros-objects ctx.macros start)
      | inr e ↦ rw e refl
    ]

gate_option-AreRead :
    (ctx resolved : Context)
    → gate_option resolve_symbols ctx ≡ some resolved
    → AreRead ctx.objects
    → AreRead resolved.objects
unfolding gate_option
gate_option-AreRead ctx resolved h read = elim (Bool-cases (ctx.error_count == 0)) [
  | inl e ↦ resolve_symbols-AreRead ctx resolved (rw e at h) read
  | inr e ↦ let same : ctx ≡ resolved = ground (arith, e) in rw (← same) read
]

-- The steps up to the resolution keep what the reader guarantees.
pub resolved-AreRead :
    (ctx resolved : Context)
    → gate_option resolve_symbols (gate apply_pre_layout ctx) ≡ some resolved
    → AreRead ctx.objects
    → AreRead resolved.objects
resolved-AreRead ctx resolved h read =
    gate_option-AreRead (gate apply_pre_layout ctx) resolved h
      (rw (gate-pre_layout-objects ctx) read)
