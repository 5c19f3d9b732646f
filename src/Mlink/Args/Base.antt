-- ===== src/Mlink/Args/Base.antt =====
-- tools/dev/mlink/cli.c: what an accepted command line leaves for the link.
use one_tool.Common.{
  ℕ, ◌%◌, ◌≡◌, ◌≢◌, refl, inl, inr, Bool, true, false, ◌||◌, List, [], ◌∷◌, ◌++◌, Option, none,
  some, ◌==◌, if◌then◌else◌, arith, drop, Option-cases, Bool-cases,
}
use one_tool.Common.Text.{codes, is_empty}
use one_tool.Mlink.Types.{Name, Context}
use one_tool.Mlink.Macros.Parse.{Number, parse_u64, span}
use one_tool.Mlink.Input.{starts_with}
use one_tool.Mlink.Args.{
  Options, init_options, ArgStep, stop, next, skip, only_inputs, add_input_path, add_lib_path,
  add_lib_name, find_lib, or_stop, with_value, set_entry_name, add_defsym, set_base, parse_flag,
  parse_output, parse_library, parse_arg, Parsed, exits, accepted, checked, add_inputs, parse_args,
}

-- The base is on a page, and no object and no error is there yet.
pub record IsStart (ctx : Context) : Type 0 where
  pub page : ctx.base_addr % 0x1000 ≡ 0
  pub empty : ctx.objects ≡ []
  pub clean : ctx.error_count ≡ 0

data Starts : ArgStep → Type 0 where
  stops : (code : ℕ) → Starts (stop code)
  nexts : {o : Options} → IsStart o.ctx → Starts (next o)
  skips : {o : Options} → IsStart o.ctx → Starts (skip o)
  ends : {o : Options} → IsStart o.ctx → Starts (only_inputs o)

data MayStart : Option ArgStep → Type 0 where
  unread : MayStart none
  read : {step : ArgStep} → Starts step → MayStart (some step)

abbrev MayHold : Option Options → Type 0
MayHold none = Unit {0}
MayHold (some o) = IsStart o.ctx

either {ℓ κ} :
    {A : Type ℓ} (P : A → Type κ) (b : Bool) (x y : A) → P x → P y → P (if b then x else y)
either P true x y p q = p
either P false x y p q = q

with_value-Starts :
    (value : Option Name) (f : Name → ArgStep)
    → ((v : Name) → Starts (f v))
    → Starts (with_value value f)
with_value-Starts none f h = stops 1
with_value-Starts (some v) f h = h v

or_stop-skip : (r : Option Options) → MayHold r → Starts (or_stop skip r)
or_stop-skip none h = stops 1
or_stop-skip (some o) h = skips h

or_stop-next : (r : Option Options) → MayHold r → Starts (or_stop next r)
or_stop-next none h = stops 1
or_stop-next (some o) h = nexts h

set_entry_name-IsStart :
    (name : Name) (o : Options) → IsStart o.ctx → IsStart (set_entry_name name o).ctx
unfolding set_entry_name
set_entry_name-IsStart name o h = record { page = h.page; empty = h.empty; clean = h.clean }

add_lib_name-MayHold :
    (readable : Name → Bool) (name : Name) (o : Options)
    → IsStart o.ctx
    → MayHold (add_lib_name readable name o)
unfolding add_lib_name add_input_path
add_lib_name-MayHold readable name o h =
    elim (find_lib readable o.lib_paths name)
      as (λ found.
        MayHold (elim found [ none ↦ none | some path ↦ some (add_input_path path o) ])) [
          | none ↦ tt
          | some path ↦ h
        ]

either_MayStart :
    (b : Bool) (x y : Option ArgStep) → MayStart x → MayStart y → MayStart (if b then x else y)
either_MayStart b x y p q = either MayStart b x y p q

dry_run-IsStart : (ctx : Context) → IsStart ctx → IsStart (record ctx { dry_run = true })
dry_run-IsStart ctx h = record { page = h.page; empty = h.empty; clean = h.clean }

no_gnu_stack-IsStart : (ctx : Context) → IsStart ctx → IsStart (record ctx { no_gnu_stack = true })
no_gnu_stack-IsStart ctx h = record { page = h.page; empty = h.empty; clean = h.clean }

module _ (strtoull : Name → Number) where
  add_defsym-MayHold :
      (spec : Name) (o : Options) → IsStart o.ctx → MayHold (add_defsym strtoull spec o)
  unfolding add_defsym
  add_defsym-MayHold spec o h =
      let sides = span (λ c. c == 61) spec in
      either MayHold (is_empty sides.1 || is_empty sides.0) none _ tt
        (elim (parse_u64 strtoull (drop 1 sides.1))
          as (λ n. MayHold (elim n [
            | none ↦ none
            | some v ↦ some (record o {
              ctx = record o.ctx {
                defsyms = o.ctx.defsyms ++ record { name = sides.0; value = v } ∷ [];
              };
            })
          ])) [ none ↦ tt | some v ↦ record { page = h.page; empty = h.empty; clean = h.clean } ])

  set_base-MayHold :
      (text : Name) (o : Options) → IsStart o.ctx → MayHold (set_base strtoull text o)
  unfolding set_base
  set_base-MayHold text o h = elim (Option-cases (parse_u64 strtoull text)) [
    | inl e ↦ rw (set_base, e) tt
    | inr (v, e) ↦ elim (Bool-cases (v % 0x1000 == 0)) [
      | inl f ↦ rw (set_base, e, f) record { page = ground arith; empty = h.empty; clean = h.clean }
      | inr f ↦ rw (set_base, e, f) tt
    ]
  ]

  parse_flag-MayStart :
      (arg : Name) (o : Options) → IsStart o.ctx → MayStart (parse_flag strtoull arg o)
  unfolding parse_flag
  parse_flag-MayStart arg o h =
      search
        (
          either_MayStart,
          read,
          unread,
          stops,
          nexts,
          ends,
          dry_run-IsStart o.ctx h,
          no_gnu_stack-IsStart o.ctx h,
        )
        depth 14

  parse_output-MayStart :
      (arg : Name) (value : Option Name) (o : Options)
      → IsStart o.ctx
      → MayStart (parse_output strtoull arg value o)
  unfolding parse_output
  parse_output-MayStart arg value o h =
      search
        (
          either_MayStart,
          read,
          unread,
          nexts,
          skips,
          with_value-Starts,
          or_stop-skip,
          or_stop-next,
          λ (name : Name). set_entry_name-IsStart name o h,
          λ (text : Name). set_base-MayHold text o h,
        )
        depth 14

  parse_library-MayStart :
      (readable : Name → Bool) (arg : Name) (value : Option Name) (o : Options)
      → IsStart o.ctx
      → MayStart (parse_library strtoull readable arg value o)
  unfolding parse_library add_lib_path
  parse_library-MayStart readable arg value o h =
      search
        (
          either_MayStart,
          read,
          unread,
          nexts,
          skips,
          with_value-Starts,
          or_stop-skip,
          or_stop-next,
          λ (name : Name). add_lib_name-MayHold readable name o h,
          λ (spec : Name). add_defsym-MayHold spec o h,
        )
        depth 14

  otherwise :
      (step : Option ArgStep) (rest : ArgStep)
      → MayStart step
      → Starts rest
      → Starts (elim step [ some s ↦ s | none ↦ rest ])
  otherwise none rest h r = r
  otherwise (some s) rest (read h) r = h

  parse_arg-Starts :
      (readable : Name → Bool) (arg : Name) (value : Option Name) (o : Options)
      → IsStart o.ctx
      → Starts (parse_arg strtoull readable arg value o)
  unfolding parse_arg add_input_path
  parse_arg-Starts readable arg value o h =
      otherwise (parse_flag strtoull arg o) _ (parse_flag-MayStart arg o h) (
        otherwise (parse_output strtoull arg value o) _ (parse_output-MayStart arg value o h) (
          otherwise (parse_library strtoull readable arg value o) _
            (parse_library-MayStart readable arg value o h)
            (either Starts (starts_with (codes "-") arg) (stop 1) (next (add_input_path arg o))
              (stops 1) (nexts h))))

-- What `parse_args` accepts.
pub record IsAccepted (o : Options) : Type 0 where
  pub start : IsStart o.ctx
  pub some_input : o.inputs ≢ []

accepted_same : (o o' : Options) → accepted o ≡ accepted o' → o ≡ o'
accepted_same o o' h = cc

exits-ne-accepted : (code : ℕ) (o : Options) → exits code ≡ accepted o → ⊥
exits-ne-accepted code o h = cc

checked-IsAccepted : (o o' : Options) → IsStart o.ctx → checked o ≡ accepted o' → IsAccepted o'
unfolding checked
checked-IsAccepted o o' h e =
    elim o.inputs
        as (λ is.
          o.inputs ≡ is
          → elim is [ [] ↦ exits 1 | i ∷ more ↦ accepted o ] ≡ accepted o'
          → IsAccepted o') [
            | [] ↦ λ same r. absurd (exits-ne-accepted 1 o' r)
            | i ∷ more ↦ λ same r.
                let whole : o ≡ o' = accepted_same o o' r in
                rw (← whole) record { start = h; some_input = λ none_left. cc (none_left, same) }
          ]
      refl e

add_inputs-IsStart :
    (paths : List Name) (o : Options) → IsStart o.ctx → IsStart (add_inputs paths o).ctx
unfolding add_inputs add_input_path
add_inputs-IsStart [] o h = h
add_inputs-IsStart (path ∷ paths) o h = add_inputs-IsStart paths (add_input_path path o) h

module _ (strtoull : Name → Number) (readable : Name → Bool) where
  Result : Options → Parsed → Type 0
  Result o' r = r ≡ accepted o' → IsAccepted o'

  last_step :
      (o' : Options) (step : ArgStep)
      → Starts step
      → Result o' (elim step [
        | stop code ↦ exits code
        | next o ↦ checked o
        | skip o ↦ checked o
        | only_inputs o ↦ checked o
      ])
  unfolding Result
  last_step o' (stop code) s e = absurd (exits-ne-accepted code o' e)
  last_step o' (next o) (nexts h) e = checked-IsAccepted o o' h e
  last_step o' (skip o) (skips h) e = checked-IsAccepted o o' h e
  last_step o' (only_inputs o) (ends h) e = checked-IsAccepted o o' h e

  one_step :
      (o' : Options) (args rest : List Name) (step : ArgStep)
      → Starts step
      → ((o : Options) → IsStart o.ctx → Result o' (parse_args strtoull readable args o))
      → ((o : Options) → IsStart o.ctx → Result o' (parse_args strtoull readable rest o))
      → Result o' (elim step [
        | stop code ↦ exits code
        | next o ↦ parse_args strtoull readable args o
        | skip o ↦ parse_args strtoull readable rest o
        | only_inputs o ↦ checked (add_inputs args o)
      ])
  unfolding Result
  one_step o' args rest (stop code) s f g e = absurd (exits-ne-accepted code o' e)
  one_step o' args rest (next o) (nexts h) f g e = f o h e
  one_step o' args rest (skip o) (skips h) f g e = g o h e
  one_step o' args rest (only_inputs o) (ends h) f g e =
      checked-IsAccepted (add_inputs args o) o' (add_inputs-IsStart args o h) e

  accepted_args :
      (args : List Name) (o o' : Options)
      → IsStart o.ctx
      → Result o' (parse_args strtoull readable args o)
  unfolding parse_args
  accepted_args [] o o' h = unfold Result in checked-IsAccepted o o' h
  accepted_args (arg ∷ []) o o' h =
      last_step o' (parse_arg strtoull readable arg none o)
        (parse_arg-Starts strtoull readable arg none o h)
  accepted_args (arg ∷ value ∷ args) o o' h =
      one_step o' (value ∷ args) args (parse_arg strtoull readable arg (some value) o)
        (parse_arg-Starts strtoull readable arg (some value) o h)
        (λ o1 h1. accepted_args (value ∷ args) o1 o' h1) (λ o1 h1. accepted_args args o1 o' h1)

  pub parse_args-IsAccepted :
      (args : List Name) (o : Options)
      → parse_args strtoull readable args init_options ≡ accepted o
      → IsAccepted o
  unfolding Result
  parse_args-IsAccepted args o e =
      accepted_args args init_options o record { page = refl; empty = refl; clean = refl } e
