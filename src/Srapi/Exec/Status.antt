-- ===== src/Srapi/Exec/Status.antt =====
-- libs/srapi/src/vm: which runs succeed, and the uniforms of a shader.
use one_tool.Common.{
  ℕ, zero, suc, leb, ◌+◌, ◌-◌, ◌≤◌, Bool, true, false, List, [], ◌∷◌, ◌++◌, ltb, ◌||◌,
  if◌then◌else◌, length, get_or, take, drop, ◌≡◌, ◌↔◌, refl, arith, length-append, length-take,
  length-drop, Bool-cases, inl, inr, ltb→lt,
}
use one_tool.Srapi.Types.{ok, bad_arg}
use one_tool.Srapi.Vm.{Inst}
use one_tool.Srapi.Exec.{
  FloatOps, Shader, fragment_loop, vertex_loop, srapi_vm_run_fragment, srapi_vm_run_vertex,
  op_effect, ends, paints, places, assigns, srapi_shader_set_uniforms,
}

-- Whether an OUT_POSITION stands before the first END.
unfoldable pub places_vertex : List Inst → Bool
unfolding op_effect
places_vertex [] = false
places_vertex (i ∷ is) = elim (op_effect i.op) [
  | ends ↦ false
  | places ↦ true
  | _ ↦ places_vertex is
]

module _ {F : Type 0} (f : FloatOps F) where
  fragment_loop-places :
      (inputs uniforms : List F) (is : List Inst) (regs : List F) (color : ℕ)
      → (fragment_loop f inputs uniforms is regs color).0
        ≡ (if places_vertex is then bad_arg else ok)
  unfolding fragment_loop places_vertex
  fragment_loop-places inputs uniforms [] regs color = refl
  fragment_loop-places inputs uniforms (i ∷ is) regs color =
      elim (op_effect i.op)
          as (λ e.
            op_effect i.op ≡ e
            → (fragment_loop f inputs uniforms (i ∷ is) regs color).0
              ≡ (if places_vertex (i ∷ is) then bad_arg else ok)) [
                | ends ↦ λ e. rw (fragment_loop, places_vertex, e)
                | paints ↦ λ e.
                    rw (fragment_loop, places_vertex, e)
                      (fragment_loop-places inputs uniforms is regs _)
                | places ↦ λ e. rw (fragment_loop, places_vertex, e)
                | assigns ↦ λ e.
                    rw (fragment_loop, places_vertex, e)
                      (fragment_loop-places inputs uniforms is _ color)
              ]
        refl

  vertex_loop-ok :
      (inputs uniforms : List F) (is : List Inst) (regs : List F) (place : F × F) (color : ℕ)
      → (vertex_loop f inputs uniforms is regs place color).0 ≡ ok
  unfolding vertex_loop
  vertex_loop-ok inputs uniforms [] regs place color = refl
  vertex_loop-ok inputs uniforms (i ∷ is) regs place color =
      elim (op_effect i.op)
          as (λ e.
            op_effect i.op ≡ e → (vertex_loop f inputs uniforms (i ∷ is) regs place color).0 ≡ ok) [
              | ends ↦ λ e. rw (vertex_loop, e)
              | paints ↦ λ e. rw (vertex_loop, e) (vertex_loop-ok inputs uniforms is regs place _)
              | places ↦ λ e. rw (vertex_loop, e) (vertex_loop-ok inputs uniforms is regs _ color)
              | assigns ↦ λ e. rw (vertex_loop, e) (vertex_loop-ok inputs uniforms is _ place color)
            ]
        refl

  -- A run of a vertex always succeeds, and a run of a fragment fails, with BAD_ARG, exactly when
  -- the program has an OUT_POSITION before its first END.
  pub run-status :
      (sh : Shader F) (vertex fragment : List F)
      → ((srapi_vm_run_vertex f sh vertex).0.0 ≡ ok)
        × ((srapi_vm_run_fragment f sh fragment).0.0
            ≡ (if places_vertex sh.program then bad_arg else ok))
  unfolding srapi_vm_run_vertex srapi_vm_run_fragment
  run-status sh vertex fragment = (
    vertex_loop-ok vertex sh.uniforms sh.program _ _ _,
    fragment_loop-places fragment sh.uniforms sh.program _ _,
  )

  prefix_lem :
      (vs xs : List F) (k : ℕ) (z : F)
      → length vs ≤ length xs
      → get_or (vs ++ drop (length vs) xs) k z
        ≡ (if ltb k (length vs) then get_or vs k z else get_or xs k z)
  prefix_lem [] xs k z h = ground arith
  prefix_lem (v ∷ vs) [] k z h = absurd (omega arith)
  prefix_lem (v ∷ vs) (x ∷ xs) zero z h = ground arith
  prefix_lem (v ∷ vs) (x ∷ xs) (suc k) z h = ground (arith, prefix_lem vs xs k z)

  splice_lem :
      (n : ℕ) (vs xs : List F) (k : ℕ) (z : F)
      → n + length vs ≤ length xs
      → get_or (take n xs ++ (vs ++ drop (n + length vs) xs)) k z
        ≡ (if ltb k n || leb (n + length vs) k then get_or xs k z else get_or vs (k - n) z)
  splice_lem zero vs xs k z h = ground (arith, prefix_lem vs xs k z)
  splice_lem (suc n) vs [] k z h = absurd (omega arith)
  splice_lem (suc n) vs (x ∷ xs) zero z h = ground arith
  splice_lem (suc n) vs (x ∷ xs) (suc k) z h =
      let shift : suc n + length vs ≡ suc (n + length vs) = omega arith in
      let back : suc k - suc n ≡ k - n = omega arith in
      rw (shift, back) (ground (arith, splice_lem n vs xs k z))

  splice-length :
      (n : ℕ) (vs xs : List F)
      → n + length vs ≤ length xs
      → length (take n xs ++ (vs ++ drop (n + length vs) xs)) ≡ length xs
  splice-length n vs xs h = omega (
    arith,
    length-append (take n xs) (vs ++ drop (n + length vs) xs),
    length-append vs (drop (n + length vs) xs),
    length-take n xs (omega arith),
    length-drop (n + length vs) xs,
  )

  -- `srapi_shader_set_uniforms` succeeds exactly when the values fit behind `first`. Then those
  -- places hold the values and every other uniform is as it was; else nothing changes. The number
  -- of uniforms stays the same.
  pub srapi_shader_set_uniforms_lem :
      (sh : Shader F) (first : ℕ) (values : List F)
      → let r = srapi_shader_set_uniforms f sh first values in
        ((r.0 ≡ ok) ↔ (first + length values ≤ length sh.uniforms))
        × (length r.1.uniforms ≡ length sh.uniforms)
        × ((k : ℕ)
            → get_or r.1.uniforms k f.zero ≡ (
                if ltb (length sh.uniforms) (first + length values)
                then get_or sh.uniforms k f.zero
                else if ltb k first || leb (first + length values) k
                then get_or sh.uniforms k f.zero
                else get_or values (k - first) f.zero))
  unfolding srapi_shader_set_uniforms
  srapi_shader_set_uniforms_lem sh first values =
      elim (Bool-cases (ltb (length sh.uniforms) (first + length values))) [
        | inl e ↦
            let bad : (ltb (length sh.uniforms) first
                  || ltb (length sh.uniforms - first) (length values))
                ≡ true =
              ground arith in
            rw (bad, e) ((λ q. cc, λ q. absurd (omega (arith, ltb→lt _ _ e))), refl, λ k. refl)
        | inr e ↦
            let good : (ltb (length sh.uniforms) first
                  || ltb (length sh.uniforms - first) (length values))
                ≡ false =
              ground arith in
            rw (good, e)
              (
                (λ q. ground arith, λ q. refl),
                splice-length first values sh.uniforms (ground arith),
                λ k. splice_lem first values sh.uniforms k f.zero (ground arith),
              )
      ]
