-- ===== src/Srapi/Exec/Lane/Agree.antt =====
-- libs/srapi/src/vm: where exec.c and exec_simd.c do the same.
use one_tool.Common.{
  ℕ, Bool, true, false, List, [], ◌∷◌, Option, ltb, if◌then◌else◌, length, All, ◌≡◌, refl, arith,
  replicate,
}
use one_tool.Srapi.Types.{ok, srapi_rgba}
use one_tool.Srapi.Vm.{
  VmOp, Inst, div, min, max, load_input, load_uniform, fract, clamp01, mix, out_position, sqrt,
}
use one_tool.Srapi.Exec.{
  FloatOps, Shader, vm_get_reg, alu_value, assign, clamp_byte, color_of, fragment_loop,
  srapi_vm_run_fragment, op_effect, ends, paints, places, assigns,
}
use one_tool.Srapi.Exec.Lane.{
  LaneOps, Channels, load_reg, lane_value, lane_write, lane_loop, run_chunk,
}

-- Instructions whose scalar and vector code agree at every float: no FRACT, CLAMP01, MIX, SQRT,
-- DIV or OUT_POSITION, and inputs and uniforms that exist.
abbrev pub plain : ℕ → VmOp → Inst → Bool
plain uniform_count fract i = false
plain uniform_count clamp01 i = false
plain uniform_count mix i = false
plain uniform_count sqrt i = false
plain uniform_count div i = false
plain uniform_count out_position i = false
plain uniform_count load_input i = ltb i.a 6
plain uniform_count load_uniform i = ltb i.a uniform_count
plain uniform_count _ i = true

plain-places : (n : ℕ) (o : VmOp) (i : Inst) → op_effect o ≡ places → plain n o i ≡ true → ⊥
unfolding op_effect
plain-places n out_position i e h = cc
plain-places n _ i e h = cc

module _ {F : Type 0} (f : FloatOps F) where
  -- The pixel of the scalar code for final channels.
  abbrev pub packed : Channels F → ℕ
  unfolding srapi_rgba clamp_byte
  packed c =
      srapi_rgba (clamp_byte f c.final_r) (clamp_byte f c.final_g) (clamp_byte f c.final_b)
        (clamp_byte f c.final_a)

module _ {F : Type 0} (f : FloatOps F) (l : LaneOps F)
    (minps_lem : (a b : F) → l.minps a b ≡ (if f.flt a b then a else b))
    (maxps_lem : (a b : F) → l.maxps a b ≡ (if f.flt b a then a else b)) where
  same_value :
      (inputs uniforms regs : List F) (o : VmOp) (i : Inst)
      → plain (length uniforms) o i ≡ true
      → alu_value f 6 inputs uniforms regs o i ≡ lane_value f l inputs uniforms regs o i
  unfolding alu_value lane_value load_reg vm_get_reg
  same_value inputs uniforms regs min i h = rw minps_lem
  same_value inputs uniforms regs max i h = rw maxps_lem
  same_value inputs uniforms regs load_input i h = rw h
  same_value inputs uniforms regs load_uniform i h = rw h
  same_value inputs uniforms regs _ i h = ground arith

  same_write :
      (regs : List F) (dst : ℕ) (v : Option F) → assign f regs dst v ≡ lane_write f l regs dst v
  unfolding assign lane_write
  same_write regs dst v = ground arith

  same_color :
      (regs : List F) (i : Inst)
      → color_of f regs i
        ≡ packed f (record {
          final_r = load_reg f l regs i.a;
          final_g = load_reg f l regs i.b;
          final_b = load_reg f l regs i.c;
          final_a = load_reg f l regs i.d;
        })
  unfolding color_of load_reg vm_get_reg packed
  same_color regs i = refl

  magenta :
      f.fle f.zero f.zero ≡ true
      → f.fle f.one f.one ≡ true
      → f.fle f.one f.zero ≡ false
      → srapi_rgba 255 0 255 255
        ≡ packed f (record { final_r = f.one; final_g = f.zero; final_b = f.one; final_a = f.one })
  unfolding packed srapi_rgba clamp_byte
  magenta zero_le one_le above = rw (above, one_le, zero_le)

  same_loop :
      (inputs uniforms : List F) (is : List Inst) (regs : List F) (c : Channels F)
      → All (λ i. plain (length uniforms) i.op i ≡ true) is
      → fragment_loop f inputs uniforms is regs (packed f c)
        ≡ (ok, packed f (lane_loop f l inputs uniforms is regs c))
  unfolding fragment_loop lane_loop
  same_loop inputs uniforms [] regs c h = refl
  same_loop inputs uniforms (i ∷ is) regs c h =
      let w : assign f regs i.dst (alu_value f 6 inputs uniforms regs i.op i)
          ≡ lane_write f l regs i.dst (lane_value f l inputs uniforms regs i.op i) =
        rw (same_value inputs uniforms regs i.op i h.0) (same_write regs i.dst _) in
      let painted : Channels F = record {
        final_r = load_reg f l regs i.a;
        final_g = load_reg f l regs i.b;
        final_b = load_reg f l regs i.c;
        final_a = load_reg f l regs i.d;
      } in
      let color : color_of f regs i ≡ packed f painted = same_color regs i in
      let out = same_loop inputs uniforms is regs painted h.1 in
      let on =
        same_loop inputs uniforms is
          (lane_write f l regs i.dst (lane_value f l inputs uniforms regs i.op i)) c h.1 in
      elim (op_effect i.op)
          as (λ e.
            op_effect i.op ≡ e
            → fragment_loop f inputs uniforms (i ∷ is) regs (packed f c)
              ≡ (ok, packed f (lane_loop f l inputs uniforms (i ∷ is) regs c))) [
                | ends ↦ λ e. rw (fragment_loop, lane_loop, e)
                | paints ↦ λ e. rw (fragment_loop, lane_loop, e, color, out)
                | places ↦ λ e. absurd (plain-places _ i.op i e h.0)
                | assigns ↦ λ e. rw (fragment_loop, lane_loop, e, w, on)
              ]
        refl

  -- For a program of plain instructions over existing inputs and uniforms, if the vector minimum
  -- and maximum choose as `<` does and 0 <= 0, 1 <= 1 and not 1 <= 0, the scalar code succeeds and
  -- its colour is that of the vector code's final channels, each clamped to a byte.
  pub srapi_vm_run_fragment-run_chunk :
      f.fle f.zero f.zero ≡ true
      → f.fle f.one f.one ≡ true
      → f.fle f.one f.zero ≡ false
      → (sh : Shader F) (inputs : List F)
      → All (λ i. plain (length sh.uniforms) i.op i ≡ true) sh.program
      → (srapi_vm_run_fragment f sh inputs).0 ≡ (ok, packed f (run_chunk f l sh inputs))
  unfolding srapi_vm_run_fragment run_chunk
  srapi_vm_run_fragment-run_chunk zero_le one_le above sh inputs h =
      let start : Channels F = record {
        final_r = f.one;
        final_g = f.zero;
        final_b = f.one;
        final_a = f.one;
      } in
      let color : srapi_rgba 255 0 255 255 ≡ packed f start = magenta zero_le one_le above in
      rw color (same_loop inputs sh.uniforms sh.program (replicate 16 f.zero) start h)
