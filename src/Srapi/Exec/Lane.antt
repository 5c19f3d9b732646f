-- ===== src/Srapi/Exec/Lane.antt =====
-- libs/srapi/src/vm/exec_simd.c: the eight-lane machine, one lane of it. Every operation of
-- `run_chunk` works lane by lane, so a lane's registers are one float each; the arithmetic of a
-- lane is that of `FloatOps`, and what only vectors have is `LaneOps`.
pub mod Agree
use one_tool.Common.{
  ℕ, ◌+◌, ◌*◌, Bool, List, [], ◌∷◌, Option, none, some, ltb, if◌then◌else◌, length, get_or, set,
  replicate,
}
use one_tool.Common.Bits.{◌<<<◌}
use one_tool.Srapi.Vm.{
  VmOp, Inst, end, mov, add, sub, mul, div, min, max, load_input, load_uniform, out_color,
  load_const, fract, clamp01, mix, out_position, sin, cos, abs, sqrt, pow,
}
use one_tool.Srapi.Exec.{FloatOps, Shader, op_effect, ends, paints, places, assigns}

-- `_mm256_min_ps`, `_mm256_max_ps`, `_mm256_floor_ps`, `_mm256_sqrt_ps`, `_CMP_NEQ_OQ` and
-- `_mm256_cvttps_epi32`.
pub record LaneOps (F : Type 0) : Type 0 where
  pub minps : F → F → F
  pub maxps : F → F → F
  pub floorps : F → F
  pub sqrtps : F → F
  pub ne_ordered : F → F → Bool
  pub cvttps : F → ℕ

-- `final_r`, `final_g`, `final_b` and `final_a`.
pub record Channels (F : Type 0) : Type 0 where
  pub final_r : F
  pub final_g : F
  pub final_b : F
  pub final_a : F

module _ {F : Type 0} (f : FloatOps F) (l : LaneOps F) where
  unfoldable pub load_reg : List F → ℕ → F
  load_reg regs idx = if ltb idx 16 then get_or regs idx f.zero else f.zero

  unfoldable pub fract8 : F → F
  fract8 v = f.fsub v (l.floorps v)

  unfoldable pub clamp01_8 : F → F
  clamp01_8 v = l.maxps f.zero (l.minps f.one v)

  -- The switch of `run_chunk`: what is written to `regs[dst_idx]`, if anything.
  unfoldable pub lane_value : List F → List F → List F → VmOp → Inst → Option F
  unfolding load_reg fract8 clamp01_8
  lane_value inputs uniforms regs end i = none
  lane_value inputs uniforms regs mov i = some (load_reg regs i.a)
  lane_value inputs uniforms regs add i = some (f.fadd (load_reg regs i.a) (load_reg regs i.b))
  lane_value inputs uniforms regs sub i = some (f.fsub (load_reg regs i.a) (load_reg regs i.b))
  lane_value inputs uniforms regs mul i = some (f.fmul (load_reg regs i.a) (load_reg regs i.b))
  lane_value inputs uniforms regs div i =
      let b = load_reg regs i.b in
      let safe = if l.ne_ordered b f.zero then b else f.one in
      let quotient = f.fdiv (load_reg regs i.a) safe in
      some (if l.ne_ordered b f.zero then quotient else f.zero)
  lane_value inputs uniforms regs min i = some (l.minps (load_reg regs i.a) (load_reg regs i.b))
  lane_value inputs uniforms regs max i = some (l.maxps (load_reg regs i.a) (load_reg regs i.b))
  lane_value inputs uniforms regs load_input i =
      some (if ltb i.a 6 then get_or inputs i.a f.zero else f.zero)
  lane_value inputs uniforms regs load_uniform i =
      some (if ltb i.a (length uniforms) then get_or uniforms i.a f.zero else f.zero)
  lane_value inputs uniforms regs out_color i = none
  lane_value inputs uniforms regs load_const i = some (f.of_bits i.imm)
  lane_value inputs uniforms regs fract i = some (fract8 (load_reg regs i.a))
  lane_value inputs uniforms regs clamp01 i = some (clamp01_8 (load_reg regs i.a))
  lane_value inputs uniforms regs mix i =
      let a = load_reg regs i.a in
      let b = load_reg regs i.b in
      let t = clamp01_8 (load_reg regs i.c) in some (f.fadd a (f.fmul (f.fsub b a) t))
  lane_value inputs uniforms regs out_position i = none
  lane_value inputs uniforms regs sin i = some (f.sinf (load_reg regs i.a))
  lane_value inputs uniforms regs cos i = some (f.cosf (load_reg regs i.a))
  lane_value inputs uniforms regs abs i = some (f.fabsf (load_reg regs i.a))
  lane_value inputs uniforms regs sqrt i = some (l.sqrtps (l.maxps f.zero (load_reg regs i.a)))
  lane_value inputs uniforms regs pow i = some (f.powf (load_reg regs i.a) (load_reg regs i.b))

  unfoldable pub lane_write : List F → ℕ → Option F → List F
  lane_write regs dst_idx none = regs
  lane_write regs dst_idx (some v) = if ltb 15 dst_idx then regs else set regs dst_idx v

  -- The loop of `run_chunk` from an instruction on.
  unfoldable pub lane_loop : List F → List F → List Inst → List F → Channels F → Channels F
  unfolding op_effect lane_value lane_write load_reg
  lane_loop inputs uniforms [] regs finals = finals
  lane_loop inputs uniforms (i ∷ is) regs finals = elim (op_effect i.op) [
    | ends ↦ finals
    | paints ↦ lane_loop inputs uniforms is regs (record {
      final_r = load_reg regs i.a;
      final_g = load_reg regs i.b;
      final_b = load_reg regs i.c;
      final_a = load_reg regs i.d;
    })
    | places ↦ lane_loop inputs uniforms is regs finals
    | assigns ↦
        lane_loop inputs uniforms is
          (lane_write regs i.dst (lane_value inputs uniforms regs i.op i)) finals
  ]

  -- `run_chunk` up to `emit_pixels`.
  unfoldable pub run_chunk : Shader F → List F → Channels F
  unfolding lane_loop
  run_chunk sh inputs =
      lane_loop inputs sh.uniforms sh.program (replicate 16 f.zero)
        (record { final_r = f.one; final_g = f.zero; final_b = f.one; final_a = f.one })

  -- `emit_pixels`, for a lane that is stored. The parts do not overlap.
  unfoldable pub emit_pixel : Channels F → ℕ
  unfolding clamp01_8
  emit_pixel c =
      let part : F → ℕ = λ v. l.cvttps (f.fadd (f.fmul (clamp01_8 v) f.max_byte) f.half) in
      part c.final_b + (part c.final_g <<< 8) + (part c.final_r <<< 16) + (part c.final_a <<< 24)
