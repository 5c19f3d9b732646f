-- ===== src/Srapi/Exec.antt =====
-- libs/srapi/src/vm/exec.c: the shader machine, one fragment or one vertex at a time, and the
-- shader object of shader.c. Floats are a type `F` with the operations that the code uses of the
-- processor and of libm; a pointer that is NULL and an allocation that fails are left out.
pub mod Lane
pub mod Status
use one_tool.Common.{
  ℕ, ◌+◌, ◌*◌, ◌-◌, Bool, true, false, not, List, [], ◌∷◌, ◌++◌, Option, none, some, ltb, ◌==◌,
  ◌||◌, if◌then◌else◌, length, get_or, set, take, drop, replicate,
}
use one_tool.Common.Int.{ℤ}
use one_tool.Srapi.Types.{SrapiResult, ok, bad_arg, srapi_rgba}
use one_tool.Srapi.Vm.{
  VmOp, Inst, Decoded, insts, refused, spent, vm_decode_bytecode, end, mov, add, sub, mul, div, min,
  max, load_input, load_uniform, out_color, load_const, fract, clamp01, mix, out_position, sin, cos,
  abs, sqrt, pow,
}

pub record FloatOps (F : Type 0) : Type 0 where
  pub zero : F
  pub one : F
  pub half : F
  pub max_byte : F
  pub fadd : F → F → F
  pub fsub : F → F → F
  pub fmul : F → F → F
  pub fdiv : F → F → F
  pub powf : F → F → F
  pub flt : F → F → Bool
  pub fle : F → F → Bool
  pub feq : F → F → Bool
  pub sinf : F → F
  pub cosf : F → F
  pub fabsf : F → F
  pub sqrtf : F → F
  -- `(float)(int)value`, `(uint8_t)value` and the float with the given bits.
  pub whole : F → F
  pub to_byte : F → ℕ
  pub of_bits : ℕ → F
  -- `(float)n` of an integer.
  pub of_int : ℤ → F

pub record Shader (F : Type 0) : Type 0 where
  pub bytecode : List ℕ
  pub program : List Inst
  pub uniforms : List F
  pub run_count : ℕ

-- What a case of the switches does: it ends the run, writes the colour or the position, or
-- assigns a register.
pub data Effect : Type 0 where
  ends paints places assigns : Effect

unfoldable pub op_effect : VmOp → Effect
op_effect end = ends
op_effect out_color = paints
op_effect out_position = places
op_effect _ = assigns

module _ {F : Type 0} (f : FloatOps F) where
  -- `srapi_create_shader` with `uniforms` copied when given, and zeros otherwise.
  unfoldable pub srapi_create_shader : List ℕ → Option (List F) → ℕ → Option (Shader F)
  unfolding vm_decode_bytecode
  srapi_create_shader bytecode uniforms uniform_count =
      if length bytecode == 0 then none else elim (vm_decode_bytecode bytecode) [
        | insts is ↦ some (record {
          bytecode = bytecode;
          program = is;
          uniforms = elim uniforms [
            | some values ↦ take uniform_count values
            | none ↦ replicate uniform_count f.zero
          ];
          run_count = 0;
        })
        | refused ↦ none
        | spent ↦ none
      ]

  unfoldable pub srapi_shader_set_uniform : Shader F → ℕ → F → SrapiResult × Shader F
  srapi_shader_set_uniform sh index value =
      if ltb index (length sh.uniforms)
      then (ok, record sh { uniforms = set sh.uniforms index value })
      else (bad_arg, sh)

  -- The `memcpy` of as many values as the list has.
  unfoldable pub srapi_shader_set_uniforms : Shader F → ℕ → List F → SrapiResult × Shader F
  srapi_shader_set_uniforms sh first values =
      if ltb (length sh.uniforms) first || ltb (length sh.uniforms - first) (length values)
      then (bad_arg, sh)
      else (
        ok,
        record sh {
          uniforms = take first sh.uniforms ++ (values ++ drop (first + length values) sh.uniforms);
        },
      )

  unfoldable pub vm_get_reg : List F → ℕ → F
  vm_get_reg regs index = if ltb index 16 then get_or regs index f.zero else f.zero

  unfoldable pub vm_clamp01 : F → F
  vm_clamp01 value =
      if f.fle value f.zero then f.zero else if f.fle f.one value then f.one else value

  unfoldable pub vm_fract : F → F
  vm_fract value =
      let out = f.fsub value (f.whole value) in if f.flt out f.zero then f.fadd out f.one else out

  unfoldable pub clamp_byte : F → ℕ
  clamp_byte value =
      if f.fle value f.zero
      then 0
      else if f.fle f.one value
      then 255
      else f.to_byte (f.fadd (f.fmul value f.max_byte) f.half)

  -- The switch's cases that fragments and vertices share: the value that goes to `dst`, if any.
  -- `limit` is the number of inputs.
  unfoldable pub alu_value : ℕ → List F → List F → List F → VmOp → Inst → Option F
  unfolding vm_get_reg vm_clamp01 vm_fract
  alu_value limit inputs uniforms regs end i = none
  alu_value limit inputs uniforms regs mov i = some (vm_get_reg regs i.a)
  alu_value limit inputs uniforms regs add i =
      some (f.fadd (vm_get_reg regs i.a) (vm_get_reg regs i.b))
  alu_value limit inputs uniforms regs sub i =
      some (f.fsub (vm_get_reg regs i.a) (vm_get_reg regs i.b))
  alu_value limit inputs uniforms regs mul i =
      some (f.fmul (vm_get_reg regs i.a) (vm_get_reg regs i.b))
  alu_value limit inputs uniforms regs div i = some (
      if not (f.feq (vm_get_reg regs i.b) f.zero)
      then f.fdiv (vm_get_reg regs i.a) (vm_get_reg regs i.b)
      else f.zero)
  alu_value limit inputs uniforms regs min i = some (
      if f.flt (vm_get_reg regs i.a) (vm_get_reg regs i.b)
      then vm_get_reg regs i.a
      else vm_get_reg regs i.b)
  alu_value limit inputs uniforms regs max i = some (
      if f.flt (vm_get_reg regs i.b) (vm_get_reg regs i.a)
      then vm_get_reg regs i.a
      else vm_get_reg regs i.b)
  alu_value limit inputs uniforms regs load_input i =
      if ltb i.a limit then some (get_or inputs i.a f.zero) else none
  alu_value limit inputs uniforms regs load_uniform i =
      if ltb i.a (length uniforms) then some (get_or uniforms i.a f.zero) else none
  alu_value limit inputs uniforms regs out_color i = none
  alu_value limit inputs uniforms regs load_const i = some (f.of_bits i.imm)
  alu_value limit inputs uniforms regs fract i = some (vm_fract (vm_get_reg regs i.a))
  alu_value limit inputs uniforms regs clamp01 i = some (vm_clamp01 (vm_get_reg regs i.a))
  alu_value limit inputs uniforms regs mix i =
      let a = vm_get_reg regs i.a in
      let b = vm_get_reg regs i.b in
      let t = vm_clamp01 (vm_get_reg regs i.c) in some (f.fadd a (f.fmul (f.fsub b a) t))
  alu_value limit inputs uniforms regs out_position i = none
  alu_value limit inputs uniforms regs sin i = some (f.sinf (vm_get_reg regs i.a))
  alu_value limit inputs uniforms regs cos i = some (f.cosf (vm_get_reg regs i.a))
  alu_value limit inputs uniforms regs abs i = some (f.fabsf (vm_get_reg regs i.a))
  alu_value limit inputs uniforms regs sqrt i =
      let val = vm_get_reg regs i.a in some (if f.fle f.zero val then f.sqrtf val else f.zero)
  alu_value limit inputs uniforms regs pow i =
      some (f.powf (vm_get_reg regs i.a) (vm_get_reg regs i.b))

  -- The write of a case: `if (inst->dst < SRAPI_VM_REG_COUNT) regs[inst->dst] = ...`.
  unfoldable pub assign : List F → ℕ → Option F → List F
  assign regs dst none = regs
  assign regs dst (some v) = if ltb dst 16 then set regs dst v else regs

  -- OUT_COLOR.
  unfoldable pub color_of : List F → Inst → ℕ
  unfolding srapi_rgba clamp_byte vm_get_reg
  color_of regs i =
      srapi_rgba (clamp_byte (vm_get_reg regs i.a)) (clamp_byte (vm_get_reg regs i.b))
        (clamp_byte (vm_get_reg regs i.c)) (clamp_byte (vm_get_reg regs i.d))

  -- The loop of `srapi_vm_run_fragment` from an instruction on: its result and `*out_color`.
  unfoldable pub fragment_loop : List F → List F → List Inst → List F → ℕ → SrapiResult × ℕ
  unfolding op_effect alu_value assign color_of
  fragment_loop inputs uniforms [] regs color = (ok, color)
  fragment_loop inputs uniforms (i ∷ is) regs color = elim (op_effect i.op) [
    | ends ↦ (ok, color)
    | paints ↦ fragment_loop inputs uniforms is regs (color_of regs i)
    | places ↦ (bad_arg, color)
    | assigns ↦
        fragment_loop inputs uniforms is
          (assign regs i.dst (alu_value 6 inputs uniforms regs i.op i)) color
  ]

  unfoldable pub srapi_vm_run_fragment : Shader F → List F → (SrapiResult × ℕ) × Shader F
  unfolding fragment_loop srapi_rgba
  srapi_vm_run_fragment sh inputs = (
    fragment_loop inputs sh.uniforms sh.program (replicate 16 f.zero) (srapi_rgba 255 0 255 255),
    record sh { run_count = sh.run_count + 1 },
  )

  -- The loop of `srapi_vm_run_vertex`: its result, `out_position` and `*out_color`.
  unfoldable pub vertex_loop :
      List F → List F → List Inst → List F → F × F → ℕ → SrapiResult × (F × F) × ℕ
  unfolding op_effect alu_value assign color_of vm_get_reg
  vertex_loop inputs uniforms [] regs place color = (ok, place, color)
  vertex_loop inputs uniforms (i ∷ is) regs place color = elim (op_effect i.op) [
    | ends ↦ (ok, place, color)
    | places ↦ vertex_loop inputs uniforms is regs (vm_get_reg regs i.a, vm_get_reg regs i.b) color
    | paints ↦ vertex_loop inputs uniforms is regs place (color_of regs i)
    | assigns ↦
        vertex_loop inputs uniforms is (assign regs i.dst (alu_value 7 inputs uniforms regs i.op i))
          place color
  ]

  unfoldable pub srapi_vm_run_vertex : Shader F → List F → (SrapiResult × (F × F) × ℕ) × Shader F
  unfolding vertex_loop clamp_byte srapi_rgba
  srapi_vm_run_vertex sh inputs =
      let channel : ℕ → ℕ = λ k. clamp_byte (get_or inputs k f.zero) in
      (
        vertex_loop inputs sh.uniforms sh.program (replicate 16 f.zero)
            (get_or inputs 0 f.zero, get_or inputs 1 f.zero)
            (srapi_rgba (channel 2) (channel 3) (channel 4) (channel 5)),
        record sh { run_count = sh.run_count + 1 },
      )
