-- ===== src/Srapi/Vm/Words.antt =====
-- libs/srapi/src/vm/shader.c: one instruction, against its words in `Encode`.
use one_tool.Common.{
  ℕ, zero, suc, ◌+◌, ◌≤◌, false, List, [], ◌∷◌, ◌++◌, some, ltb, get_elem?, ◌≡◌, refl, arith, inl,
  inr, Option-cases,
}
use mathlib.Core.Path.{subst, sym}
use one_tool.Srapi.Vm.{
  VmOp, Group, Inst, group, stops, unary, constant, binary, blends, colors, positions, end, opcodes,
  vm_read_arg, read_imm, read_group, decode_inst, mov, add, sub, mul, div, min, max, load_input,
  load_uniform, out_color, load_const, fract, clamp01, mix, out_position, sin, cos, abs, sqrt, pow,
}
use one_tool.Srapi.Vm.Encode.{vm_code, arguments, words_of, Fits, IsWellFormed}

opcode_of_code : (o : VmOp) → (vm_code o ≤ 20) × (get_elem? opcodes (vm_code o) ≡ some o)
opcode_of_code end = (omega arith, refl)
opcode_of_code mov = (omega arith, refl)
opcode_of_code add = (omega arith, refl)
opcode_of_code sub = (omega arith, refl)
opcode_of_code mul = (omega arith, refl)
opcode_of_code div = (omega arith, refl)
opcode_of_code min = (omega arith, refl)
opcode_of_code max = (omega arith, refl)
opcode_of_code load_input = (omega arith, refl)
opcode_of_code load_uniform = (omega arith, refl)
opcode_of_code out_color = (omega arith, refl)
opcode_of_code load_const = (omega arith, refl)
opcode_of_code fract = (omega arith, refl)
opcode_of_code clamp01 = (omega arith, refl)
opcode_of_code mix = (omega arith, refl)
opcode_of_code out_position = (omega arith, refl)
opcode_of_code sin = (omega arith, refl)
opcode_of_code cos = (omega arith, refl)
opcode_of_code abs = (omega arith, refl)
opcode_of_code sqrt = (omega arith, refl)
opcode_of_code pow = (omega arith, refl)

-- The opcodes of a list are numbered from `k` on.
abbrev IsNumbered : ℕ → List VmOp → Type 0
IsNumbered k [] = (k ≡ k)
IsNumbered k (o ∷ os) = (vm_code o ≡ k) × IsNumbered (suc k) os

code_of_numbered :
    (k : ℕ) (os : List VmOp) (n : ℕ) (o : VmOp)
    → IsNumbered k os
    → get_elem? os n ≡ some o
    → vm_code o ≡ k + n
code_of_numbered k [] n o h e = cc
code_of_numbered k (p ∷ os) zero o h e = ground (arith)
code_of_numbered k (p ∷ os) (suc n) o h e = omega (arith, code_of_numbered (suc k) os n o h.1 e)

code_of_opcode : (n : ℕ) (o : VmOp) → get_elem? opcodes n ≡ some o → vm_code o ≡ n
code_of_opcode n o e = omega (arith, code_of_numbered 0 opcodes n o (omega arith) e)

-- What is left to read behind an instruction: nothing behind END.
abbrev pub behind : Group → List ℕ → List ℕ
behind stops ws = []
behind _ ws = ws

read_group-arguments :
    (g : Group) (i : Inst) (ws : List ℕ)
    → Fits g i
    → read_group g i.op (arguments g i ++ ws) ≡ some (i, behind g ws)
unfolding read_group vm_read_arg read_imm
read_group-arguments stops i ws h = ground arith
read_group-arguments unary i ws h = ground arith
read_group-arguments constant i ws h = ground arith
read_group-arguments binary i ws h = ground arith
read_group-arguments blends i ws h = ground arith
read_group-arguments colors i ws h = ground arith
read_group-arguments positions i ws h = ground arith

read_group-inverse :
    (g : Group) (o : VmOp) (ws : List ℕ) (r : Inst × List ℕ)
    → read_group g o ws ≡ some r
    → (junk : List ℕ) × (ws ≡ arguments g r.0 ++ junk)
      × (r.1 ≡ behind g junk)
      × Fits g r.0
      × (r.0.op ≡ o)
unfolding read_group vm_read_arg read_imm
read_group-inverse stops o ws r h = (ws, refl, ground arith, ground arith, ground arith)
read_group-inverse unary o (x ∷ y ∷ ws) r h =
    (ws, ground arith, ground arith, ground arith, ground arith)
read_group-inverse unary o (x ∷ []) r h = ground arith
read_group-inverse unary o [] r h = ground arith
read_group-inverse constant o (x ∷ y ∷ ws) r h =
    (ws, ground arith, ground arith, ground arith, ground arith)
read_group-inverse constant o (x ∷ []) r h = ground arith
read_group-inverse constant o [] r h = ground arith
read_group-inverse binary o (x ∷ y ∷ z ∷ ws) r h =
    (ws, ground arith, ground arith, ground arith, ground arith)
read_group-inverse binary o (x ∷ y ∷ []) r h = ground arith
read_group-inverse binary o (x ∷ []) r h = ground arith
read_group-inverse binary o [] r h = ground arith
read_group-inverse blends o (x ∷ y ∷ z ∷ t ∷ ws) r h =
    (ws, ground arith, ground arith, ground arith, ground arith)
read_group-inverse blends o (x ∷ y ∷ z ∷ []) r h = ground arith
read_group-inverse blends o (x ∷ y ∷ []) r h = ground arith
read_group-inverse blends o (x ∷ []) r h = ground arith
read_group-inverse blends o [] r h = ground arith
read_group-inverse colors o (x ∷ y ∷ z ∷ t ∷ ws) r h =
    (ws, ground arith, ground arith, ground arith, ground arith)
read_group-inverse colors o (x ∷ y ∷ z ∷ []) r h = ground arith
read_group-inverse colors o (x ∷ y ∷ []) r h = ground arith
read_group-inverse colors o (x ∷ []) r h = ground arith
read_group-inverse colors o [] r h = ground arith
read_group-inverse positions o (x ∷ y ∷ ws) r h =
    (ws, ground arith, ground arith, ground arith, ground arith)
read_group-inverse positions o (x ∷ []) r h = ground arith
read_group-inverse positions o [] r h = ground arith

-- What the loop's round accepts and what it leaves.
pub decode_inst-words_of :
    (i : Inst) (ws : List ℕ)
    → IsWellFormed i
    → decode_inst (vm_code i.op) (arguments (group i.op) i ++ ws) ≡ some (i, behind (group i.op) ws)
unfolding decode_inst
decode_inst-words_of i ws h =
    let code = opcode_of_code i.op in
    let small : ltb 255 (vm_code i.op) ≡ false = ground (arith, code) in
    rw (small, code.1) (read_group-arguments (group i.op) i ws h)

inst_lem :
    (w : ℕ) (ws : List ℕ) (r : Inst × List ℕ) (o : VmOp) (junk : List ℕ)
    → r.0.op ≡ o
    → vm_code o ≡ w
    → ws ≡ arguments (group o) r.0 ++ junk
    → r.1 ≡ behind (group o) junk
    → Fits (group o) r.0
    → (junk : List ℕ) × (w ∷ ws ≡ words_of r.0 ++ junk)
      × (r.1 ≡ behind (group r.0.op) junk)
      × IsWellFormed r.0
inst_lem w ws r o junk same code split rest fits =
    (junk, cc, cc, subst (λ p. Fits (group p) r.0) (sym same) fits)

pub decode_inst-inverse :
    (w : ℕ) (ws : List ℕ) (r : Inst × List ℕ)
    → decode_inst w ws ≡ some r
    → (junk : List ℕ) × (w ∷ ws ≡ words_of r.0 ++ junk)
      × (r.1 ≡ behind (group r.0.op) junk)
      × IsWellFormed r.0
unfolding decode_inst
decode_inst-inverse w ws r h = elim (Option-cases (get_elem? opcodes w)) [
  | inl e ↦ ground (arith, e)
  | inr (o, e) ↦
      let read : read_group (group o) o ws ≡ some r = ground (arith, e) in
      let (junk, split, rest, fits, same) = read_group-inverse (group o) o ws r read in
      inst_lem w ws r o junk same (code_of_opcode w o e) split rest fits
]
