-- ===== src/Srapi/Vm/Encode.antt =====
-- libs/srapi/src/vm/shader.c: the words of an instruction, as the decoder expects them.
use one_tool.Common.{ℕ, List, [], ◌∷◌, ◌++◌, ◌≤◌, ◌≡◌}
use one_tool.Srapi.Vm.{
  VmOp, Group, Inst, group, stops, unary, constant, binary, blends, colors, positions, fresh, end,
  mov, add, sub, mul, div, min, max, load_input, load_uniform, out_color, load_const, fract,
  clamp01, mix, out_position, sin, cos, abs, sqrt, pow,
}

-- The number of an opcode in `srapi_vm_opcode_t`.
abbrev pub vm_code : VmOp → ℕ
vm_code end = 0
vm_code mov = 1
vm_code add = 2
vm_code sub = 3
vm_code mul = 4
vm_code div = 5
vm_code min = 6
vm_code max = 7
vm_code load_input = 8
vm_code load_uniform = 9
vm_code out_color = 10
vm_code load_const = 11
vm_code fract = 12
vm_code clamp01 = 13
vm_code mix = 14
vm_code out_position = 15
vm_code sin = 16
vm_code cos = 17
vm_code abs = 18
vm_code sqrt = 19
vm_code pow = 20

abbrev pub arguments : Group → Inst → List ℕ
arguments stops i = []
arguments unary i = i.dst ∷ i.a ∷ []
arguments constant i = i.dst ∷ i.imm ∷ []
arguments binary i = i.dst ∷ i.a ∷ i.b ∷ []
arguments blends i = i.dst ∷ i.a ∷ i.b ∷ i.c ∷ []
arguments colors i = i.a ∷ i.b ∷ i.c ∷ i.d ∷ []
arguments positions i = i.a ∷ i.b ∷ []

abbrev pub words_of : Inst → List ℕ
words_of i = vm_code i.op ∷ arguments (group i.op) i

abbrev pub encode : List Inst → List ℕ
encode [] = []
encode (i ∷ is) = words_of i ++ encode is

-- The fields that an opcode does not read are zero and those that it reads are bytes.
abbrev pub Fits : Group → Inst → Type 0
Fits stops i = i ≡ fresh i.op
Fits unary i = (i ≡ record (fresh i.op) { dst = i.dst; a = i.a }) × (i.dst ≤ 255) × (i.a ≤ 255)
Fits constant i = (i ≡ record (fresh i.op) { dst = i.dst; imm = i.imm }) × (i.dst ≤ 255)
Fits binary i =
    (i ≡ record (fresh i.op) { dst = i.dst; a = i.a; b = i.b })
    × (i.dst ≤ 255)
    × (i.a ≤ 255)
    × (i.b ≤ 255)
Fits blends i =
    (i ≡ record (fresh i.op) { dst = i.dst; a = i.a; b = i.b; c = i.c })
    × (i.dst ≤ 255)
    × (i.a ≤ 255)
    × (i.b ≤ 255)
    × (i.c ≤ 255)
Fits colors i =
    (i ≡ record (fresh i.op) { a = i.a; b = i.b; c = i.c; d = i.d })
    × (i.a ≤ 255)
    × (i.b ≤ 255)
    × (i.c ≤ 255)
    × (i.d ≤ 255)
Fits positions i = (i ≡ record (fresh i.op) { a = i.a; b = i.b }) × (i.a ≤ 255) × (i.b ≤ 255)

abbrev pub IsWellFormed : Inst → Type 0
IsWellFormed i = Fits (group i.op) i
