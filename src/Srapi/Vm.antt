-- ===== src/Srapi/Vm.antt =====
-- libs/srapi/src/vm: the shader machine's instructions (`srapi_vm_opcode_t`, `srapi_vm_inst_t`)
-- and the decoder of its bytecode in shader.c.
pub mod Encode
pub mod Words
pub mod Roundtrip
use one_tool.Common.{
  ℕ, zero, suc, Bool, true, false, List, [], ◌∷◌, Option, none, some, ltb, if◌then◌else◌, length,
  get_elem?,
}

pub data VmOp : Type 0 where
  end mov add sub mul div min max load_input load_uniform out_color : VmOp
  load_const fract clamp01 mix out_position sin cos abs sqrt pow : VmOp

-- The opcodes in the order of their numbers, from 0.
abbrev pub opcodes : List VmOp
opcodes =
    end ∷ mov ∷ add ∷ sub ∷ mul ∷ div ∷ min ∷ max ∷ load_input ∷ load_uniform ∷ out_color
    ∷ load_const ∷ fract ∷ clamp01 ∷ mix ∷ out_position ∷ sin ∷ cos ∷ abs ∷ sqrt ∷ pow ∷ []

pub record Inst : Type 0 where
  pub op : VmOp
  pub dst : ℕ
  pub a : ℕ
  pub b : ℕ
  pub c : ℕ
  pub d : ℕ
  pub imm : ℕ

-- An instruction as `calloc` leaves it, with its opcode.
abbrev pub fresh : VmOp → Inst
fresh o = record { op = o; dst = 0; a = 0; b = 0; c = 0; d = 0; imm = 0 }

infixl 5 ◌>>=◌
abbrev pub ◌>>=◌ {ℓ κ} : {A : Type ℓ} {B : Type κ} → Option A → (A → Option B) → Option B
none >>= f = none
some x >>= f = f x

-- `vm_read_arg`: the argument and the words behind it. The list is what is left from `*pc` on.
unfoldable pub vm_read_arg : List ℕ → Option (ℕ × List ℕ)
vm_read_arg [] = none
vm_read_arg (w ∷ ws) = if ltb 255 w then none else some (w, ws)

-- The word that `LOAD_CONST` loads; it is not limited to a byte.
unfoldable pub read_imm : List ℕ → Option (ℕ × List ℕ)
read_imm [] = none
read_imm (w ∷ ws) = some (w, ws)

-- The cases of the switch by the arguments that they read.
pub data Group : Type 0 where
  stops unary constant binary blends colors positions : Group

unfoldable pub group : VmOp → Group
group end = stops
group mov = unary
group add = binary
group sub = binary
group mul = binary
group div = binary
group min = binary
group max = binary
group load_input = unary
group load_uniform = unary
group out_color = colors
group load_const = constant
group fract = unary
group clamp01 = unary
group mix = blends
group out_position = positions
group sin = unary
group cos = unary
group abs = unary
group sqrt = unary
group pow = binary

-- One case of the switch: the instruction and the words behind its arguments.
unfoldable pub read_group : Group → VmOp → List ℕ → Option (Inst × List ℕ)
unfolding vm_read_arg read_imm
read_group stops o ws = some (fresh o, [])
read_group unary o ws = do
  x ← vm_read_arg ws
  y ← vm_read_arg x.1
  some (record (fresh o) { dst = x.0; a = y.0 }, y.1)
read_group constant o ws = do
  x ← vm_read_arg ws
  i ← read_imm x.1
  some (record (fresh o) { dst = x.0; imm = i.0 }, i.1)
read_group binary o ws = do
  x ← vm_read_arg ws
  y ← vm_read_arg x.1
  z ← vm_read_arg y.1
  some (record (fresh o) { dst = x.0; a = y.0; b = z.0 }, z.1)
read_group blends o ws = do
  x ← vm_read_arg ws
  y ← vm_read_arg x.1
  z ← vm_read_arg y.1
  t ← vm_read_arg z.1
  some (record (fresh o) { dst = x.0; a = y.0; b = z.0; c = t.0 }, t.1)
read_group colors o ws = do
  x ← vm_read_arg ws
  y ← vm_read_arg x.1
  z ← vm_read_arg y.1
  t ← vm_read_arg z.1
  some (record (fresh o) { a = x.0; b = y.0; c = z.0; d = t.0 }, t.1)
read_group positions o ws = do
  x ← vm_read_arg ws
  y ← vm_read_arg x.1
  some (record (fresh o) { a = x.0; b = y.0 }, y.1)

-- One round of the loop on a word and what follows it: the opcode is looked up and its case run.
-- A word above 255 and an unknown opcode are refused.
unfoldable pub decode_inst : ℕ → List ℕ → Option (Inst × List ℕ)
unfolding read_group group
decode_inst w ws =
    if ltb 255 w then none else get_elem? opcodes w >>= λ o. read_group (group o) o ws

pub data Decoded : Type 0 where
  insts : List Inst → Decoded
  refused : Decoded
  spent : Decoded

abbrev pub prepend : Inst → Decoded → Decoded
prepend i (insts is) = insts (i ∷ is)
prepend i refused = refused
prepend i spent = spent

-- The loop `while (pc < word_count)`, with fuel.
unfoldable pub decode_words : ℕ → List ℕ → Decoded
decode_words n [] = insts []
decode_words zero (w ∷ ws) = spent
decode_words (suc n) (w ∷ ws) = elim (decode_inst w ws) [
  | none ↦ refused
  | some r ↦ prepend r.0 (decode_words n r.1)
]

unfoldable pub vm_decode_bytecode : List ℕ → Decoded
unfolding decode_words decode_inst
vm_decode_bytecode words = decode_words (length words) words
