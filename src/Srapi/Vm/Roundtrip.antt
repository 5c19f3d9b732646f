-- ===== src/Srapi/Vm/Roundtrip.antt =====
-- libs/srapi/src/vm/shader.c: the decoder against the words that `Encode` writes.
use one_tool.Common.{
  ℕ, zero, suc, ◌≤◌, List, [], ◌∷◌, ◌++◌, some, length, ◌≡◌, ap, ◌↔◌, ◌≢◌, refl, arith, inl, inr,
  Option-cases, length-append,
}
use mathlib.Core.Path.{subst, sym}
use one_tool.Srapi.Vm.{
  Group, Inst, Decoded, group, decode_inst, decode_words, vm_decode_bytecode, insts, refused, spent,
  prepend,
}
use one_tool.Srapi.Vm.Encode.{vm_code, arguments, words_of, IsWellFormed}
use one_tool.Srapi.Vm.Words.{behind, decode_inst-words_of, decode_inst-inverse}

-- The words that an instruction list stands for: instructions other than END, then nothing, or
-- an END and any words.
abbrev pub StandsFor : List ℕ → List Inst → Type 0
StandsFor ws [] = ws ≡ []
StandsFor ws (i ∷ is) =
    IsWellFormed i
    × ((junk : List ℕ) × (ws ≡ words_of i ++ junk) × StandsFor (behind (group i.op) junk) is)

behind-le : (g : Group) (ws : List ℕ) → length (behind g ws) ≤ length ws
behind-le g ws = ground arith

decode_words-StandsFor :
    (n : ℕ) (ws : List ℕ) (is : List Inst)
    → length ws ≤ n
    → StandsFor ws is
    → decode_words n ws ≡ insts is
unfolding decode_words
decode_words-StandsFor n [] [] h s = ground arith
decode_words-StandsFor n (w ∷ ws) [] h s = cc
decode_words-StandsFor n [] (i ∷ is) h s = cc (s.1.1)
decode_words-StandsFor zero (w ∷ ws) (i ∷ is) h s = absurd (omega arith)
decode_words-StandsFor (suc n) (w ∷ ws) (i ∷ is) h (fits, (junk, e, s)) =
    let step : decode_inst w ws ≡ some (i, behind (group i.op) junk) =
      let code : w ≡ vm_code i.op = cc in
      let behind_code : ws ≡ arguments (group i.op) i ++ junk = cc in
      rw (code, behind_code) (decode_inst-words_of i junk fits) in
    let shorter = length-append (arguments (group i.op) i) junk in
    let size : length ws ≡ length (arguments (group i.op) i ++ junk) = cc in
    let same =
      decode_words-StandsFor n (behind (group i.op) junk) is
        (omega (arith, behind-le (group i.op) junk)) s in
    rw (decode_words, step, same)

prepend-inverse :
    (i : Inst) (d : Decoded) (is : List Inst)
    → prepend i d ≡ insts is
    → (js : List Inst) × (d ≡ insts js) × (is ≡ i ∷ js)
prepend-inverse i (insts js) is h = (js, refl, ground arith)
prepend-inverse i refused is h = cc
prepend-inverse i spent is h = cc

decode_words-inverse :
    (n : ℕ) (ws : List ℕ) (is : List Inst) → decode_words n ws ≡ insts is → StandsFor ws is
unfolding decode_words
decode_words-inverse n [] [] h = refl
decode_words-inverse n [] (i ∷ is) h = cc
decode_words-inverse zero (w ∷ ws) is h = cc
decode_words-inverse (suc n) (w ∷ ws) is h = elim (Option-cases (decode_inst w ws)) [
  | inl e ↦ ground (arith, e)
  | inr (r, e) ↦
      let read : prepend r.0 (decode_words n r.1) ≡ insts is = ground (arith, e) in
      let (js, rest, all) = prepend-inverse r.0 (decode_words n r.1) is read in
      let (junk, split, left, fits) = decode_inst-inverse w ws r e in
      let later = decode_words-inverse n r.1 js rest in
      subst (StandsFor (w ∷ ws)) (sym all)
        (fits, (junk, split, subst (λ l. StandsFor l js) left later))
]

prepend-spent : (i : Inst) (d : Decoded) → d ≢ spent → prepend i d ≢ spent
prepend-spent i (insts js) h e = cc
prepend-spent i refused h e = cc
prepend-spent i spent h e = h refl

decode_words-spent : (n : ℕ) (ws : List ℕ) → length ws ≤ n → decode_words n ws ≢ spent
unfolding decode_words
decode_words-spent n [] h e = cc
decode_words-spent zero (w ∷ ws) h e = absurd (omega arith)
decode_words-spent (suc n) (w ∷ ws) h e = elim (Option-cases (decode_inst w ws)) [
  | inl none_read ↦ ground (arith, none_read)
  | inr (r, read) ↦
      let (junk, split, left, fits) = decode_inst-inverse w ws r read in
      let shorter = length-append (arguments (group r.0.op) r.0) junk in
      let size : suc (length ws) ≡ suc (length (arguments (group r.0.op) r.0 ++ junk)) =
        ap length split in
      let kept : length r.1 ≤ length junk = rw left (behind-le (group r.0.op) junk) in
      let later = decode_words-spent n r.1 (omega arith) in
      prepend-spent r.0 (decode_words n r.1) later (ground (arith, read))
]

-- The decoder returns a list of instructions exactly when the words are those of
-- well-formed instructions, none of them END, followed by nothing or by one END and any words.
pub vm_decode_bytecode-StandsFor :
    (words : List ℕ) (is : List Inst) → (vm_decode_bytecode words ≡ insts is) ↔ StandsFor words is
unfolding vm_decode_bytecode
vm_decode_bytecode-StandsFor words is = (
  decode_words-inverse (length words) words is,
  decode_words-StandsFor (length words) words is (omega arith),
)

-- Fuel for as many rounds as there are words is enough: the decoder never ends without a verdict.
pub vm_decode_bytecode-ends : (words : List ℕ) → vm_decode_bytecode words ≢ spent
unfolding vm_decode_bytecode
vm_decode_bytecode-ends words = decode_words-spent (length words) words (omega arith)
