-- ===== src/Tests/Shading.antt =====
-- Runs of the shader machine and of its shading loops (libs/srapi/src/vm). Floats are integers
-- from 0 up here, with 1 for one.
use one_tool.Common.{
  ℕ, ◌+◌, ◌-◌, ◌*◌, ◌≤◌, ◌<◌, true, false, List, [], ◌∷◌, ltb, leb, ◌==◌, ◌||◌, if◌then◌else◌,
  length, get_or, ◌≡◌, ◌↔◌, ◌≢◌, refl, arith,
}
use one_tool.Common.Int.{pos, pos_part}
use one_tool.Srapi.Types.{ok, bad_arg}
use one_tool.Srapi.Vm.{
  Inst, insts, vm_decode_bytecode, end, mul, load_input, load_const, out_color, fresh,
}
use one_tool.Srapi.Vm.Roundtrip.{StandsFor, vm_decode_bytecode-StandsFor}
use one_tool.Srapi.Exec.{
  FloatOps, Shader, srapi_vm_run_fragment, srapi_vm_run_vertex, srapi_shader_set_uniforms,
}
use one_tool.Srapi.Exec.Status.{places_vertex, run-status, srapi_shader_set_uniforms_lem}
use one_tool.Srapi.Exec.Lane.{LaneOps, run_chunk}
use one_tool.Srapi.Exec.Lane.Agree.{packed, srapi_vm_run_fragment-run_chunk}
use one_tool.Srapi.Shade.{ShadeJob, Pixels, pixel_at, shade_scalar, tile_count, rows_per_tile}
use one_tool.Srapi.Shade.Tiles.{Covers, tiles-Covers}
use one_tool.Srapi.Shade.Scalar.{shown, shade_scalar-writes}

abbrev whole_floats : FloatOps ℕ
whole_floats = record {
  zero = 0;
  one = 1;
  half = 0;
  max_byte = 255;
  fadd = λ a b. a + b;
  fsub = λ a b. a - b;
  fmul = λ a b. a * b;
  fdiv = λ a b. 0;
  powf = λ a b. a;
  flt = ltb;
  fle = leb;
  feq = λ a b. a == b;
  sinf = λ a. 0;
  cosf = λ a. 1;
  fabsf = λ a. a;
  sqrtf = λ a. a;
  whole = λ a. a;
  to_byte = λ a. a;
  of_bits = λ a. a;
  of_int = pos_part;
}

abbrev whole_lanes : LaneOps ℕ
whole_lanes = record {
  minps = λ a b. if ltb a b then a else b;
  maxps = λ a b. if ltb b a then a else b;
  floorps = λ a. a;
  sqrtps = λ a. a;
  ne_ordered = λ a b. if a == b then false else true;
  cvttps = λ a. a;
}

-- r1 = 1; r0 = x * r1; colour (r0, r1, r1, r1); END; and words that are never read.
abbrev tint : List ℕ
tint = 11 ∷ 1 ∷ 1 ∷ 8 ∷ 0 ∷ 0 ∷ 4 ∷ 0 ∷ 0 ∷ 1 ∷ 10 ∷ 0 ∷ 1 ∷ 1 ∷ 1 ∷ 0 ∷ 999 ∷ []

abbrev tint_insts : List Inst
tint_insts =
    record (fresh load_const) { dst = 1; imm = 1 }
    ∷ record (fresh load_input) { dst = 0; a = 0 }
    ∷ record (fresh mul) { dst = 0; a = 0; b = 1 }
    ∷ record (fresh out_color) { a = 0; b = 1; c = 1; d = 1 }
    ∷ fresh end
    ∷ []

decoded : vm_decode_bytecode tint ≡ insts tint_insts
unfolding vm_decode_bytecode
decoded = refl

vm_decode_bytecode-StandsFor_example :
    (vm_decode_bytecode tint ≡ insts tint_insts) ↔ StandsFor tint tint_insts
vm_decode_bytecode-StandsFor_example = vm_decode_bytecode-StandsFor tint tint_insts

abbrev tint_shader : Shader ℕ
tint_shader = record {
  bytecode = tint;
  program = tint_insts;
  uniforms = 5 ∷ 6 ∷ 7 ∷ [];
  run_count = 0;
}

-- Black, and white with all channels.
run_black : (srapi_vm_run_fragment whole_floats tint_shader (0 ∷ [])).0 ≡ (ok, 0xff00ffff)
unfolding srapi_vm_run_fragment
run_black = refl

run-status_example :
    ((srapi_vm_run_vertex whole_floats tint_shader (1 ∷ [])).0.0 ≡ ok)
    × ((srapi_vm_run_fragment whole_floats tint_shader (1 ∷ [])).0.0
        ≡ (if places_vertex tint_shader.program then bad_arg else ok))
run-status_example = run-status whole_floats tint_shader (1 ∷ []) (1 ∷ [])

srapi_shader_set_uniforms_example :
    (let r = srapi_shader_set_uniforms whole_floats tint_shader 1 (9 ∷ 8 ∷ []) in
      ((r.0 ≡ ok) ↔ (1 + 2 ≤ 3))
      × (length r.1.uniforms ≡ 3)
      × ((k : ℕ)
          → get_or r.1.uniforms k 0 ≡ (
              if ltb 3 (1 + 2)
              then get_or (5 ∷ 6 ∷ 7 ∷ []) k 0
              else if ltb k 1 || leb (1 + 2) k
              then get_or (5 ∷ 6 ∷ 7 ∷ []) k 0
              else get_or (9 ∷ 8 ∷ []) (k - 1) 0)))
srapi_shader_set_uniforms_example =
    srapi_shader_set_uniforms_lem whole_floats tint_shader 1 (9 ∷ 8 ∷ [])

srapi_vm_run_fragment-run_chunk_example :
    (srapi_vm_run_fragment whole_floats tint_shader (1 ∷ [])).0
    ≡ (ok, packed whole_floats (run_chunk whole_floats whole_lanes tint_shader (1 ∷ [])))
srapi_vm_run_fragment-run_chunk_example =
    srapi_vm_run_fragment-run_chunk whole_floats whole_lanes (λ a b. refl) (λ a b. refl) refl refl
      refl tint_shader (1 ∷ []) (refl, (refl, (refl, (refl, (refl, tt)))))

-- 40 rows from row 3 on, two tiles.
abbrev tall_job : ShadeJob
tall_job = record {
  pitch_bytes = 16;
  rect_x0 = pos 1;
  rect_y0 = pos 3;
  rect_width = 2;
  rect_height = 40;
  clip_x = 1;
  clip_y = 3;
  clip_width = 2;
  clip_height = 40;
  tile_rows = 32;
}

tall_rows : tall_job.tile_rows ≡ rows_per_tile 40
unfolding rows_per_tile
tall_rows = refl

tiles-Covers_example :
    (3 ≤ 40
      → 40 < 43
      → (t : ℕ) × (t < tile_count 40)
        × Covers tall_job t 40
        × ((s : ℕ) → s < tile_count 40 → Covers tall_job s 40 → s ≡ t))
    × ((t : ℕ) → t < tile_count 40 → Covers tall_job t 40 → (3 ≤ 40) × (40 < 43))
tiles-Covers_example = tiles-Covers tall_job (omega arith) (omega arith) tall_rows 40

abbrev small_job : ShadeJob
small_job = record tall_job { clip_height = 1 }

abbrev no_pixels : Pixels
no_pixels k = 0

shade_scalar-writes_example :
    (let r = shade_scalar whole_floats small_job no_pixels tint_shader in
      (r.0 ≡ ok)
      × ((j k : ℕ)
          → j < 1
          → k < 2
          → r.1 (pixel_at small_job (1 + k) (3 + j))
            ≡ shown whole_floats small_job tint_shader (1 + k) (3 + j))
      × ((at : ℕ)
          → ((j k : ℕ) → j < 1 → k < 2 → at ≢ pixel_at small_job (1 + k) (3 + j))
          → r.1 at ≡ no_pixels at))
unfolding places_vertex
shade_scalar-writes_example =
    shade_scalar-writes whole_floats small_job no_pixels tint_shader (omega arith) (omega arith)
      (omega arith) refl
