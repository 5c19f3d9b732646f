-- ===== src/Mlink/Link/Clean.antt =====
-- tools/dev/mlink/cli.c: the gates of `main` after an error, and its last steps.
use one_tool.Common.{Bool, true, false, Option, none, some, ◌==◌, if◌then◌else◌, ◌≡◌, refl, arith}
use one_tool.Mlink.Bytes.{Buffer}
use one_tool.Mlink.Types.{Context, report}
use one_tool.Mlink.Emit.{emit_output, emit_image}
use one_tool.Mlink.Link.{gate, gate_option, finish, exit_code}

pub gate-stuck :
    (step : Context → Context) (ctx : Context)
    → (ctx.error_count == 0) ≡ false
    → gate step ctx ≡ ctx
unfolding gate
gate-stuck step ctx h = rw h refl

pub gate_option-stuck :
    (step : Context → Option Context) (ctx : Context)
    → (ctx.error_count == 0) ≡ false
    → gate_option step ctx ≡ some ctx
unfolding gate_option
gate_option-stuck step ctx h = rw h refl

pub finish-stuck :
    (map_ok : Bool) (write : Buffer → Bool) (ctx : Context)
    → (ctx.error_count == 0) ≡ false
    → finish map_ok write ctx ≡ (ctx, none)
unfolding finish
finish-stuck map_ok write ctx h =
    rw (gate-stuck (λ c. if map_ok then c else report c) ctx h, h) refl

-- The last steps write a file in full only if nothing has reported an error, the map included, and then
-- the run ends with exit code 0 and what is written is the image of the context.
pub finish-written :
    (map_ok : Bool) (write : Buffer → Bool) (ctx ctx' : Context) (out : Buffer)
    → finish map_ok write ctx ≡ (ctx', some out)
    → (exit_code ctx' ≡ 0)
      × (ctx' ≡ ctx)
      × (map_ok ≡ true)
      × (write out ≡ true)
      × (emit_image ctx ≡ some out)
unfolding finish gate emit_output
finish-written map_ok write ctx ctx' out h = ground arith
