-- ===== src/Srapi/Types.antt =====
-- libs/srapi/include/srapi/srapi.h: the result codes, and `srapi_rgba` of src/core/context.c.
use one_tool.Common.{ℕ, ◌+◌}
use one_tool.Common.Bits.{◌<<<◌}

pub data SrapiResult : Type 0 where
  ok error oom bad_arg overflow unsupported : SrapiResult

-- The parts do not overlap, so `|` adds them.
unfoldable pub srapi_rgba : ℕ → ℕ → ℕ → ℕ → ℕ
srapi_rgba r g b a = (a <<< 24) + (r <<< 16) + (g <<< 8) + b
