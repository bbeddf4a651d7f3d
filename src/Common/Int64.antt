-- ===== src/Common/Int64.antt =====
-- `int64`, as the number below 2 ^ 64 with the same bits. `uint64(x)` keeps the bits, so it is the
-- identity here.
use mathlib.Core.Path.{◌≡◌}
use mathlib.Core.Bool.{Bool}
use native.Mathlib.Omega.{arith}
use Prim.Native.Nat.{ℕ, ◌+◌, ◌%◌, ◌^◌, ◌<◌}
use grpc_datacon.Common.Tests.{ltb}

abbrev pub Int64 : Type 0
Int64 = ℕ

-- `a + b`, which wraps.
unfoldable pub add64 : Int64 → Int64 → Int64
add64 a b = (a + b) % 2 ^ 64

-- `a < b`, signed: adding 2 ^ 63 takes the signed order to the order of the bits.
unfoldable pub lt64 : Int64 → Int64 → Bool
lt64 a b = ltb ((a + 2 ^ 63) % 2 ^ 64) ((b + 2 ^ 63) % 2 ^ 64)

-- While nothing passes the largest `int64`, the wrapping test is the test on numbers.
pub lt64-add64 : (a b c : Int64) → a + b < 2 ^ 63 → c < 2 ^ 63 → lt64 (add64 a b) c ≡ ltb (a + b) c
unfolding lt64 add64
lt64-add64 a b c h k = ground arith
