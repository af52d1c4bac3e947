-- ===== src/Math/Tests.antt =====
-- Runs of the arithmetic of math.h.
use trash_os.Base.{◌-◌, ◌/◌, ◌^◌, ◌≡◌, arith}
use trash_os.Base.Runs.{ok, out_of_fuel}
use trash_os.Math.{div64}
use trash_os.Math.Divide.{div64-div, div64-top}

div64-div_example : div64 200 1203 10 ≡ ok (1203 / 10)
div64-div_example = div64-div 200 1203 10 (omega arith) (omega arith) (omega arith) (omega arith)

div64-top_example : div64 1000 (2 ^ 64 - 1) 10 ≡ out_of_fuel
div64-top_example = div64-top 1000 10
