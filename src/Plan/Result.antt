-- ===== src/Plan/Result.antt =====
-- What the planner's functions return: a value or an error.
pub data Error : Type 0 where
  cancelled : Error
  cycle_detected : Error
  out_of_fuel : Error

pub data Result (A : Type 0) : Type 0 where
  ok : A → Result A
  err : Error → Result A
