-- ===== src/Parser/Outcome.antt =====
-- What `Apply` of a mutation returns.
pub data ApplyError : Type 0 where
  not_found already_exists type_mismatch : ApplyError

-- `nil`, an error, or a panic, which `visitNode` recovers from.
pub data Outcome : Type 0 where
  applied : Outcome
  rejected : ApplyError → Outcome
  panicked : Outcome
