-- ===== src/Verify/SingleFlight.antt =====
-- `SingleFlight` of agent/internal/verify/download.go: a slot that one operation at a time holds.
-- Both methods run under the mutex, so each is one step.
use readyfleet_lightagent.Base.{Bool, true, false}

pub record SingleFlight : Type 0 where
  pub in_flight : Bool

-- TryBegin
unfoldable pub try_begin : SingleFlight → Bool × SingleFlight
try_begin s = elim s.in_flight [ true ↦ (false, s) | false ↦ (true, record { in_flight = true }) ]

-- End
unfoldable pub end : SingleFlight → SingleFlight
end s = record s { in_flight = false }
