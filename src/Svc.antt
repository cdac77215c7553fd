-- ===== src/Svc.antt =====
-- agent/internal/svc/service_windows.go: the handler that Windows asks to run the agent as a service.
pub mod Laws
use readyfleet_lightagent.Base.{Bool, true, false, List, [], ◌∷◌}

-- svc.State, as far as the handler reports it
pub data State : Type 0 where
  start_pending : State
  running : State
  stop_pending : State

-- svc.Status; `accepts` stands for AcceptStop and AcceptShutdown together.
pub record Status : Type 0 where
  pub state : State
  pub accepts : Bool

-- svc.ChangeRequest; an interrogation brings the status that Windows knows.
pub data ChangeRequest : Type 0 where
  interrogate : Status → ChangeRequest
  stop : ChangeRequest
  shutdown : ChangeRequest
  other : ChangeRequest

-- What Execute has done: the statuses that it sent, and whether it called cancel.
pub record Executed : Type 0 where
  pub statuses : List Status
  pub canceled : Bool

abbrev pub stopping : Executed
stopping = record {
  statuses = record { state = stop_pending; accepts = false } ∷ [];
  canceled = true;
}

abbrev reported : Status → Executed → Executed
reported s e = record e { statuses = s ∷ e.statuses }

-- The loop of Execute over the requests, to its return or to the close of the channel.
unfoldable pub serve : List ChangeRequest → Executed
serve [] = record { statuses = []; canceled = false }
serve (interrogate s ∷ rs) = reported s (serve rs)
serve (stop ∷ rs) = stopping
serve (shutdown ∷ rs) = stopping
serve (other ∷ rs) = serve rs

-- Execute
unfoldable pub execute : List ChangeRequest → Executed
unfolding serve
execute rs =
    reported (record { state = start_pending; accepts = false })
      (reported (record { state = running; accepts = true }) (serve rs))
