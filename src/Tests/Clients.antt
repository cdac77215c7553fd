-- ===== src/Tests/Clients.antt =====
-- The connection of the client at concrete inputs.
use readyfleet_lightagent.Base.{true, false, ◌≡◌, refl, Option, none, some, List, [], ◌∷◌}
use readyfleet_lightagent.Transport.Client.{
  Client, Move, call_run, proceed, attempt_connects, pause, new_client, step, run, set_paused,
  Reach, here, onward,
}
use readyfleet_lightagent.Transport.Client.Invariant.{Inv, new_client-Inv, Reach-Inv}
use readyfleet_lightagent.Transport.Client.Pausing.{past_check, paused_stays_out}

-- The client after the moves, one by one; the client itself where one cannot be made.
abbrev moved : Option Client → Client → Client
moved none c = c
moved (some d) c = d

unfoldable go : List Move → Client → Client
unfolding step
go [] c = c
go (m ∷ ms) c = go ms (moved (step m c) c)

abbrev to_entering : List Move
to_entering = call_run ∷ proceed ∷ proceed ∷ []

abbrev at_entry : Client
at_entry = go to_entering new_client

entry_reached : Reach new_client at_entry
unfolding go step new_client run
entry_reached = onward proceed (onward proceed (onward call_run here refl) refl) refl

abbrev at_dial : Client
at_dial = go (proceed ∷ []) at_entry

dial_reached : Reach new_client at_dial
unfolding go step new_client run
dial_reached = onward proceed entry_reached refl

abbrev connected : Client
connected = go (attempt_connects 5 ∷ []) at_dial

connected_reached : Reach new_client connected
unfolding go step new_client run
connected_reached = onward (attempt_connects 5) dial_reached refl

Reach-Inv_example : Inv connected
Reach-Inv_example = Reach-Inv new_client-Inv connected_reached

abbrev idle_paused : Client
idle_paused = set_paused true new_client

abbrev some_moves : List Move
some_moves = call_run ∷ proceed ∷ proceed ∷ pause true ∷ proceed ∷ proceed ∷ []

paused_stays_out_example : past_check (go some_moves idle_paused).phase ≡ false
unfolding go step new_client run set_paused
paused_stays_out_example =
    paused_stays_out some_moves idle_paused (go some_moves idle_paused) refl refl refl refl
