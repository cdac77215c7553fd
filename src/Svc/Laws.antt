-- ===== src/Svc/Laws.antt =====
-- What Execute reports.
use readyfleet_lightagent.Base.{Bool, true, false, ◌||◌, ◌≡◌, refl, ap, List, [], ◌∷◌, ◌++◌}
use readyfleet_lightagent.Svc.{
  start_pending, running, stop_pending, Status, ChangeRequest, interrogate, stop, shutdown, other,
  serve, execute,
}

abbrev pub ends : ChangeRequest → Bool
ends stop = true
ends shutdown = true
ends _ = false

abbrev pub any_ends : List ChangeRequest → Bool
any_ends [] = false
any_ends (r ∷ rs) = ends r || any_ends rs

-- The statuses of the interrogations before the first request to end.
abbrev pub answers : List ChangeRequest → List Status
answers [] = []
answers (interrogate s ∷ rs) = s ∷ answers rs
answers (stop ∷ rs) = []
answers (shutdown ∷ rs) = []
answers (other ∷ rs) = answers rs

abbrev pub last : Bool → List Status
last true = record { state = stop_pending; accepts = false } ∷ []
last false = []

serve-answers :
    (rs : List ChangeRequest)
    → ((serve rs).statuses ≡ (answers rs ++ last (any_ends rs)))
      × ((serve rs).canceled ≡ any_ends rs)
unfolding serve
serve-answers [] = (refl, refl)
serve-answers (interrogate s ∷ rs) = let (a, b) = serve-answers rs in (ap (λ l. s ∷ l) a, b)
serve-answers (stop ∷ rs) = (refl, refl)
serve-answers (shutdown ∷ rs) = (refl, refl)
serve-answers (other ∷ rs) = serve-answers rs

-- The service reports that it starts and that it runs, answers each interrogation before a request to stop
-- or shut down, and on the first such request, and only then, reports that it stops and cancels the agent.
pub execute-answers :
    (rs : List ChangeRequest)
    → ((execute rs).statuses ≡ (
        record { state = start_pending; accepts = false }
        ∷ record { state = running; accepts = true }
        ∷ (answers rs ++ last (any_ends rs))))
      × ((execute rs).canceled ≡ any_ends rs)
unfolding execute
execute-answers rs =
    let (a, b) = serve-answers rs in
    (
      ap
          (λ l.
            record { state = start_pending; accepts = false }
            ∷ record { state = running; accepts = true }
            ∷ l)
          a,
      b,
    )
