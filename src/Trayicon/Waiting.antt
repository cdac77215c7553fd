-- ===== src/Trayicon/Waiting.antt =====
-- agent/internal/trayicon/tray_windows.go: Notify's wait for Run.
pub mod Laws
use readyfleet_lightagent.Base.{
  ℕ, zero, suc, ◌+◌, ◌*◌, String, Bool, true, false, Option, none, some, List, [], ◌∷◌, Error,
  Error.errorf, Result, ok, err, ltb,
}
use readyfleet_lightagent.Trayicon.{Handler, TrayState}
use readyfleet_lightagent.Trayicon.Labels.{Units}
use readyfleet_lightagent.Trayicon.Messages.{Action, notifying}

-- The tray as a caller of Notify sees it. Between two looks Run may publish its state: `arrivals` says
-- what, before each look. `clock` goes on by `ticks` at each reading, in milliseconds.
pub record Waiter : Type 0 where
  pub state : Option TrayState
  pub arrivals : List (Option TrayState)
  pub clock : ℕ
  pub ticks : List ℕ

abbrev pub arrived : List (Option TrayState) → Option TrayState → Option TrayState
arrived (some ts ∷ rest) _ = some ts
arrived _ state = state

abbrev pub rest {ℓ} : {A : Type ℓ} → List A → List A
rest [] = []
rest (x ∷ xs) = xs

abbrev pub tick : List ℕ → ℕ
tick [] = 0
tick (t ∷ ts) = t

-- t.state, read under the lock
unfoldable pub look : Waiter → Waiter
look h = record h { state = arrived h.arrivals h.state; arrivals = rest h.arrivals }

-- time.Now()
unfoldable pub now : Waiter → Waiter
now h = record h { clock = h.clock + tick h.ticks; ticks = rest h.ticks }

-- milliseconds
abbrev pub notify_ready_timeout : ℕ
notify_ready_timeout = 3 * 1000

abbrev pub nap : ℕ
nap = 20

abbrev pub asleep : Waiter → Waiter
asleep h = record h { clock = h.clock + nap }

-- The loop of waitForState; none where the fuel ends.
unfoldable pub poll : ℕ → ℕ → Waiter → Option (Option TrayState × Waiter)
unfolding look now
poll zero deadline h = none
poll (suc n) deadline h =
    let h1 = look h in
    let h2 = now h1 in
    let next = poll n deadline (asleep h2) in
    elim h1.state [
      | some ts ↦ some (some ts, h1)
      | none ↦ elim (ltb deadline h2.clock) [ true ↦ some (none, h2) | false ↦ next ]
    ]

-- More looks than 3 seconds leave room for.
abbrev pub enough_looks : ℕ
enough_looks = 152

abbrev pub finished : Option (Option TrayState × Waiter) → Waiter → Option TrayState × Waiter
finished none h = (none, h)
finished (some r) h = r

-- waitForState
unfoldable pub wait_for_state : Waiter → Option TrayState × Waiter
unfolding poll now
wait_for_state h =
    let h1 = now h in finished (poll enough_looks (h1.clock + notify_ready_timeout) h1) h1

-- What Notify does with the state that it waited for; `modified` is the shell's answer.
abbrev pub notified :
    (String → Result Units)
    → String
    → String
    → ℕ
    → Option Handler
    → Result (Unit {0})
    → Option TrayState × Waiter
    → Result (Unit {0}) × (List Action × Waiter)
notified utf16_from_string title body severity on_click modified (none, h) = (
  err (errorf "trayicon: tray not running (timed out waiting for Run to finish setup)" []),
  ([], h),
)
notified utf16_from_string title body severity on_click modified (some ts, h) =
    let (actions, ts') = notifying utf16_from_string title body severity on_click ts in
    (modified, (actions, record h { state = some ts' }))

-- Notify
unfoldable pub notify :
    (String → Result Units)
    → String
    → String
    → ℕ
    → Option Handler
    → Result (Unit {0})
    → Waiter
    → Result (Unit {0}) × (List Action × Waiter)
unfolding wait_for_state notifying
notify utf16_from_string title body severity on_click modified h =
    notified utf16_from_string title body severity on_click modified (wait_for_state h)
