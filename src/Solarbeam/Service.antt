-- ===== src/Solarbeam/Service.antt =====
-- agent/internal/solarbeam/manager_windows.go: the calls on a service of Windows, and the wait for its
-- state.
use readyfleet_lightagent.Base.{
  ℕ, zero, suc, ◌+◌, ◌-◌, ◌*◌, Bool, true, false, not, ◌&&◌, Option, none, some, List, [], ◌∷◌,
  Error, wrap, not_exist, Result, ok, err, Act, fail, catch, ◌>>◌, ltb,
}
use readyfleet_lightagent.Base.Disk.{Disk}
use readyfleet_lightagent.Solarbeam.Interactive.{Host}

-- svc.State; `other` are the paused states.
pub data ServiceState : Type 0 where
  stopped : ServiceState
  start_pending : ServiceState
  stop_pending : ServiceState
  running : ServiceState
  other : ServiceState

abbrev pub same_state : ServiceState → ServiceState → Bool
same_state stopped stopped = true
same_state start_pending start_pending = true
same_state stop_pending stop_pending = true
same_state running running = true
same_state other other = true
same_state _ _ = false

-- The machine with the service's state, none where it is not installed. `calls` are what the next
-- calls of the service manager return (past the end they succeed). Between two calls a
-- service may change its state: `drift` says to what, before each look at it. `clock` goes on by
-- `ticks` at each reading, in milliseconds. `handles` are the handles of the service manager that
-- are open, and `starts` counts the starts of the service.
pub record ServiceHost : Type 0 where
  pub host : Host
  pub service : Option ServiceState
  pub calls : List (Option Error)
  pub drift : List (Option ServiceState)
  pub clock : ℕ
  pub ticks : List ℕ
  pub handles : ℕ
  pub starts : ℕ
  pub disk : Disk

-- milliseconds
abbrev pub service_state_timeout : ℕ
service_state_timeout = 15 * 1000

abbrev pub poll_interval : ℕ
poll_interval = 250

abbrev pub verdict : List (Option Error) → Result (Unit {0})
verdict (some e ∷ rest) = err e
verdict _ = ok tt

abbrev pub rest {ℓ} : {A : Type ℓ} → List A → List A
rest [] = []
rest (x ∷ xs) = xs

abbrev pub drifted : List (Option ServiceState) → ServiceState → ServiceState
drifted (some s ∷ rest) _ = s
drifted _ s = s

abbrev pub tick : List ℕ → ℕ
tick [] = 0
tick (t ∷ ts) = t

abbrev pub applied : Result (Unit {0}) → (ServiceHost → ServiceHost) → ServiceHost → ServiceHost
applied (ok u) f h = f h
applied (err e) f h = h

-- A call that may fail, and else changes the machine.
abbrev pub calling : (ServiceHost → ServiceHost) → Act ServiceHost (Unit {0})
calling f h = (verdict h.calls, applied (verdict h.calls) f (record h { calls = rest h.calls }))

-- time.Now()
unfoldable pub now : Act ServiceHost ℕ
now h = let t = h.clock + tick h.ticks in (ok t, record h { clock = t; ticks = rest h.ticks })

-- `defer x.Close()` after x was opened: what runs in between, and its result.
abbrev pub opened : Act ServiceHost (Unit {0}) → Act ServiceHost (Unit {0})
opened m h =
    let (r, h') = m (record h { handles = suc h.handles }) in
    (r, record h' { handles = h'.handles - 1 })

-- mgr.Connect with the deferred Disconnect
abbrev pub connected : Act ServiceHost (Unit {0}) → Act ServiceHost (Unit {0})
connected m = catch (calling (λ h. h)) (λ e. fail (wrap "connect SCM: %w" e)) >> opened m

abbrev pub present : Option ServiceState → Result (Unit {0})
present none = err not_exist
present (some s) = ok tt

-- OpenService, up to the handle
abbrev pub open_service : Act ServiceHost (Unit {0})
open_service = calling (λ h. h) >> (λ h. (present h.service, h))

abbrev pub looked : List (Option ServiceState) → Option ServiceState → Option ServiceState
looked drift none = none
looked drift (some s) = some (drifted drift s)

abbrev pub state_of : Option ServiceState → Result ServiceState
state_of none = err not_exist
state_of (some s) = ok s

-- Query
unfoldable pub query : Act ServiceHost ServiceState
query = do
  calling (λ h. record h { service = looked h.drift h.service; drift = rest h.drift })
  λ h. (state_of h.service, h)

abbrev pub is_state : ServiceState → Result ServiceState → Bool
is_state want (ok s) = same_state s want
is_state want (err e) = false

-- time.Sleep(250 * time.Millisecond)
abbrev pub pause : ServiceHost → ServiceHost
pause h = record h { clock = h.clock + poll_interval }

-- The loop of waitForServiceState, with the look after it; none where the fuel ends.
unfoldable pub poll : ℕ → ServiceState → ℕ → ServiceHost → Option (Bool × ServiceHost)
unfolding now query
poll zero want deadline h = none
poll (suc n) want deadline h =
    let h1 = (now h).1 in
    let h2 = (query h1).1 in
    let found = is_state want (query h1).0 in
    elim (ltb h1.clock deadline && not found) [
      | true ↦ poll n want deadline (pause h2)
      | false ↦ some (found, h2)
    ]

-- More polls than 15 seconds leave room for.
abbrev pub enough_polls : ℕ
enough_polls = 61

abbrev pub finished : Option (Bool × ServiceHost) → ServiceHost → Result Bool × ServiceHost
finished none h = (ok false, h)
finished (some (b, h')) _ = (ok b, h')

-- waitForServiceState with the timeout serviceStateTimeout
unfoldable pub wait_for_service_state : ServiceState → Act ServiceHost Bool
unfolding poll now
wait_for_service_state want h =
    let h1 = (now h).1 in finished (poll enough_polls want (h1.clock + service_state_timeout) h1) h1
