-- ===== src/Browser.antt =====
-- agent/internal/hiddenbrowser/hiddenbrowser.go: the launcher of the one hidden window, and the
-- goroutine that each new window has. `Open` holds the mutex for its whole length, and the goroutine
-- needs the mutex before it changes anything, so a loop that ends within `Open` ends right after it.
-- The goroutine of a creation with neither window nor error, which newWebViewFn never returns, is not
-- followed.
pub mod Laws
pub mod Creating
use readyfleet_lightagent.Base.{
  ℕ, suc, String, Bool, true, false, Option, none, some, List, [], ◌∷◌, Error, new, Result, ok, err,
  ◌==◌, not, if◌then◌else◌,
}

-- `wv` is the field of the launcher. `showing` are the windows whose message loop runs, `closing`
-- says that a goroutine has left its loop and has not cleared `wv` yet, `excluded` are the windows
-- that the capture leaves out, `front` the windows brought to the front, and `notices` the titles of
-- the balloons, the last one first each.
pub record Launcher : Type 0 where
  pub wv : Option ℕ
  pub showing : List ℕ
  pub closing : Bool
  pub next_window : ℕ
  pub excluded : List ℕ
  pub front : List ℕ
  pub notices : List String

abbrev pub default_ready_app_url : String
default_ready_app_url = "https://readyapp.player-ready.co.uk"

-- readyAppURL, from the variable READYFLEET_READYAPP_URL ("" where it is not set)
unfoldable pub ready_app_url : String → String
ready_app_url env = if not (env == "") then env else default_ready_app_url

-- How the creation of a window ends: an error, neither a window nor an error, or a window.
pub data Creation : Type 0 where
  fails : Error → Creation
  nothing : Creation
  window : Creation

abbrev notify_failure : String → Launcher → Launcher
notify_failure title l = record l { notices = title ∷ l.notices }

-- A window is there, and its goroutine runs its message loop.
abbrev created : Launcher → Launcher
created l = record l { showing = l.next_window ∷ l.showing; next_window = suc l.next_window }

abbrev keep : ℕ → Launcher → Launcher
keep w l = record l { wv = some w; front = w ∷ l.front }

-- From the new window on, with what excludeFn returns.
abbrev hide : ℕ → Result (Unit {0}) → Launcher → Result (Unit {0}) × Launcher
hide w (err e) l =
    (err e, notify_failure "Opened, but couldn't hide it from your stream" (keep w l))
hide w (ok _) l = (ok tt, keep w (record l { excluded = w ∷ l.excluded }))

abbrev open_new : Creation → Result (Unit {0}) → Launcher → Result (Unit {0}) × Launcher
open_new (fails e) x l = (err e, notify_failure "Couldn't open hidden ReadyApp" l)
open_new nothing x l = (
  err (new "hiddenbrowser: failed to create webview"),
  notify_failure "Couldn't open hidden ReadyApp" l,
)
open_new window x l = hide l.next_window x (created l)

-- Launcher.Open, with what newWebViewFn and excludeFn return
unfoldable pub open_window : Creation → Result (Unit {0}) → Launcher → Result (Unit {0}) × Launcher
open_window c x l = elim l.wv [
  | some w ↦ (ok tt, record l { front = w ∷ l.front })
  | none ↦ open_new c x l
]

pub data Event : Type 0 where
  clicked : Creation → Result (Unit {0}) → Event  -- the tray calls Open
  loop_ends : Event  -- the mentor closes the window
  clears : Event  -- its goroutine takes the mutex and clears `wv`

abbrev ends : List ℕ → Launcher → Launcher
ends [] l = l
ends (w ∷ ws) l = record l { showing = ws; closing = true }

-- One event; it changes nothing where it cannot happen.
unfoldable pub happen : Event → Launcher → Launcher
unfolding open_window
happen (clicked c x) l = (open_window c x l).1
happen loop_ends l = ends l.showing l
happen clears l = if l.closing then record l { wv = none; closing = false } else l

abbrev pub happen_all : List Event → Launcher → Launcher
happen_all [] l = l
happen_all (e ∷ es) l = happen_all es (happen e l)

-- NewLauncher
abbrev pub new_launcher : Launcher
new_launcher = record {
  wv = none;
  showing = [];
  closing = false;
  next_window = 1;
  excluded = [];
  front = [];
  notices = [];
}
