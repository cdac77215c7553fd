-- ===== src/Installerui/Dialog.antt =====
-- agent/internal/installerui/taskdialog_windows.go: the handles of the dialogs, the callback that finds
-- them, and runTaskDialog.
pub mod Laws
use readyfleet_lightagent.Base.{
  ℕ, zero, suc, ◌+◌, Bool, true, false, Option, none, some, List, [], ◌∷◌, Error, wrap, Result, ok,
  err, eqb, if◌then◌else◌,
}
use readyfleet_lightagent.Base.Int.{ℤ}
use readyfleet_lightagent.Base.Text.{Bytes}
use readyfleet_lightagent.Installerui.Packing.{TaskDialogConfig, marshal}

-- dialogHandle: the window, and whether `ready` is closed.
pub record DialogHandle : Type 0 where
  pub hwnd : ℕ
  pub is_ready : Bool

abbrev pub new_dialog_handle : DialogHandle
new_dialog_handle = record { hwnd = 0; is_ready = false }

abbrev closing : Bool → DialogHandle → Option DialogHandle
closing true d = none
closing false d = some (record d { is_ready = true })

-- set; none is the panic of closing a channel that is closed
unfoldable pub set : ℕ → DialogHandle → Option DialogHandle
set hwnd d = closing d.is_ready (record d { hwnd = hwnd })

-- get, where it does not wait for ever
unfoldable pub get : DialogHandle → Option ℕ
get d = if d.is_ready then some d.hwnd else none

-- callbackHandles and nextCallbackToken
pub record Callbacks : Type 0 where
  pub handles : ℕ → Option DialogHandle
  pub next : ℕ

abbrev pub stored : (ℕ → Option DialogHandle) → ℕ → Option DialogHandle → ℕ → Option DialogHandle
stored f t v u = if eqb t u then v else f u

-- registerCallback
unfoldable pub register_callback : DialogHandle → Callbacks → ℕ × Callbacks
register_callback h c =
    let token = suc c.next in
    (token, record { handles = stored c.handles token (some h); next = token })

-- unregisterCallback
unfoldable pub unregister_callback : ℕ → Callbacks → Callbacks
unregister_callback token c = record c { handles = stored c.handles token none }

abbrev pub tdn_created : ℕ
tdn_created = 0

abbrev created_at : ℕ → ℕ → Option DialogHandle → Callbacks → Option Callbacks
created_at hwnd token none c = some c
created_at hwnd token (some h) c = elim (set hwnd h) [
  | none ↦ none
  | some h' ↦ some (record c { handles = stored c.handles token (some h') })
]

-- taskDialogCallback; none is a panic
unfoldable pub task_dialog_callback : ℕ → ℕ → ℕ → Callbacks → Option Callbacks
unfolding set
task_dialog_callback hwnd msg token c =
    if eqb msg tdn_created then created_at hwnd token (c.handles token) c else some c

-- A notification of a dialog: its window and what it tells.
pub record Notification : Type 0 where
  pub hwnd : ℕ
  pub msg : ℕ

abbrev then_notified : Option Callbacks → ℕ → Notification → Option Callbacks
then_notified none token n = none
then_notified (some c) token n = task_dialog_callback n.hwnd n.msg token c

-- The notifications of a dialog, the latest first.
unfoldable pub notified : List Notification → ℕ → Callbacks → Option Callbacks
unfolding task_dialog_callback
notified [] token c = some c
notified (n ∷ ns) token c = then_notified (notified ns token c) token n

-- TaskDialogIndirect: the configuration's bytes to the notifications it makes (the latest first), and
-- the button clicked, or its error.
abbrev pub TaskDialogIndirect : Type 0
TaskDialogIndirect = Bytes → List Notification × Result ℤ

-- The configuration with the callback and the token.
abbrev pub with_callback : ℕ → ℕ → TaskDialogConfig → TaskDialogConfig
with_callback callback token cfg = record cfg { pf_callback = callback; lp_callback_data = token }

abbrev pub clicked : Result ℤ → Result ℤ
clicked (ok button) = ok button
clicked (err e) = err (wrap "taskdialogindirect: %w" e)

abbrev pub handle_of : Option DialogHandle → Option ℕ
handle_of none = none
handle_of (some h) = get h

-- What a dialog ends with: its button or error, and the window that onCreated was called with.
pub record Ended : Type 0 where
  pub result : Result ℤ
  pub created : Option ℕ
  pub callbacks : Callbacks

abbrev shown : ℕ → Result ℤ → Option Callbacks → Option Ended
shown token r none = none
shown token r (some c) = some (record {
  result = clicked r;
  created = handle_of (c.handles token);
  callbacks = unregister_callback token c;
})

abbrev called : ℕ → Callbacks → TaskDialogIndirect → Option Bytes → Option Ended
called token c indirect none = none
called token c indirect (some bytes) =
    let (notes, r) = indirect bytes in shown token r (notified notes token c)

-- runTaskDialog; none is a panic
unfoldable pub run_task_dialog :
    ℕ → TaskDialogIndirect → TaskDialogConfig → Callbacks → Option Ended
run_task_dialog callback indirect cfg c =
    let (token, c') = register_callback new_dialog_handle c in
    called token c' indirect (marshal (with_callback callback token cfg))
