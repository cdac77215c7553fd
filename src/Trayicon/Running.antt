-- ===== src/Trayicon/Running.antt =====
-- agent/internal/trayicon/tray_windows.go: Run from its window's class to its deferred calls.
pub mod Laws
use readyfleet_lightagent.Base.{
  ℕ, zero, suc, ◌+◌, ◌-◌, String, Bool, true, false, not, Option, none, some, List, [], ◌∷◌, ◌++◌,
  Error, wrap, Result, ok, err, Act, pure, fail, lift, gets, modify, guard, catch, ◌>>=◌, ◌>>◌,
  ◌==◌,
}
use readyfleet_lightagent.Trayicon.{Icon, MenuItem, TrayState, Tray}
use readyfleet_lightagent.Trayicon.Labels.{Units}
use readyfleet_lightagent.Trayicon.Icons.{
  Phase, refused, ended, Icons, first_icon, Move, prepared, steps,
}
use readyfleet_lightagent.Trayicon.Messages.{Action, wnd_proc}

-- What the calls on Windows return: none is success.
pub record Calls : Type 0 where
  pub register : Option Error
  pub create : Option Error
  pub hwnd : ℕ
  pub system_icon : Icon
  pub load : Option Error

-- The process: a tray, registerOnce with registerErr, how many windows are open, whether trayByHwnd has
-- the tray's window, and the icons destroyed.
pub record Desk : Type 0 where
  pub tray : Tray
  pub registered : Option (Option Error)
  pub windows : ℕ
  pub routed : Bool
  pub destroyed : List Icon

abbrev pub failing : String → Option Error → Result (Unit {0})
failing text none = ok tt
failing text (some e) = err (wrap text e)

-- registerOnce.Do
abbrev pub once : Option Error → Option (Option Error) → Option Error
once r none = r
once r (some kept) = kept

-- registerWindowClass
unfoldable pub register_window_class : Option Error → Act Desk (Unit {0})
register_window_class r d =
    let kept = once r d.registered in
    (failing "RegisterClassExW: %w" kept, record d { registered = some kept })

-- createMessageWindow
unfoldable pub create_message_window : Option Error → Act Desk (Unit {0})
create_message_window (some e) d = (err (wrap "CreateWindowExW: %w" e), d)
create_message_window none d = (ok tt, record d { windows = suc d.windows })

-- t.state = ts, and the entry of trayByHwnd
abbrev pub publish : Icons → Desk → Desk
publish s d = record d { tray = record d.tray { state = some s.tray }; routed = true }

-- trayByHwnd.Delete and DestroyWindow
abbrev pub close_window : Desk → Desk
close_window d = record d { windows = d.windows - 1; routed = false }

-- Run up to NIM_ADD.
unfoldable pub set_up : Calls → List MenuItem → Act Desk Icons
unfolding register_window_class create_message_window
set_up c items = do
  register_window_class c.register
  create_message_window c.create
  path ← gets (λ (d : Desk). not (d.tray.icon_path == ""))
  let icons = prepared c.hwnd items (first_icon path c.load c.system_icon)
  modify (publish icons)
  pure icons

abbrev pub left : Icons → Desk → Desk
left s d = close_window (record d {
  tray = record d.tray { state = some s.tray };
  destroyed = s.destroyed ++ d.destroyed;
})

-- The end of Run where NIM_ADD fails, and the deferred calls, once NIM_DELETE has returned and the
-- current icon is destroyed.
abbrev unwind : Phase → Icons → Desk → Option (Result (Unit {0}) × Desk)
unwind ended s d = some (ok tt, left s d)
unwind (refused e) s d = some (err (wrap "Shell_NotifyIconW(%d): %w" e), left s d)
unwind _ s d = none

abbrev looping : List Move → Result Icons × Desk → Option (Result (Unit {0}) × Desk)
looping ms (err e, d) = some (err e, d)
looping ms (ok icons, d) = elim (steps ms icons) [ none ↦ none | some s ↦ unwind s.phase s d ]

-- Run, over the moves of the icons until it returns; none where it has not.
unfoldable pub run : Calls → List MenuItem → List Move → Desk → Option (Result (Unit {0}) × Desk)
unfolding set_up
run c items ms d = looping ms (set_up c items d)

-- What GetMessageW returns: a message (whether CreatePopupMenu would return a menu, the message and its
-- two parameters), 0 on WM_QUIT, or -1.
pub data Got : Type 0 where
  got : Bool → ℕ → ℕ → ℕ → Got
  quits : Got
  fails : Got

abbrev acted :
    List Action → Option (List Action × Option TrayState) → Option (List Action × Option TrayState)
acted actions none = none
acted actions (some (more, ts)) = some (actions ++ more, ts)

-- The message loop of Run; none where it still waits.
unfoldable pub pump :
    (String → Result Units) → List Got → Option TrayState → Option (List Action × Option TrayState)
unfolding wnd_proc
pump utf16_from_string [] ts = none
pump utf16_from_string (got created message w l ∷ rest) ts =
    let (actions, ts') = wnd_proc utf16_from_string created message w l ts in
    acted actions (pump utf16_from_string rest ts')
pump utf16_from_string (quits ∷ rest) ts = some ([], ts)
pump utf16_from_string (fails ∷ rest) ts = some ([], ts)

-- init: SetProcessDpiAwarenessContext where the system has it and it succeeds, else SetProcessDPIAware
-- where the system has it.
pub data DpiCall : Type 0 where
  set_process_dpi_awareness_context : DpiCall
  set_process_dpi_aware : DpiCall

abbrev older : Bool → List DpiCall
older true = set_process_dpi_aware ∷ []
older false = []

unfoldable pub init_calls : Bool → Bool → Bool → List DpiCall
init_calls true true has_older = set_process_dpi_awareness_context ∷ []
init_calls true false has_older = set_process_dpi_awareness_context ∷ older has_older
init_calls false succeeds has_older = older has_older
