-- ===== src/Trayicon/Messages.antt =====
-- agent/internal/trayicon/tray_windows.go: what the window of the icon does with the messages that it
-- gets, its menu, and the calls that change what it shows.
pub mod Laws
use readyfleet_lightagent.Base.{
  ℕ, ◌+◌, ◌%◌, String, Bool, true, false, ◌&&◌, Option, none, some, List, [], ◌∷◌, ◌++◌, Error,
  Result, ok, err, eqb, ltb, if◌then◌else◌, ◌==◌,
}
use readyfleet_lightagent.Base.Int.{ℤ, pos}
use readyfleet_lightagent.Trayicon.{Handler, MenuItem, TrayState, Tray}
use readyfleet_lightagent.Trayicon.Labels.{
  NotifyIconData, Units, wm_tray_callback, build_nid, build_notify_nid,
}

abbrev pub wm_destroy : ℕ
wm_destroy = 0x0002

abbrev pub wm_command : ℕ
wm_command = 0x0111

abbrev pub wm_l_button_up : ℕ
wm_l_button_up = 0x0202

abbrev pub wm_r_button_up : ℕ
wm_r_button_up = 0x0205

abbrev pub nin_balloon_hide : ℕ
nin_balloon_hide = 0x0403

abbrev pub nin_balloon_timeout : ℕ
nin_balloon_timeout = 0x0404

abbrev pub nin_balloon_user_click : ℕ
nin_balloon_user_click = 0x0405

-- Shell_NotifyIconW's messages
abbrev pub nim_add : ℕ
nim_add = 0

abbrev pub nim_modify : ℕ
nim_modify = 1

abbrev pub nim_delete : ℕ
nim_delete = 2

-- The calls on Windows, and the goroutines started.
pub data Action : Type 0 where
  goes : Handler → Action  -- go handler()
  append_menu : ℕ → ℤ → Option String → Action
  set_foreground_window : ℕ → Action
  track_popup_menu : ℕ → Action
  destroy_menu : Action
  post_message : ℕ → ℕ → Action
  post_quit_message : Action
  def_window_proc : ℕ → ℕ → ℕ → Action
  shell_notify_icon : ℕ → NotifyIconData → Action

abbrev pub mf_checked : ℕ
mf_checked = 8

abbrev pub mf_disabled : ℕ
mf_disabled = 2

abbrev pub mf_separator : ℕ
mf_separator = 0x800

-- The flags stand on bits of their own, so that `|=` adds them.
unfoldable pub menu_flags : MenuItem → ℕ
menu_flags it =
    (if it.separator then mf_separator else 0)
    + (if it.checked then mf_checked else 0)
    + (if it.disabled then mf_disabled else 0)

-- utf16OrNil, as the text that it points to; UTF16PtrFromString is the argument
abbrev pub utf16_or_nil : (String → Result Units) → String → Option String
utf16_or_nil utf16_from_string s =
    if s == "" then none else (elim (utf16_from_string s) [ err e ↦ none | ok u ↦ some s ])

abbrev appended : (String → Result Units) → List MenuItem → List Action
appended utf16_from_string [] = []
appended utf16_from_string (it ∷ items) =
    append_menu (menu_flags it) it.id (utf16_or_nil utf16_from_string it.label)
    ∷ appended utf16_from_string items

-- showMenu; `created` tells whether CreatePopupMenu returned a menu
unfoldable pub show_menu : (String → Result Units) → Bool → TrayState → List Action
show_menu utf16_from_string false ts = []
show_menu utf16_from_string true ts =
    appended utf16_from_string ts.items
    ++ (set_foreground_window ts.hwnd
        ∷ track_popup_menu ts.hwnd
        ∷ post_message ts.hwnd 0
        ∷ destroy_menu
        ∷ [])

abbrev pub same_id : ℤ → ℕ → Bool
same_id (pos n) m = eqb n m
same_id _ m = false

abbrev pub loword : ℕ → ℕ
loword v = v % 0x10000

abbrev pub started : Option Handler → List Action
started none = []
started (some h) = goes h ∷ []

-- The loop over the items on WM_COMMAND.
unfoldable pub chosen : ℕ → List MenuItem → Option Handler
chosen id [] = none
chosen id (it ∷ items) =
    let rest = chosen id items in
    elim it.on_click [ none ↦ rest | some h ↦ if same_id it.id id then some h else rest ]

-- The switch on lParam of a message of the tray.
unfoldable pub tray_callback :
    (String → Result Units) → Bool → ℕ → TrayState → List Action × TrayState
unfolding show_menu
tray_callback utf16_from_string created l ts =
    if eqb l wm_l_button_up
    then (show_menu utf16_from_string created ts, ts)
    else if eqb l wm_r_button_up
    then (show_menu utf16_from_string created ts, ts)
    else if eqb l nin_balloon_user_click
    then (started ts.notify_click_handler, record ts { notify_click_handler = none })
    else if eqb l nin_balloon_hide
    then ([], record ts { notify_click_handler = none })
    else if eqb l nin_balloon_timeout
    then ([], record ts { notify_click_handler = none })
    else ([], ts)

-- wndProc for a window that trayByHwnd knows
unfoldable pub dispatch :
    (String → Result Units) → Bool → ℕ → ℕ → ℕ → TrayState → List Action × TrayState
unfolding tray_callback chosen
dispatch utf16_from_string created message w l ts =
    if eqb message wm_tray_callback
    then tray_callback utf16_from_string created l ts
    else if eqb message wm_command
    then (started (chosen (loword w) ts.items), ts)
    else if eqb message wm_destroy
    then (post_quit_message ∷ [], ts)
    else (def_window_proc message w l ∷ [], ts)

-- wndProc, over what trayByHwnd holds for the window
unfoldable pub wnd_proc :
    (String → Result Units) → Bool → ℕ → ℕ → ℕ → Option TrayState → List Action × Option TrayState
unfolding dispatch
wnd_proc utf16_from_string created message w l none = (def_window_proc message w l ∷ [], none)
wnd_proc utf16_from_string created message w l (some ts) =
    let (actions, ts') = dispatch utf16_from_string created message w l ts in (actions, some ts')

-- SetTooltip
unfoldable pub set_tooltip : (String → Result Units) → String → Tray → List Action × Tray
unfolding build_nid
set_tooltip utf16_from_string s t = elim t.state [
  | none ↦ ([], t)
  | some ts ↦ (
    shell_notify_icon nim_modify (build_nid utf16_from_string ts s) ∷ [],
    record t { tooltip = s },
  )
]

-- SetMenuItems
unfoldable pub set_menu_items : List MenuItem → Tray → Tray
set_menu_items items t = elim t.state [
  | none ↦ t
  | some ts ↦ record t { state = some (record ts { items = items }) }
]

-- Quit
unfoldable pub quit : Tray → List Action
quit t = elim t.state [ none ↦ [] | some ts ↦ post_message ts.hwnd wm_destroy ∷ [] ]

-- Notify once the state is there: the handler is kept before the shell is called.
unfoldable pub notifying :
    (String → Result Units)
    → String
    → String
    → ℕ
    → Option Handler
    → TrayState
    → List Action × TrayState
unfolding build_notify_nid
notifying utf16_from_string title body severity on_click ts =
    let ts' = record ts { notify_click_handler = on_click } in
    (
      shell_notify_icon nim_modify (build_notify_nid utf16_from_string ts' title body severity)
          ∷ [],
      ts',
    )
