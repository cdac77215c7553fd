-- ===== src/Trayicon.antt =====
-- Package agent/internal/trayicon (tray_windows.go): the icon in the system tray, its menu and its
-- notifications. Here are the types that its parts share.
pub mod Labels
pub mod Icons
pub mod Messages
pub mod Waiting
pub mod Opening
pub mod Running
use readyfleet_lightagent.Base.{ℕ, Bool, String, Option, List}
use readyfleet_lightagent.Base.Int.{ℤ}

-- A handle of an icon: 0, the system's own icon, or the n-th that LoadImageW returned.
pub data Icon : Type 0 where
  null : Icon
  stock : Icon
  loaded : ℕ → Icon

-- A callback, named by a number.
abbrev pub Handler : Type 0
Handler = ℕ

pub record MenuItem : Type 0 where
  pub id : ℤ
  pub label : String
  pub checked : Bool
  pub disabled : Bool
  pub separator : Bool
  pub on_click : Option Handler

pub record TrayState : Type 0 where
  pub hwnd : ℕ
  pub icon_added : Bool
  pub h_icon : Icon
  pub owns_h_icon : Bool
  pub items : List MenuItem
  pub notify_click_handler : Option Handler

pub record Tray : Type 0 where
  pub tooltip : String
  pub icon_path : String
  pub state : Option TrayState
