-- ===== src/Trayicon/Labels.antt =====
-- agent/internal/trayicon/tray_windows.go: the record NOTIFYICONDATAW that the shell is called with,
-- whose texts are buffers of fixed lengths.
pub mod Laws
use Prim.Native.Nat.{min}
use readyfleet_lightagent.Base.{
  ℕ, zero, suc, ◌+◌, String, List, [], ◌∷◌, Result, ok, err, eqb, if◌then◌else◌,
}
use readyfleet_lightagent.Base.Lists.{length}
use readyfleet_lightagent.Trayicon.{Icon, TrayState}

-- []uint16
abbrev pub Units : Type 0
Units = List ℕ

-- NOTIFYICONDATAW, less the fields that no call sets
pub record NotifyIconData : Type 0 where
  pub cb_size : ℕ
  pub hwnd : ℕ
  pub u_id : ℕ
  pub u_flags : ℕ
  pub u_callback_message : ℕ
  pub h_icon : Icon
  pub sz_tip : Units
  pub sz_info : Units
  pub sz_info_title : Units
  pub dw_info_flags : ℕ

abbrev pub nif_message : ℕ
nif_message = 1

abbrev pub nif_icon : ℕ
nif_icon = 2

abbrev pub nif_tip : ℕ
nif_tip = 4

abbrev pub nif_info : ℕ
nif_info = 16

abbrev pub wm_tray_callback : ℕ
wm_tray_callback = 0x8000 + 1

-- The size of NOTIFYICONDATAW on amd64.
abbrev pub notify_icon_data_size : ℕ
notify_icon_data_size = 976

abbrev pub zeros : ℕ → Units
zeros zero = []
zeros (suc n) = 0 ∷ zeros n

-- copy(dst, src), which returns the smaller of the two lengths
abbrev pub copied : Units → Units → Units
copied [] src = []
copied (d ∷ ds) [] = d ∷ ds
copied (d ∷ ds) (s ∷ ss) = s ∷ copied ds ss

-- dst[len(dst)-1] = 0
abbrev pub clear_last : Units → Units
clear_last [] = []
clear_last (x ∷ []) = 0 ∷ []
clear_last (x ∷ y ∷ ys) = x ∷ clear_last (y ∷ ys)

-- The buffer of a given length that a text is copied into; the text is what UTF16FromString returns.
unfoldable pub buffer : ℕ → Result Units → Units
buffer n (err e) = zeros n
buffer n (ok u) =
    let dst = copied (zeros n) u in if eqb (min n (length u)) n then clear_last dst else dst

-- buildNID
unfoldable pub build_nid : (String → Result Units) → TrayState → String → NotifyIconData
build_nid utf16_from_string ts tooltip = record {
  cb_size = notify_icon_data_size;
  hwnd = ts.hwnd;
  u_id = 1;
  u_flags = nif_message + nif_icon + nif_tip;
  u_callback_message = wm_tray_callback;
  h_icon = ts.h_icon;
  sz_tip = buffer 128 (utf16_from_string tooltip);
  sz_info = zeros 256;
  sz_info_title = zeros 64;
  dw_info_flags = 0;
}

-- buildNotifyNID
unfoldable pub build_notify_nid :
    (String → Result Units) → TrayState → String → String → ℕ → NotifyIconData
build_notify_nid utf16_from_string ts title body icon_flag = record {
  cb_size = notify_icon_data_size;
  hwnd = ts.hwnd;
  u_id = 1;
  u_flags = nif_message + nif_icon + nif_info;
  u_callback_message = wm_tray_callback;
  h_icon = ts.h_icon;
  sz_tip = zeros 128;
  sz_info = buffer 256 (utf16_from_string body);
  sz_info_title = buffer 64 (utf16_from_string title);
  dw_info_flags = icon_flag;
}
