-- ===== src/Installerui/Packing.antt =====
-- agent/internal/installerui/taskdialog_windows.go: the bytes of TASKDIALOGCONFIG and
-- TASKDIALOG_BUTTON.
pub mod Laws
use readyfleet_lightagent.Base.{
  ℕ, zero, suc, ◌+◌, ◌-◌, ◌*◌, ◌/◌, ◌%◌, ◌^◌, Option, none, some, List, [], ◌∷◌,
}
use readyfleet_lightagent.Base.Int.{ℤ, pos, negsuc}
use readyfleet_lightagent.Base.Lists.{length}
use readyfleet_lightagent.Base.Text.{Bytes}

-- taskDialogConfig; pointers and handles are numbers of 64 bits.
pub record TaskDialogConfig : Type 0 where
  pub hwnd_parent : ℕ
  pub h_instance : ℕ
  pub dw_flags : ℕ
  pub dw_common_buttons : ℕ
  pub psz_window_title : ℕ
  pub main_icon : ℕ
  pub psz_main_instruction : ℕ
  pub psz_content : ℕ
  pub c_buttons : ℕ
  pub p_buttons : ℕ
  pub n_default_button : ℤ
  pub c_radio_buttons : ℕ
  pub p_radio_buttons : ℕ
  pub n_default_radio_button : ℤ
  pub psz_verification_text : ℕ
  pub psz_expanded_information : ℕ
  pub psz_expanded_control_text : ℕ
  pub psz_collapsed_control_text : ℕ
  pub footer_icon : ℕ
  pub psz_footer : ℕ
  pub pf_callback : ℕ
  pub lp_callback_data : ℕ
  pub cx_width : ℕ

-- uint32 of an int32
abbrev pub uint32 : ℤ → ℕ
uint32 (pos n) = n % 2 ^ 32
uint32 (negsuc n) = 2 ^ 32 - 1 - n % 2 ^ 32

-- make([]byte, n)
abbrev pub zeros : ℕ → Bytes
zeros zero = []
zeros (suc n) = 0 ∷ zeros n

-- The w bytes of a number, the lowest first.
abbrev pub little_endian : ℕ → ℕ → Bytes
little_endian zero v = []
little_endian (suc w) v = v % 256 ∷ little_endian w (v / 256)

abbrev pub prefixed : ℕ → Option Bytes → Option Bytes
prefixed b none = none
prefixed b (some bs) = some (b ∷ bs)

abbrev pub over : Bytes → Bytes → Option Bytes
over [] buf = some buf
over (b ∷ bs) [] = none
over (b ∷ bs) (x ∷ buf) = prefixed b (over bs buf)

-- Bytes put into a buffer at an offset; none is the panic where they do not fit.
abbrev pub put : ℕ → Bytes → Bytes → Option Bytes
put zero bs buf = over bs buf
put (suc n) bs [] = none
put (suc n) bs (x ∷ buf) = prefixed x (put n bs buf)

-- A write of PutUint32 or PutUint64: where, how many bytes, and the number.
pub record Write : Type 0 where
  pub offset : ℕ
  pub width : ℕ
  pub value : ℕ

abbrev put_uint32 : ℕ → ℕ → Write
put_uint32 o v = record { offset = o; width = 4; value = v }

abbrev put_uint64 : ℕ → ℕ → Write
put_uint64 o v = record { offset = o; width = 8; value = v }

abbrev then_put : Option Bytes → Write → Option Bytes
then_put none w = none
then_put (some buf) w = put w.offset (little_endian w.width w.value) buf

-- The writes one after the other.
abbrev pub put_all : List Write → Option Bytes → Option Bytes
put_all [] buf = buf
put_all (w ∷ ws) buf = put_all ws (then_put buf w)

abbrev pub task_dialog_config_size : ℕ
task_dialog_config_size = 160

unfoldable pub writes : TaskDialogConfig → List Write
writes c =
    put_uint32 0 task_dialog_config_size
    ∷ put_uint64 4 c.hwnd_parent
    ∷ put_uint64 12 c.h_instance
    ∷ put_uint32 20 c.dw_flags
    ∷ put_uint32 24 c.dw_common_buttons
    ∷ put_uint64 28 c.psz_window_title
    ∷ put_uint64 36 c.main_icon
    ∷ put_uint64 44 c.psz_main_instruction
    ∷ put_uint64 52 c.psz_content
    ∷ put_uint32 60 c.c_buttons
    ∷ put_uint64 64 c.p_buttons
    ∷ put_uint32 72 (uint32 c.n_default_button)
    ∷ put_uint32 76 c.c_radio_buttons
    ∷ put_uint64 80 c.p_radio_buttons
    ∷ put_uint32 88 (uint32 c.n_default_radio_button)
    ∷ put_uint64 92 c.psz_verification_text
    ∷ put_uint64 100 c.psz_expanded_information
    ∷ put_uint64 108 c.psz_expanded_control_text
    ∷ put_uint64 116 c.psz_collapsed_control_text
    ∷ put_uint64 124 c.footer_icon
    ∷ put_uint64 132 c.psz_footer
    ∷ put_uint64 140 c.pf_callback
    ∷ put_uint64 148 c.lp_callback_data
    ∷ put_uint32 156 c.cx_width
    ∷ []

-- marshal
unfoldable pub marshal : TaskDialogConfig → Option Bytes
unfolding writes
marshal c = put_all (writes c) (some (zeros task_dialog_config_size))

-- taskDialogButton
pub record TaskDialogButton : Type 0 where
  pub n_button_id : ℤ
  pub psz_button_text : ℕ

abbrev pub task_dialog_button_size : ℕ
task_dialog_button_size = 12

-- The writes of the loop from its i-th turn on.
unfoldable pub button_writes : ℕ → List TaskDialogButton → List Write
button_writes i [] = []
button_writes i (b ∷ bs) =
    let off = i * task_dialog_button_size in
    put_uint32 off (uint32 b.n_button_id)
    ∷ put_uint64 (off + 4) b.psz_button_text
    ∷ button_writes (suc i) bs

-- packTaskDialogButtons
unfoldable pub pack_task_dialog_buttons : List TaskDialogButton → Option Bytes
unfolding button_writes
pack_task_dialog_buttons buttons =
    put_all (button_writes 0 buttons) (some (zeros (length buttons * task_dialog_button_size)))
