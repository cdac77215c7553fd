-- ===== src/Installerui/Packing/Laws/Records.antt =====
-- That the writes give the layout that Windows reads: the fields one after the other, with nothing in
-- between.
use readyfleet_lightagent.Base.{
  ℕ, suc, ◌+◌, ◌*◌, ◌≡◌, ◌∙◌, refl, sym, ap, true, some, List, [], ◌∷◌, eqb_iff, arith,
}
use readyfleet_lightagent.Base.Lists.{length, all}
use readyfleet_lightagent.Base.Text.{Bytes}
use readyfleet_lightagent.Installerui.Packing.{
  TaskDialogConfig, TaskDialogButton, uint32, writes, marshal, button_writes,
  pack_task_dialog_buttons,
}
use readyfleet_lightagent.Installerui.Packing.Laws.{
  unpack, fits, packed, widths, sum, contiguous, values, put_all-packed, unpack-packed,
  length-packed,
}

-- The widths of the fields of TASKDIALOGCONFIG, in its order.
abbrev pub config_widths : List ℕ
config_widths =
    4 ∷ 8 ∷ 8 ∷ 4 ∷ 4 ∷ 8 ∷ 8 ∷ 8 ∷ 8 ∷ 4 ∷ 8 ∷ 4 ∷ 4 ∷ 8 ∷ 4 ∷ 8 ∷ 8 ∷ 8 ∷ 8 ∷ 8 ∷ 8 ∷ 8 ∷ 8 ∷ 4
    ∷ []

-- Its fields, the size first.
abbrev pub config_fields : TaskDialogConfig → List ℕ
config_fields c =
    160
    ∷ c.hwnd_parent
    ∷ c.h_instance
    ∷ c.dw_flags
    ∷ c.dw_common_buttons
    ∷ c.psz_window_title
    ∷ c.main_icon
    ∷ c.psz_main_instruction
    ∷ c.psz_content
    ∷ c.c_buttons
    ∷ c.p_buttons
    ∷ uint32 c.n_default_button
    ∷ c.c_radio_buttons
    ∷ c.p_radio_buttons
    ∷ uint32 c.n_default_radio_button
    ∷ c.psz_verification_text
    ∷ c.psz_expanded_information
    ∷ c.psz_expanded_control_text
    ∷ c.psz_collapsed_control_text
    ∷ c.footer_icon
    ∷ c.psz_footer
    ∷ c.pf_callback
    ∷ c.lp_callback_data
    ∷ c.cx_width
    ∷ []

-- The configuration of a dialog whose numbers fit their fields is packed into 160 bytes, without a
-- panic, and reading the 24 fields of TASKDIALOGCONFIG one after the other gives them back.
pub config_read_back :
    (c : TaskDialogConfig)
    → all fits (writes c) ≡ true
    → (b : Bytes) × (marshal c ≡ some b)
      × (length b ≡ 160)
      × (unpack config_widths b ≡ config_fields c)
unfolding marshal writes
config_read_back c h = (
  packed (writes c),
  put_all-packed [] (writes c) 160 refl refl,
  length-packed (writes c),
  unpack-packed (writes c) h,
)

pub marshal_total : (c : TaskDialogConfig) → (b : Bytes) × (marshal c ≡ some b)
unfolding marshal writes
marshal_total c = (packed (writes c), put_all-packed [] (writes c) 160 refl refl)

abbrev pub button_widths : List TaskDialogButton → List ℕ
button_widths [] = []
button_widths (b ∷ bs) = 4 ∷ 8 ∷ button_widths bs

abbrev pub button_fields : List TaskDialogButton → List ℕ
button_fields [] = []
button_fields (b ∷ bs) = uint32 b.n_button_id ∷ b.psz_button_text ∷ button_fields bs

buttons-contiguous :
    (i : ℕ) (bs : List TaskDialogButton) → contiguous (i * 12) (button_writes i bs) ≡ true
unfolding button_writes
buttons-contiguous i [] = refl
buttons-contiguous i (b ∷ bs) =
    let rest = buttons-contiguous (suc i) bs in
    let next : i * 12 + 4 + 8 ≡ suc i * 12 = omega arith in
    rw next (ground (arith, eqb_iff (i * 12) (i * 12), eqb_iff (i * 12 + 4) (i * 12 + 4)))

buttons-widths :
    (i : ℕ) (bs : List TaskDialogButton) → widths (button_writes i bs) ≡ button_widths bs
unfolding button_writes
buttons-widths i [] = refl
buttons-widths i (b ∷ bs) = ap (λ r. 4 ∷ 8 ∷ r) (buttons-widths (suc i) bs)

sum-buttons : (bs : List TaskDialogButton) → length bs * 12 ≡ sum (button_widths bs)
sum-buttons [] = refl
sum-buttons (b ∷ bs) = let rest = sum-buttons bs in omega arith

buttons-values :
    (i : ℕ) (bs : List TaskDialogButton) → values (button_writes i bs) ≡ button_fields bs
unfolding button_writes
buttons-values i [] = refl
buttons-values i (b ∷ bs) =
    ap (λ r. uint32 b.n_button_id ∷ b.psz_button_text ∷ r) (buttons-values (suc i) bs)

-- Any number of buttons whose numbers fit is packed into 12 bytes for each, without a panic, and reading
-- an identifier and a pointer for each gives them back in order.
pub buttons_read_back :
    (bs : List TaskDialogButton)
    → all fits (button_writes 0 bs) ≡ true
    → (b : Bytes) × (pack_task_dialog_buttons bs ≡ some b)
      × (length b ≡ length bs * 12)
      × (unpack (button_widths bs) b ≡ button_fields bs)
unfolding pack_task_dialog_buttons
buttons_read_back bs h =
    let ws = button_writes 0 bs in
    let wide = buttons-widths 0 bs in
    let size : length bs * 12 ≡ sum (widths ws) = sum-buttons bs ∙ ap (λ w. sum w) (sym wide) in
    (
      packed ws,
      put_all-packed [] ws (length bs * 12) (buttons-contiguous 0 bs) size,
      length-packed ws ∙ sym size,
      ap (λ w. unpack w (packed ws)) (sym wide) ∙ unpack-packed ws h ∙ buttons-values 0 bs,
    )

pub pack_total : (bs : List TaskDialogButton) → (b : Bytes) × (pack_task_dialog_buttons bs ≡ some b)
unfolding pack_task_dialog_buttons
pack_total bs =
    let ws = button_writes 0 bs in
    (
      packed ws,
      put_all-packed [] ws (length bs * 12) (buttons-contiguous 0 bs)
          (sum-buttons bs ∙ ap (λ w. sum w) (sym (buttons-widths 0 bs))),
    )
