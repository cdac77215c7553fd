-- ===== src/Installerui/Screens.antt =====
-- agent/internal/installerui/wizard_windows.go: the screens of the wizard.
pub mod Laws
use Prim.Native.Nat.{max}
use readyfleet_lightagent.Base.{
  ℕ, zero, suc, ◌+◌, ◌-◌, ◌*◌, ◌/◌, String, ◌<>◌, Bool, true, false, not, ◌&&◌, Option, none, some,
  List, [], ◌∷◌, ◌++◌, Error, Result, ok, err, eqb, ltb, if◌then◌else◌, ◌==◌,
}
use readyfleet_lightagent.Base.Int.{ℤ, pos, negsuc}
use readyfleet_lightagent.Base.Text.{Bytes}
use readyfleet_lightagent.Installerui.Packing.{
  TaskDialogConfig, TaskDialogButton, pack_task_dialog_buttons,
}
use readyfleet_lightagent.Installerui.Dialog.{Callbacks, Ended, TaskDialogIndirect, run_task_dialog}

-- What the screens are given: UTF16PtrFromString, where a slice of bytes lies in memory, the callback's
-- address, and TaskDialogIndirect.
pub record Windows : Type 0 where
  pub utf16_ptr_from_string : String → Result ℕ
  pub address : Bytes → ℕ
  pub callback : ℕ
  pub indirect : TaskDialogIndirect

-- utf16OrNil
unfoldable pub utf16_or_nil : (String → Result ℕ) → String → ℕ
utf16_or_nil ptr s = if s == "" then 0 else (elim (ptr s) [ err e ↦ 0 | ok p ↦ p ])

abbrev pub id_ok : ℕ
id_ok = 1

abbrev pub id_cancel : ℕ
id_cancel = 2

abbrev pub id_continue : ℕ
id_continue = 1000

abbrev tdf_allow_dialog_cancellation : ℕ
tdf_allow_dialog_cancellation = 0x0008

abbrev tdf_expanded_by_default : ℕ
tdf_expanded_by_default = 0x0080

abbrev tdf_show_progress_bar : ℕ
tdf_show_progress_bar = 0x0200

abbrev tdf_size_to_content : ℕ
tdf_size_to_content = 0x01000000

abbrev pub td_information_icon : ℕ
td_information_icon = 0xFFFD

abbrev pub td_error_icon : ℕ
td_error_icon = 0xFFFE

-- The configuration that sets no field.
abbrev pub blank : TaskDialogConfig
blank = record {
  hwnd_parent = 0;
  h_instance = 0;
  dw_flags = 0;
  dw_common_buttons = 0;
  psz_window_title = 0;
  main_icon = 0;
  psz_main_instruction = 0;
  psz_content = 0;
  c_buttons = 0;
  p_buttons = 0;
  n_default_button = pos 0;
  c_radio_buttons = 0;
  p_radio_buttons = 0;
  n_default_radio_button = pos 0;
  psz_verification_text = 0;
  psz_expanded_information = 0;
  psz_expanded_control_text = 0;
  psz_collapsed_control_text = 0;
  footer_icon = 0;
  psz_footer = 0;
  pf_callback = 0;
  lp_callback_data = 0;
  cx_width = 0;
}

abbrev button : Windows → ℕ → String → TaskDialogButton
button w id text = record {
  n_button_id = pos id;
  psz_button_text = utf16_or_nil w.utf16_ptr_from_string text;
}

-- strings.Join
abbrev pub join : String → List String → String
join sep [] = ""
join sep (s ∷ []) = s
join sep (s ∷ t ∷ ts) = s <> sep <> join sep (t ∷ ts)

abbrev pub dialog : Windows → TaskDialogConfig → Callbacks → Option Bytes → Option Ended
dialog w cfg c none = none
dialog w cfg c (some packed) =
    run_task_dialog w.callback w.indirect (record cfg { p_buttons = w.address packed }) c

-- The configuration of ShowWelcome, less its buttons' address.
unfoldable pub welcome :
    Windows → String → String → String → List String → String → TaskDialogConfig
unfolding utf16_or_nil
welcome w title main_instruction content bullets contact =
    let text = utf16_or_nil w.utf16_ptr_from_string in
    record blank {
      dw_flags = tdf_allow_dialog_cancellation + tdf_expanded_by_default + tdf_size_to_content;
      psz_window_title = text title;
      main_icon = td_information_icon;
      psz_main_instruction = text main_instruction;
      psz_content = text content;
      c_buttons = 2;
      n_default_button = pos id_continue;
      psz_expanded_information = text ("• " <> join "\n• " bullets);
      psz_expanded_control_text = text "Hide details";
      psz_collapsed_control_text = text "What will this be able to do?";
      footer_icon = td_information_icon;
      psz_footer = text contact;
    }

abbrev pub continues : Result ℤ → Bool
continues (ok (pos n)) = eqb n id_continue
continues _ = false

abbrev pub answered : Option Ended → Option (Bool × Callbacks)
answered none = none
answered (some t) = some (continues t.result, t.callbacks)

abbrev pub welcome_buttons : Windows → List TaskDialogButton
welcome_buttons w = button w id_continue "Continue" ∷ button w id_cancel "Cancel" ∷ []

-- ShowWelcome; none is a panic
unfoldable pub show_welcome :
    Windows
    → String
    → String
    → String
    → List String
    → String
    → Callbacks
    → Option (Bool × Callbacks)
show_welcome w title main_instruction content bullets contact c = answered (
    dialog w (welcome w title main_instruction content bullets contact) c
      (pack_task_dialog_buttons (welcome_buttons w)))

-- The configuration of ShowResult, less its button's address.
unfoldable pub result : Windows → String → Bool → String → String → TaskDialogConfig
result w title success headline detail =
    let text = utf16_or_nil w.utf16_ptr_from_string in
    record blank {
      dw_flags = tdf_allow_dialog_cancellation + tdf_size_to_content;
      psz_window_title = text title;
      main_icon = if success then td_information_icon else td_error_icon;
      psz_main_instruction = text headline;
      psz_content = text detail;
      c_buttons = 1;
      n_default_button = pos id_ok;
    }

abbrev closed : Option Ended → Option Callbacks
closed none = none
closed (some t) = some t.callbacks

-- ShowResult; none is a panic
unfoldable pub show_result :
    Windows → String → Bool → String → String → Callbacks → Option Callbacks
show_result w title success headline detail c = closed (
    dialog w (result w title success headline detail) c
      (pack_task_dialog_buttons (button w id_ok "Close" ∷ [])))

-- sendMessage to the dialog's window: what is set; text is setElementText
pub data Sent : Type 0 where
  enable_button : ℕ → ℕ → Sent
  progress_bar_range : ℕ → ℕ → Sent
  progress_bar_pos : ℕ → Sent
  element_text : ℕ → String → Sent
  click_button : ℕ → Sent

-- milliseconds
abbrev pub min_step_display : ℕ
min_step_display = 600

-- What report keeps between its calls, and the clock in milliseconds.
pub record Pace : Type 0 where
  pub step_count : ℕ
  pub last_shown : ℕ
  pub clock : ℕ

-- A call of report: its label, the time since the last call, and how much longer than asked the sleep
-- lasts.
pub record Step : Type 0 where
  pub label : String
  pub work : ℕ
  pub late : ℕ

-- The position of the progress bar.
unfoldable pub position : ℤ → ℕ → ℕ
position (pos total) count = if ltb 0 total && ltb count total then count * 100 / total else 100
position (negsuc n) count = 100

abbrev slept : ℕ → ℕ → ℕ
slept elapsed late = if ltb elapsed min_step_display then min_step_display - elapsed + late else 0

-- report
unfoldable pub report : ℤ → Step → Pace → List Sent × Pace
unfolding position
report total s p =
    let reached = p.clock + s.work in
    let shown = reached + slept (reached - p.last_shown) s.late in
    let count = suc p.step_count in
    (
      progress_bar_pos (position total count) ∷ element_text 0 s.label ∷ [],
      record { step_count = count; last_shown = shown; clock = shown },
    )

abbrev pub reports : ℤ → List Step → Pace → List Sent
reports total [] p = []
reports total (s ∷ ss) p = let (sent, p') = report total s p in sent ++ reports total ss p'

-- What is sent to the dialog from its creation on, where run calls report as told.
unfoldable pub drive : ℤ → List Step → ℕ → List Sent
unfolding report
drive total steps now =
    enable_button id_ok 0
    ∷ progress_bar_range 0 100
    ∷ (reports total steps (record { step_count = 0; last_shown = now; clock = now })
        ++ (progress_bar_pos 100 ∷ click_button id_ok ∷ []))

-- The configuration of RunWithProgress, less its button's address.
unfoldable pub progress : Windows → String → TaskDialogConfig
progress w title =
    let text = utf16_or_nil w.utf16_ptr_from_string in
    record blank {
      dw_flags = tdf_show_progress_bar + tdf_size_to_content;
      psz_window_title = text title;
      main_icon = td_information_icon;
      psz_main_instruction = text "Installing…";
      psz_content = text "Starting…";
      c_buttons = 1;
      n_default_button = pos id_ok;
    }

-- run: what it returns, and its calls of report.
pub record Running : Type 0 where
  pub outcome : Result (Unit {0})
  pub steps : List Step

-- What RunWithProgress does: it panics, waits for `runDone` for ever, or returns run's error after what
-- it sent.
pub data Progress : Type 0 where
  panics : Progress
  waits : Progress
  returns : Result (Unit {0}) → List Sent → Progress

abbrev pub driven : ℤ → Running → ℕ → Option ℕ → Progress
driven total r now none = waits
driven total r now (some hwnd) = returns r.outcome (drive total r.steps now)

abbrev pub progressed : ℤ → Running → ℕ → Option Ended → Progress
progressed total r now none = panics
progressed total r now (some t) = driven total r now t.created

abbrev pub progress_buttons : Windows → List TaskDialogButton
progress_buttons w = button w id_ok "Please wait…" ∷ []

-- RunWithProgress: `<-runDone` ends only where onCreated has started run. `now` is the time of its
-- start.
unfoldable pub run_with_progress : Windows → String → ℤ → Running → ℕ → Callbacks → Progress
run_with_progress w title total r now c =
    progressed total r now
      (dialog w (progress w title) c (pack_task_dialog_buttons (progress_buttons w)))
