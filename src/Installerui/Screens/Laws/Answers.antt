-- ===== src/Installerui/Screens/Laws/Answers.antt =====
-- What the screens of the wizard return.
use readyfleet_lightagent.Base.{
  ℕ, suc, ◌≤◌, ◌≡◌, ◌∙◌, ◌↔◌, ◌⊎◌, inl, inr, ap, Bool, true, String, Option, none, some, List,
  Result, ok, err, eqb_iff, arith, Option-cases,
}
use readyfleet_lightagent.Base.Int.{ℤ, pos, negsuc}
use readyfleet_lightagent.Base.Lists.{count}
use readyfleet_lightagent.Base.Text.{Bytes}
use readyfleet_lightagent.Installerui.Packing.{
  TaskDialogConfig, TaskDialogButton, marshal, pack_task_dialog_buttons,
}
use readyfleet_lightagent.Installerui.Packing.Laws.Records.{marshal_total, pack_total}
use readyfleet_lightagent.Installerui.Dialog.{Callbacks, Ended, with_callback, clicked}
use readyfleet_lightagent.Installerui.Dialog.Laws.{
  tells_created, first_created, run_task_dialog_ends,
}
use readyfleet_lightagent.Installerui.Screens.{
  Windows, id_continue, dialog, welcome, welcome_buttons, continues, answered, show_welcome,
  progress, progress_buttons, Running, waits, returns, driven, progressed, drive, run_with_progress,
}

-- The bytes that Windows is called with for a screen.
abbrev marshaled : Windows → TaskDialogConfig → Callbacks → Option Bytes → Option Bytes
marshaled w cfg c none = none
marshaled w cfg c (some packed) =
    marshal (with_callback w.callback (suc c.next) (record cfg { p_buttons = w.address packed }))

abbrev pub asked : Windows → TaskDialogConfig → List TaskDialogButton → Callbacks → Option Bytes
asked w cfg buttons c = marshaled w cfg c (pack_task_dialog_buttons buttons)

-- How a screen ends, for the bytes that Windows was called with.
abbrev Ends : Windows → Callbacks → Bytes → Ended → Type 0
Ends w c b t =
    (t.result ≡ clicked (w.indirect b).1)
    × (t.created ≡ first_created (w.indirect b).0)
    × ((u : ℕ) → t.callbacks.handles u ≡ c.handles u)

dialog-Ends :
    (w : Windows) (cfg : TaskDialogConfig) (buttons : List TaskDialogButton) (c : Callbacks)
    → ((b : Bytes) → count tells_created (w.indirect b).0 ≤ 1)
    → c.handles (suc c.next) ≡ none
    → (b : Bytes) × (asked w cfg buttons c ≡ some b)
      × (t : Ended) × (dialog w cfg c (pack_task_dialog_buttons buttons) ≡ some t)
      × Ends w c b t
dialog-Ends w cfg buttons c once free =
    let (packed, e) = pack_total buttons in
    let cfg' = record cfg { p_buttons = w.address packed } in
    let (b, f) = marshal_total (with_callback w.callback (suc c.next) cfg') in
    let (t, g, r, o, h) = run_task_dialog_ends w.callback w.indirect cfg' c b free f (once b) in
    (b, rw e f, t, rw e g, (r, o, h))

continues_iff : (r : Result ℤ) → (continues (clicked r) ≡ true) ↔ (r ≡ ok (pos id_continue))
continues_iff (ok (pos n)) = ground (arith, eqb_iff n 1000)
continues_iff (ok (negsuc n)) = ((λ h. absurd (ground arith)), (λ h. absurd (ground arith)))
continues_iff (err e) = ((λ h. absurd (ground arith)), (λ h. absurd (ground arith)))

-- Where Windows tells at most once that a dialog is created and the next token is free, ShowWelcome
-- returns without a panic: true exactly when Windows reports the button Continue, so that the other
-- button, the closed window and an error are all a refusal; and the callbacks are as before.
pub show_welcome_iff :
    (w : Windows) (title main_instruction content : String) (bullets : List String)
    (contact : String) (c : Callbacks)
    → ((b : Bytes) → count tells_created (w.indirect b).0 ≤ 1)
    → c.handles (suc c.next) ≡ none
    → (b : Bytes) × (asked w
          (welcome w title main_instruction content bullets contact)
          (welcome_buttons w)
          c
        ≡ some b)
      × (x : Bool) × (c' : Callbacks) × (show_welcome w title main_instruction content bullets
            contact c
          ≡ some (x, c'))
      × ((x ≡ true) ↔ ((w.indirect b).1 ≡ ok (pos id_continue)))
      × ((u : ℕ) → c'.handles u ≡ c.handles u)
unfolding show_welcome
show_welcome_iff w title main_instruction content bullets contact c once free =
    let cfg = welcome w title main_instruction content bullets contact in
    let (b, e, t, f, (r, o, h)) = dialog-Ends w cfg (welcome_buttons w) c once free in
    (
      b,
      e,
      continues (clicked (w.indirect b).1),
      t.callbacks,
      ap (λ x. answered x) f ∙ ap (λ x. some (continues x, t.callbacks)) r,
      continues_iff (w.indirect b).1,
      h,
    )

-- Where Windows tells at most once that a dialog is created and the next token is free, RunWithProgress
-- returns the installation's own result, after all that is sent to the dialog, when Windows tells that
-- the dialog is created; when Windows never tells it, RunWithProgress waits for ever.
pub run_with_progress_returns :
    (w : Windows) (title : String) (total : ℤ) (r : Running) (now : ℕ) (c : Callbacks)
    → ((b : Bytes) → count tells_created (w.indirect b).0 ≤ 1)
    → c.handles (suc c.next) ≡ none
    → (b : Bytes) × (asked w (progress w title) (progress_buttons w) c ≡ some b)
      × (((h : ℕ) × (first_created (w.indirect b).0 ≡ some h)
            × (run_with_progress w title total r now c
                ≡ returns r.outcome (drive total r.steps now)))
          ⊎ ((first_created (w.indirect b).0 ≡ none)
              × (run_with_progress w title total r now c ≡ waits)))
unfolding run_with_progress
run_with_progress_returns w title total r now c once free =
    let (b, e, t, f, (x, o, h)) =
      dialog-Ends w (progress w title) (progress_buttons w) c once free in
    let whole = ap (λ y. progressed total r now y) f ∙ ap (λ y. driven total r now y) o in
    (
      b,
      e,
      elim (Option-cases (first_created (w.indirect b).0)) [
        | inl g ↦ inr (g, whole ∙ ap (λ y. driven total r now y) g)
        | inr (k, g) ↦ inl (k, g, whole ∙ ap (λ y. driven total r now y) g)
      ],
    )
