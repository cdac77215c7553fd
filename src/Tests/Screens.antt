-- ===== src/Tests/Screens.antt =====
-- The screens of the installers at concrete inputs.
use readyfleet_lightagent.Base.{
  ℕ, ◌≤◌, ◌⊎◌, ◌↔◌, Bool, true, ◌≡◌, refl, none, some, List, [], ◌∷◌, new, ok, err, arith,
}
use readyfleet_lightagent.Base.Int.{pos}
use readyfleet_lightagent.Base.Text.{Bytes}
use readyfleet_lightagent.Base.Lists.{length, count}
use readyfleet_lightagent.Installerui.Packing.{TaskDialogConfig, writes, marshal}
use readyfleet_lightagent.Installerui.Packing.Laws.{unpack}
use readyfleet_lightagent.Installerui.Packing.Laws.Records.{
  config_widths, config_fields, config_read_back,
}
use readyfleet_lightagent.Installerui.Dialog.{Callbacks, Notification}
use readyfleet_lightagent.Installerui.Dialog.Laws.{tells_created, first_created}
use readyfleet_lightagent.Installerui.Screens.{
  Windows, blank, id_continue, welcome, welcome_buttons, show_welcome, progress, progress_buttons,
  Step, drive, Running, waits, returns, run_with_progress,
}
use readyfleet_lightagent.Installerui.Screens.Laws.{bar, ascends, final, texts, drive-ascends}
use readyfleet_lightagent.Installerui.Screens.Laws.Answers.{
  asked, show_welcome_iff, run_with_progress_returns,
}
use readyfleet_lightagent.Trayicon.Opening.{Opened}
use readyfleet_lightagent.Light.Prompt.{bullets, contact, Shell, show_connection_request}
use readyfleet_lightagent.Light.Prompt.Laws.{request_opens}

abbrev sample : TaskDialogConfig
sample = record blank { dw_flags = 0x208; main_icon = 0xFFFD; cx_width = 300 }

config_read_back_example :
    (b : Bytes) × (marshal sample ≡ some b)
    × (length b ≡ 160)
    × (unpack config_widths b ≡ config_fields sample)
unfolding writes
config_read_back_example = config_read_back sample refl

abbrev created : Notification
created = record { hwnd = 99; msg = 0 }

-- A system that tells that the dialog is created, and where the button Continue is clicked.
abbrev system : Windows
system = record {
  utf16_ptr_from_string = λ s. ok 4096;
  address = λ b. 8192;
  callback = 64;
  indirect = λ b. (created ∷ [], ok (pos 1000));
}

abbrev callbacks : Callbacks
callbacks = record { handles = λ t. none; next = 0 }

once : (b : Bytes) → count tells_created (system.indirect b).0 ≤ 1
once b = omega arith

show_welcome_iff_example :
    (b : Bytes) × (asked system
        (welcome system "Setup" "Install" "It" ("a" ∷ []) "help")
        (welcome_buttons system)
        callbacks
      ≡ some b)
    × (x : Bool) × (c' : Callbacks) × (show_welcome system "Setup" "Install" "It"
          ("a" ∷ [])
          "help"
          callbacks
        ≡ some (x, c'))
    × ((x ≡ true) ↔ ((system.indirect b).1 ≡ ok (pos id_continue)))
    × ((u : ℕ) → c'.handles u ≡ none)
show_welcome_iff_example =
    show_welcome_iff system "Setup" "Install" "It" ("a" ∷ []) "help" callbacks once refl

abbrev steps : List Step
steps =
    record { label = "Verifying"; work = 20; late = 0 }
    ∷ record { label = "Enrolling"; work = 900; late = 3 }
    ∷ []

abbrev installation : Running
installation = record { outcome = err (new "offline"); steps = steps }

run_with_progress_returns_example :
    (b : Bytes) × (asked system (progress system "Setup") (progress_buttons system) callbacks
      ≡ some b)
    × (((h : ℕ) × (first_created (system.indirect b).0 ≡ some h)
          × (run_with_progress system "Setup" (pos 6) installation 0 callbacks
              ≡ returns (err (new "offline")) (drive (pos 6) steps 0)))
        ⊎ ((first_created (system.indirect b).0 ≡ none)
            × (run_with_progress system "Setup" (pos 6) installation 0 callbacks ≡ waits)))
run_with_progress_returns_example =
    run_with_progress_returns system "Setup" (pos 6) installation 0 callbacks once refl

drive-ascends_example :
    (ascends 0 (bar (drive (pos 6) steps 0)) ≡ true)
    × (final 0 (bar (drive (pos 6) steps 0)) ≡ 100)
    × (texts (drive (pos 6) steps 0) ≡ ("Verifying" ∷ "Enrolling" ∷ []))
drive-ascends_example = drive-ascends (pos 6) steps 0

-- A shell that takes what has the scheme https.
abbrev shell : Shell
shell = record {
  parse = λ url. ok "https";
  utf16_from_string = λ t. ok (0 ∷ []);
  returns = λ url. 42;
}

request_opens_example :
    (b : Bytes) × (asked system
        (welcome system "ReadyFleet" "Kim" "asks" bullets contact)
        (welcome_buttons system)
        callbacks
      ≡ some b)
    × (o' : Opened) × (c' : Callbacks) × (show_connection_request system shell "Kim" "asks"
          "https://fleet/r" [] callbacks
        ≡ some (o', c'))
    × ((o' ≡ [])
        ⊎ ((o' ≡ ("https://fleet/r" ∷ []))
            × ((system.indirect b).1 ≡ ok (pos id_continue))
            × (shell.parse "https://fleet/r" ≡ ok "https")))
request_opens_example =
    request_opens system shell "Kim" "asks" "https://fleet/r" [] callbacks once refl
