-- ===== src/Light/Prompt.antt =====
-- agent/cmd/lightagent/prompt.go: the dialog that asks about a connection request.
pub mod Laws
use readyfleet_lightagent.Base.{
  ℕ, String, Bool, true, false, Option, none, some, List, [], ◌∷◌, Result, ◌==◌, if◌then◌else◌,
}
use readyfleet_lightagent.Installerui.Dialog.{Callbacks}
use readyfleet_lightagent.Installerui.Screens.{Windows, show_welcome}
use readyfleet_lightagent.Trayicon.Labels.{Units}
use readyfleet_lightagent.Trayicon.Opening.{Opened, open_url}

abbrev pub connection_request_kind : String
connection_request_kind = "connection_request"

abbrev pub bullets : List String
bullets =
    "You choose whether to allow it — nothing connects until you do"
    ∷ "Opens your devices page, where you can accept or decline"
    ∷ "If you ignore this, the request expires on its own" ∷ []

abbrev pub contact : String
contact = "Questions or concerns? Contact readyapp@player-ready.co.uk."

-- wizardPrompter.Prompt
unfoldable pub prompt : Windows → String → String → Callbacks → Option (Bool × Callbacks)
prompt w title body c = show_welcome w "ReadyFleet" title body bullets contact c

-- What OpenURL is given: url.Parse for the scheme, UTF16FromString and ShellExecuteW.
pub record Shell : Type 0 where
  pub parse : String → Result String
  pub utf16_from_string : String → Result Units
  pub returns : String → ℕ

-- What follows the answer; an error of OpenURL is only logged.
abbrev pub answer : Shell → String → Bool → Opened → Opened
answer s url false o = o
answer s url true o =
    if url == "" then o else (open_url s.parse s.utf16_from_string s.returns url o).1

abbrev pub answering :
    Shell → String → Opened → Option (Bool × Callbacks) → Option (Opened × Callbacks)
answering s url o none = none
answering s url o (some (x, c)) = some (answer s url x o, c)

-- The goroutine of showConnectionRequest, to its end; none is a panic
unfoldable pub show_connection_request :
    Windows → Shell → String → String → String → Opened → Callbacks → Option (Opened × Callbacks)
unfolding prompt
show_connection_request w s title body url o c = answering s url o (prompt w title body c)
