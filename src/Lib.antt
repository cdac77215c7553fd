-- ===== src/Lib.antt =====
-- The ReadyFleet light agent: a program that a mentor runs on a Windows machine. It enrolls the
-- machine with the server, keeps one connection to it, answers the commands that come over it, and
-- starts and stops the SolarBeam engine with its bridge.
--
-- Parts, and the files that model them:
--   Base        the shared names: errors and results, code with a state and early returns (`Act`),
--               texts as bytes, lists over the native numbers, and the files of the machine.
--   Browser     agent/internal/hiddenbrowser: the launcher of the hidden window; Creating is
--               hiddenbrowser_windows.go.
--   Config      agent/internal/config: `load`, `save`, `is_enrolled`, `unmarshal_json`.
--   Enroll      agent/internal/enroll: `enroll`, split into `request_body`, `exchange`, `persist`.
--   Proto       proto/messages.go: constants and payloads; Proto.Envelope the envelopes, Proto.Snapshot
--               the payloads of the inventory and the telemetry.
--   Runtime     agent/internal/runtime: Link is what a handler can reach (machine, connection, clock),
--               Dispatch the routing of a command to its handler.
--   Install     agent/internal/lightinstall: Install and Uninstall over the function fields (`Seams`);
--               Payload is payload.go, Windows the function fields in install_windows.go.
--   Installerui agent/internal/installerui: Packing and Dialog are taskdialog_windows.go, Screens is
--               wizard_windows.go.
--   Light       agent/cmd/lightagent: Handlers is handlers.go, Urls, Startup, Command and Wiring are
--               main.go, Tray is tray.go, Prompt is prompt.go; Inventory is
--               agent/internal/lightinventory.
--   Solarbeam   agent/internal/solarbeam: Manager is manager.go over its function fields (`Seams`),
--               Interactive the interactive part of manager_windows.go over a table of processes,
--               Service and Managed its part for the engine as a service, Archive
--               update_windows.go with its extraction.
--   Svc         agent/internal/svc/service_windows.go: the handler of the Windows service.
--   Transport   agent/internal/transport/client.go: Backoff; Client for Run, connectAndServe and
--               SetPaused; Dialing for tlsConfig and what is dialled; Messages for dispatch;
--               Connection for persistentConn and its pumps.
--   Trayicon    agent/internal/trayicon/tray_windows.go: Labels for the texts of the icon, Messages for the
--               window's callback and the menu, Icons for the handles in Run and SetIconPath, Running
--               for Run as a whole, Waiting for Notify, Opening for OpenURL.
--   Update      agent/internal/update: Policy is profile.go, Manager is manager.go; Swap is
--               agent/cmd/lightagent/update_apply_windows.go, the `ApplyFn` of the light agent.
--   Verify      agent/internal/verify: Download is download.go with its SingleFlight, Hex the test of
--               a digest's shape, Authenticode the signer's pin and authenticode_windows.go.
--   Tests       the properties at concrete inputs.
--
-- How they interact: `run_light_agent` loads the configuration, enrolls where it must, and returns
-- what the client and the updater are made from. The client passes a command to `light_dispatch`,
-- whose handlers call the operations of `Services`, which the managers of Solarbeam and of Update
-- implement. The updaters download by `download_verified`, and let Windows check signatures by
-- `authenticode`. What an enrollment wrote is what `dialing` reads, by way of `client_config`. The
-- installer's `new_manager` fills the function fields that `install` calls in order. A connection
-- request goes through `prompt` to the wizard's `show_welcome`, and on consent to `open_url`.
--
-- How code is modelled: a function that changes a state and may fail is an `Act`; the state that it
-- leaves is kept also where it fails. Each call on files takes the next outcome of a list (it
-- passes, fails, or a write is torn), and theorems range over all such lists. The client is a step
-- relation: its goroutine makes a move, or another goroutine calls SetPaused or cancels the context,
-- in any order. The connection is another step relation: the four pumps and the handlers' goroutines
-- take their turns in any order. The icons of the tray are a third one: the calls of SetIconPath are
-- split at their lock, and interleave with each other and with the end of Run. Durations of the client
-- are int64, with their wrap-around written out.
--
-- Bounds and fuel: the wait for a service's state takes 61 turns as its fuel, since each turn sleeps a
-- quarter of a second of its 15; the wait of Notify takes 152 looks, one for each 20 milliseconds of its
-- 3 seconds; the wait for the agent's first connection takes a turn for each 300 milliseconds of its
-- timeout, two more, and one for each time that `select` prefers the ticker to the expired context.
-- Other loops are over lists and texts. `Run` and the pumps are endless and are modelled by their
-- steps.
--
-- What is a parameter: encoding/json, the cryptography of the standard library, the HTTP client, the
-- clock's ticks, filepath, url.Parse, the reader of archives, what Windows answers about signatures
-- and services, its shell and its dialogs, UTF16FromString, the registry, icacls.exe, and the name that
-- os.CreateTemp picks. Laws on them are hypotheses by name: IsFresh, IsRoundTrip, Encodes, AreApart,
-- IsLaidOut, Terminated. Shell_NotifyIconW is taken to refuse NIM_MODIFY for an icon that it does not
-- have: before NIM_ADD, and after a NIM_DELETE that passed.
--
-- What is not modelled: the service log, which opens a file; the signals of the command's main, which are
-- input and output; the registry's version of Windows, which is a parameter of the inventory; the
-- payloads of terminals and screens, which the light agent has no handler for.
pub mod Base
pub mod Verify
pub mod Proto
pub mod Runtime
pub mod Light
pub mod Solarbeam
pub mod Config
pub mod Transport
pub mod Update
pub mod Enroll
pub mod Install
pub mod Browser
pub mod Trayicon
pub mod Installerui
pub mod Svc
pub mod Tests
