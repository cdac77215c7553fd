-- ===== src/Light/Tray.antt =====
-- agent/cmd/lightagent/tray.go: what the tray shows, and its toggle of the connection.
pub mod Laws
use readyfleet_lightagent.Base.{
  ◌≡◌, String, ◌<>◌, Bool, true, false, not, ◌&&◌, Option, none, some, List, [], ◌∷◌, Error, Result,
  ok, err, Act, is_ok, ◌>>◌, ◌==◌, if◌then◌else◌,
}
use readyfleet_lightagent.Base.Text.{Bytes}
use readyfleet_lightagent.Base.Disk.{Disk, touch, write_file}
use readyfleet_lightagent.Solarbeam.Manager.{Status}
use readyfleet_lightagent.Transport.Client.{Client, Move, Stats, set_paused, step, new_client}

-- trayTooltip
abbrev conn_line : Bool → String
conn_line true = "Connected"
conn_line false = "Not connected"

abbrev solarbeam_line : Status → String
solarbeam_line s =
    if s.running
    then "SolarBeam: running"
      <> (if s.engine_version == "" then "" else " (v" <> s.engine_version <> ")")
    else "SolarBeam: not running"

unfoldable pub tray_tooltip : String → Stats → Status → String
tray_tooltip agent_version stats sb =
    "ReadyFleet Light Agent v"
    <> agent_version
    <> "\n"
    <> conn_line stats.connected
    <> "\n"
    <> solarbeam_line sb

-- writeTrayIcons, over the two paths and the embedded icons
unfoldable pub write_tray_icons : String → String → Bytes → Bytes → Disk → (String × String) × Disk
write_tray_icons connected offline connected_data offline_data d =
    let (r, d') =
      (touch >> write_file connected connected_data >> write_file offline offline_data) d in
    (if is_ok r then (connected, offline) else ("", ""), d')

-- What the tray keeps: the variable `paused` of the menu, the icon and the texts that it shows,
-- `lastConnected` of the ticker's goroutine, and the client that both reach.
pub record LightTray : Type 0 where
  pub client : Client
  pub paused : Bool
  pub icon : String
  pub tooltip : String
  pub toggle_label : String
  pub last_connected : Bool

-- The icons' paths as writeTrayIcons returned them, and the version.
pub record Assets : Type 0 where
  pub connected_icon : String
  pub offline_icon : String
  pub version : String

abbrev pub toggle_text : Bool → String
toggle_text true = "Reconnect"
toggle_text false = "Disconnect"

-- newLightTray, and runTrayIcon before its first tick
unfoldable pub new_light_tray : Assets → Client → LightTray
new_light_tray a c = record {
  client = c;
  paused = false;
  icon = a.connected_icon;
  tooltip = "";
  toggle_label = toggle_text false;
  last_connected = false;
}

-- OnClick of the toggle
unfoldable pub toggle : LightTray → LightTray
toggle t = record t { paused = not t.paused; client = set_paused (not t.paused) t.client }

-- SetIconPath, whose error is dropped
abbrev shown : Option Error → String → LightTray → LightTray
shown none path t = record t { icon = path }
shown (some e) path t = t

-- A tick of the goroutine of runTrayIcon.
unfoldable pub tick : Assets → Option Error → Status → LightTray → LightTray
unfolding tray_tooltip
tick a f sb t =
    let t' = record t {
      tooltip = tray_tooltip a.version t.client.stats sb;
      toggle_label = toggle_text t.paused;
    } in
    let connected = t.client.stats.connected in
    let changed = if connected then not t.last_connected else t.last_connected in
    if changed && not (a.connected_icon == "") && not (a.offline_icon == "")
    then shown f (if connected then a.connected_icon else a.offline_icon)
        (record t' { last_connected = connected })
    else t'

pub data Event : Type 0 where
  click : Event
  ticks : Option Error → Status → Event
  moves : Move → Event  -- the client's own

-- SetPaused is called by the toggle alone.
abbrev pub is_pause : Move → Bool
is_pause (Move.pause _) = true
is_pause _ = false

abbrev moved : LightTray → Option Client → Option LightTray
moved t none = none
moved t (some c) = some (record t { client = c })

unfoldable pub happen : Assets → Event → LightTray → Option LightTray
unfolding toggle tick
happen a click t = some (toggle t)
happen a (ticks f sb) t = some (tick a f sb t)
happen a (moves m) t = if is_pause m then none else moved t (step m t.client)

-- The trays that events lead to.
pub data Reach (a : Assets) (t : LightTray) : LightTray → Type 0 where
  here : Reach a t t
  onward : {u v : LightTray} (e : Event) → Reach a t u → happen a e u ≡ some v → Reach a t v
