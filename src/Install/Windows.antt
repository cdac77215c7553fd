-- ===== src/Install/Windows.antt =====
-- agent/internal/lightinstall/install_windows.go: what the function fields of Manager do on Windows.
pub mod Waiting
pub mod Laws
use Prim.Native.Nat.{min}
use readyfleet_lightagent.Base.{
  ℕ, zero, suc, ◌+◌, ◌*◌, ◌/◌, String, ◌<>◌, Bool, true, false, not, ◌&&◌, ◌||◌, Option, none, some,
  List, [], ◌∷◌, Error, new, errorf, wrap, not_exist, Result, ok, err, Act, pure, fail, lift, gets,
  modify, catch, inspect, guard, ◌>>=◌, ◌>>◌, ◌==◌, ltb, eqb, if◌then◌else◌,
}
use readyfleet_lightagent.Base.Lists.{length}
use readyfleet_lightagent.Base.Text.{Bytes, bytes, bytes_eq}
use readyfleet_lightagent.Base.Disk.{Disk, read_file, update}
use readyfleet_lightagent.Config
use readyfleet_lightagent.Config.{Json, zero_config, save}
use readyfleet_lightagent.Enroll.{Platform, Options, Enrolled, enroll}
use readyfleet_lightagent.Verify.Hex.{valid_lower_hex256, encode_to_string}
use readyfleet_lightagent.Verify.Authenticode
use readyfleet_lightagent.Light.Urls.{strip_first, before, slash}
use readyfleet_lightagent.Install.{Paths, Seams}

-- What the calls on the registry fail with, if they fail.
pub record Registry : Type 0 where
  pub create_key : Option Error
  pub set_string_value : Option Error
  pub open_key : Option Error
  pub delete_value : Option Error

-- The machine: its files, the value of the Run key, the lines of icacls.exe that have run, the agents
-- that were started, and a clock in milliseconds. `appended` is what the log holds before each look at
-- it, where it changes; `late` is how much later than asked each wait ends; `picks` are the choices of
-- `select` where both cases are ready (true for the ticker; past the end, the other one).
pub record Machine : Type 0 where
  pub disk : Disk
  pub run_value : Option String
  pub acls : List (List String)
  pub started : List String
  pub clock : ℕ
  pub appended : List (Option Bytes)
  pub late : List ℕ
  pub picks : List Bool

-- What the build and the system give: the two values of ldflags, crypto/sha256, WinVerifyTrust with
-- what belongs to it, the parts of an enrollment with an empty inventory, the name of the user,
-- icacls.exe, the registry, os/exec for the agent, and its subcommand `unlink`.
pub record Build (I : Type 0) : Type 1 where
  pub expected_agent_sha256 : String
  pub expected_signer_fingerprint : String
  pub sha256 : Bytes → Bytes
  pub trust : Authenticode.Windows
  pub os : Platform I
  pub no_inventory : I
  pub json : Json
  pub user : Result String
  pub icacls : List String → Result (Unit {0})
  pub registry : Registry
  pub start : String → Result (Unit {0})
  pub unlink : String → Act Machine (Unit {0})

pub record LightConfig : Type 0 where
  pub server_url : String
  pub paths : Paths

abbrev pub on_disk : {A : Type 0} → Act Disk A → Act Machine A
on_disk c m = let (r, d) = c m.disk in (r, record m { disk = d })

abbrev pub calling : Option Error → (Machine → Machine) → Act Machine (Unit {0})
calling none f m = (ok tt, f m)
calling (some e) f m = (err e, m)

-- err == registry.ErrNotExist
abbrev pub is_err_not_exist : Error → Bool
is_err_not_exist not_exist = true
is_err_not_exist _ = false

abbrev pub run_value_of : String → String
run_value_of agent_exe_path = "\"" <> agent_exe_path <> "\""

-- deriveEnrollmentURL
unfoldable pub derive_enrollment_url : String → String
derive_enrollment_url server_url =
    "https://"
    <> before slash (strip_first ("wss://" ∷ "ws://" ∷ "https://" ∷ "http://" ∷ []) server_url)
    <> "/enroll/v1/redeem"

-- Config{} with what an enrollment returned
abbrev pub enrolled_config : String → Enrolled → Config.Config
enrolled_config server_url res = record zero_config {
  server_url = if not (res.agent_listen_url == "") then res.agent_listen_url else server_url;
  machine_id = res.machine_id;
  venue_id = res.venue_id;
  cert_path = res.cert_path;
  key_path = res.key_path;
  ca_path = res.ca_path;
}

-- bytes.HasPrefix(s, p)
abbrev has_prefix : Bytes → Bytes → Bool
has_prefix [] s = true
has_prefix (x ∷ p) [] = false
has_prefix (x ∷ p) (y ∷ s) = eqb x y && has_prefix p s

-- bytes.Contains(s, p)
abbrev pub contains : Bytes → Bytes → Bool
contains [] p = has_prefix p []
contains (x ∷ s) p = has_prefix p (x ∷ s) || contains s p

abbrev pub connected_log_marker : Bytes
connected_log_marker = bytes "\"msg\":\"agent connected\""

-- milliseconds
abbrev pub poll_interval : ℕ
poll_interval = 300

abbrev pub connect_healthcheck_timeout : ℕ
connect_healthcheck_timeout = 20 * 1000

abbrev pub rest {ℓ} : {A : Type ℓ} → List A → List A
rest [] = []
rest (x ∷ xs) = xs

abbrev pub lateness : List ℕ → ℕ
lateness [] = 0
lateness (t ∷ ts) = t

abbrev pub appending : List (Option Bytes) → String → Disk → Disk
appending (some b ∷ bs) path d = record d { files = update d.files path (some b) }
appending _ path d = d

-- os.ReadFile of the log, as the agent has left it by then
unfoldable pub look : String → Act Machine Bytes
look path m =
    on_disk (read_file path)
      (record m { disk = appending m.appended path m.disk; appended = rest m.appended })

abbrev pub reports : Result Bytes → Bool
reports (ok b) = contains b connected_log_marker
reports (err e) = false

abbrev pub waited : Machine → Machine
waited m = record m { clock = m.clock + poll_interval + lateness m.late; late = rest m.late }

abbrev pub ticks : List Bool → Bool
ticks (true ∷ _) = true
ticks _ = false

-- The loop of waitForAgentConnected; none where the fuel ends.
unfoldable pub poll : ℕ → ℕ → String → Machine → Option (Bool × Machine)
unfolding look
poll zero deadline path m = none
poll (suc n) deadline path m =
    let m1 = (look path m).1 in
    let m2 = waited m1 in
    let next = poll n deadline path m2 in
    let picked = poll n deadline path (record m2 { picks = rest m2.picks }) in
    elim (reports (look path m).0) [
      | true ↦ some (true, m1)
      | false ↦ elim (ltb m2.clock deadline) [
        | true ↦ next
        | false ↦ elim (ticks m2.picks) [
          | true ↦ picked
          | false ↦ some (false, record m2 { picks = rest m2.picks })
        ]
      ]
    ]

-- A turn for each tick before the deadline, and one for each choice of the ticker after it.
abbrev pub enough_turns : ℕ → Machine → ℕ
enough_turns timeout m = timeout / poll_interval + 2 + length m.picks

-- The deadline of the context made by context.WithTimeout, whose parent may end earlier.
abbrev pub deadline_of : Option ℕ → ℕ → Machine → ℕ
deadline_of none timeout m = m.clock + timeout
deadline_of (some t) timeout m = min t (m.clock + timeout)

abbrev pub seen : Option (Bool × Machine) → Machine → Result (Unit {0}) × Machine
seen none m = (err (new "no result"), m)
seen (some (true, m')) m = (ok tt, m')
seen (some (false, m')) m =
    (err (errorf "agent did not report a successful connection within %s (check %s)" []), m')

-- waitForAgentConnected
unfoldable pub wait_for_agent_connected : Option ℕ → String → ℕ → Act Machine (Unit {0})
wait_for_agent_connected ctx path timeout m =
    seen (poll (enough_turns timeout m) (deadline_of ctx timeout m) path m) m

module _ {I : Type 0} (b : Build I) where
  -- verifyBundledAgent; the file is opened and hashed in one read, whose error is that of the open
  unfoldable pub verify_bundled_agent : String → Act Machine (Unit {0})
  verify_bundled_agent exe_path = do
    guard
        (valid_lower_hex256 b.expected_agent_sha256
          && valid_lower_hex256 b.expected_signer_fingerprint)
        (new
          "build is not properly signed/pinned (expected_agent_sha256/expected_signer_fingerprint unset)")
    content ← catch (on_disk (read_file exe_path)) (λ e. fail (wrap "open bundled agent: %w" e))
    guard (bytes_eq (encode_to_string (b.sha256 content)) (bytes b.expected_agent_sha256))
        (errorf "bundled agent sha256 mismatch: got %s want %s" (b.expected_agent_sha256 ∷ []))
    file ← gets (λ (m : Machine). m.disk.files exe_path)
    catch (lift (Authenticode.authenticode b.trust exe_path file b.expected_signer_fingerprint))
        (λ e. fail (wrap "authenticode: %w" e))

  -- protectKeyACL
  unfoldable pub protect_key_acl : String → Act Machine (Unit {0})
  protect_key_acl key_path = do
    username ← catch (lift b.user) (λ e. fail (wrap "resolve current user: %w" e))
    let line = key_path ∷ "/inheritance:r" ∷ "/grant:r" ∷ (username <> ":F") ∷ []
    catch (lift (b.icacls line)) (λ e. fail (wrap "icacls: %v: %s" e))
    modify (λ (m : Machine). record m { acls = line ∷ m.acls })

  -- registerLogonStartup
  unfoldable pub register_logon_startup : String → Act Machine (Unit {0})
  register_logon_startup agent_exe_path = do
    catch (calling b.registry.create_key (λ m. m)) (λ e. fail (wrap "open Run key: %w" e))
    catch
        (calling b.registry.set_string_value
          (λ m. record m { run_value = some (run_value_of agent_exe_path) }))
        (λ e. fail (wrap "set Run value: %w" e))

  abbrev pub delete_run_value : Act Machine (Unit {0})
  delete_run_value m = elim m.run_value [
    | none ↦ (err not_exist, m)
    | some v ↦ calling b.registry.delete_value (λ n. record n { run_value = none }) m
  ]

  abbrev unless_missing : String → Error → Act Machine (Unit {0})
  unless_missing text e = if is_err_not_exist e then pure tt else fail (wrap text e)

  abbrev deleting : Result (Unit {0}) → Act Machine (Unit {0})
  deleting (ok _) = catch delete_run_value (unless_missing "delete Run value: %w")
  deleting (err e) = unless_missing "open Run key: %w" e

  -- removeLogonStartup
  unfoldable pub remove_logon_startup : Act Machine (Unit {0})
  remove_logon_startup = inspect (calling b.registry.open_key (λ m. m)) deleting

  abbrev pub options : LightConfig → String → Options I
  options cfg token = record {
    enrollment_url = derive_enrollment_url cfg.server_url;
    bearer_secret = token;
    agent_version = "";
    inventory = b.no_inventory;
    material_dir = cfg.paths.root;
    http_client = none;
    insecure = false;
  }

  -- enrollLight; the payload is its token
  unfoldable pub enroll_light : LightConfig → String → Act Machine (Unit {0})
  enroll_light cfg token = do
    res ← on_disk (enroll b.os (options cfg token))
    on_disk (save b.json cfg.paths.config_path (enrolled_config cfg.server_url res))

  -- startAgentOnce
  unfoldable pub start_agent_once : String → Act Machine (Unit {0})
  start_agent_once agent_exe_path = do
    catch (lift (b.start agent_exe_path)) (λ e. fail (wrap "start agent: %w" e))
    modify (λ (m : Machine). record m { started = agent_exe_path ∷ m.started })

  -- unlinkOnline
  unfoldable pub unlink_online : String → Act Machine (Unit {0})
  unlink_online agent_exe_path =
      catch (b.unlink agent_exe_path) (λ e. fail (wrap "lightagent unlink: %v: %s" e))

  -- New, for an install
  unfoldable pub new_manager :
      LightConfig
      → Option ℕ
      → (String → Act Machine (Unit {0}))
      → (String → Act Machine (Unit {0}))
      → Seams Machine String
  new_manager cfg ctx remove_all write_tombstone = record {
    verify_agent = verify_bundled_agent;
    protect_key = protect_key_acl;
    register_task = register_logon_startup;
    remove_task = remove_logon_startup;
    enroll = enroll_light cfg;
    start_agent = start_agent_once;
    wait_for_connected = λ path. wait_for_agent_connected ctx path connect_healthcheck_timeout;
    unlink_online = unlink_online;
    remove_all = remove_all;
    write_tombstone = write_tombstone;
  }
