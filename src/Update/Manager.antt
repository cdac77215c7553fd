-- ===== src/Update/Manager.antt =====
-- agent/internal/update/manager.go: validate, download, and hand over to the entrypoint's `ApplyFn`.
pub mod Validation
pub mod Safety
use readyfleet_lightagent.Base.{
  ℕ, ◌*◌, String, Bool, true, false, List, [], ◌∷◌, ◌||◌, ◌&&◌, not, Option, none, some, Result, ok,
  err, new, errorf, wrap, Error, Act, lift, fail, ignore, inspect, guard, ◌>>=◌, ◌>>◌, ◌==◌,
  if◌then◌else◌,
}
use readyfleet_lightagent.Base.Text.{Bytes}
use readyfleet_lightagent.Base.Disk.{Disk, remove}
use readyfleet_lightagent.Proto.{UpdateArgs}
use readyfleet_lightagent.Verify.Hex.{valid_lower_hex256}
use readyfleet_lightagent.Verify.SingleFlight.{SingleFlight, try_begin, end}
use readyfleet_lightagent.Verify.Download.{Machine, DownloadParams, download_verified}
use readyfleet_lightagent.Update.Policy
use readyfleet_lightagent.Update.Policy.{ProductPolicy}

abbrev pub max_download_bytes : ℕ
max_download_bytes = 200 * 1024 * 1024

pub record Config : Type 0 where
  pub allowed_host : String
  pub download_dir : String
  pub policy : ProductPolicy

-- `hostname` is url.Parse followed by Hostname; `apply_fn` is the field `ApplyFn`; `asks_session` says
-- whether `SessionActiveFn` is set.
pub record Manager : Type 0 where
  pub cfg : Config
  pub hostname : String → Result String
  pub apply_fn : Option (String → String → String → Act Disk (Unit {0}))
  pub asks_session : Bool

-- A call of `ApplyFn`, with what its file held then.
pub record Applied : Type 0 where
  pub path : String
  pub content : Option Bytes
  pub version : String
  pub signer_fingerprint : String

-- `sessions` are the answers that `SessionActiveFn` gives from now on, call by call: a session may
-- start or end between two calls. `applied` are the calls of `ApplyFn` made, the last one first.
pub record World : Type 0 where
  pub flight : SingleFlight
  pub disk : Disk
  pub sessions : List Bool
  pub applied : List Applied

-- All fields are there.
abbrev pub has_fields : UpdateArgs → Bool
has_fields a = not (
    a.release_id == ""
    || a.version == ""
    || a.url == ""
    || a.sha256 == ""
    || a.agent_profile == ""
    || a.signer_fingerprint == ""
    || a.product_id == "")

-- The test of the host, from what the policy and url.Parse return.
abbrev pub check_host : Config → Result (Unit {0}) → Result String → Result (Unit {0})
check_host cfg (err e) _ = err e
check_host cfg (ok _) (err e) = err (wrap "update args: bad url: %w" e)
check_host cfg (ok _) (ok host) =
    if not (cfg.allowed_host == "") && not (host == cfg.allowed_host)
    then err (errorf "update args: url host %q not allowed" (host ∷ []))
    else ok tt

-- Manager.validate
unfoldable pub validate : Manager → UpdateArgs → Result (Unit {0})
validate m a =
    if not (has_fields a)
    then err (
        new
          "update args: release_id, version, url, sha256, agent_profile, signer_fingerprint and product_id are required")
    else if not (valid_lower_hex256 a.sha256)
    then err (new "update args: sha256 must be 64 lowercase hexadecimal characters")
    else if not (valid_lower_hex256 a.signer_fingerprint)
    then err (new "update args: signer_fingerprint must be 64 lowercase hexadecimal characters")
    else check_host m.cfg (Policy.validate m.cfg.policy a) (m.hostname a.url)

abbrev pub answer : List Bool → Bool
answer [] = false
answer (b ∷ bs) = b

abbrev pub later : List Bool → List Bool
later [] = []
later (b ∷ bs) = bs

-- m.SessionActiveFn != nil && m.SessionActiveFn(ctx)
unfoldable pub session_active : Manager → Act World Bool
session_active m w =
    if m.asks_session
    then (ok (answer w.sessions), record w { sessions = later w.sessions })
    else (ok false, w)

-- A call on the files alone.
abbrev pub on_disk : {A : Type 0} → Act Disk A → Act World A
on_disk c w = let (r, d) = c w.disk in (r, record w { disk = d })

abbrev pub session_error : Error
session_error =
    new
      "update: a SolarBeam session is currently active on this machine (refusing to restart mid-session)"

-- `_ = os.Remove(path); return e`
abbrev discard : String → Error → Act World (Unit {0})
discard path e = do ignore (on_disk (remove path)); fail e

abbrev run_apply :
    (String → String → String → Act Disk (Unit {0})) → String → UpdateArgs → Act World (Unit {0})
run_apply apply path args w = on_disk (apply path args.version args.signer_fingerprint) (record w {
  applied =
      record {
        path = path;
        content = w.disk.files path;
        version = args.version;
        signer_fingerprint = args.signer_fingerprint;
      }
      ∷ w.applied;
})

abbrev settle : String → Result (Unit {0}) → Act World (Unit {0})
settle path (ok _) = λ w. (ok tt, w)
settle path (err e) = discard path (wrap "apply: %w" e)

-- From the verified download on.
unfoldable pub apply_verified : Manager → UpdateArgs → String → Act World (Unit {0})
unfolding session_active
apply_verified m args path = elim m.apply_fn [
  | none ↦ discard path (new "update: no ApplyFn configured")
  | some apply ↦ (do
    active ← session_active m
    if active
        then discard path session_error
        else inspect (run_apply apply path args) (settle path))
]

abbrev pub params : Manager → UpdateArgs → DownloadParams
params m args = record {
  url = args.url;
  sha256 = args.sha256;
  download_dir = m.cfg.download_dir;
  temp_pattern = "fleet-agent-update-*.exe";
  max_bytes = max_download_bytes;
}

-- What `Update` does between TryBegin and the deferred End.
unfoldable pub update_begun : Machine → Manager → UpdateArgs → Act World (Unit {0})
unfolding session_active
update_begun net m args = do
  lift (validate m args)
  active ← session_active m
  if active
      then fail session_error
      else do path ← on_disk (download_verified net (params m args)); apply_verified m args path

-- Manager.Update
unfoldable pub update : Machine → Manager → UpdateArgs → Act World (Unit {0})
unfolding try_begin end
update net m args w =
    let (begun, flight) = try_begin w.flight in
    let (r, w') = update_begun net m args (record w { flight = flight }) in
    if begun
    then (r, record w' { flight = end w'.flight })
    else (err (new "update already in progress"), w)
