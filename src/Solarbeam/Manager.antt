-- ===== src/Solarbeam/Manager.antt =====
-- agent/internal/solarbeam/manager.go: the manager over its seams. Each method runs under the mutex
-- for its whole length, so each is one step.
pub mod Laws
use readyfleet_lightagent.Base.{
  String, Bool, true, false, ◌||◌, not, [], ◌∷◌, Error, new, errorf, wrap, Result, ok, err, Act,
  fail, lift, catch, guard, ◌>>=◌, ◌>>◌, ◌==◌, if◌then◌else◌,
}
use readyfleet_lightagent.Proto.{SolarbeamStartArgs, SolarbeamEngineUpdateArgs}
use readyfleet_lightagent.Verify.Hex.{valid_lower_hex256}

-- The function fields of Manager, over a machine: prepareFn, launchFn, engineFn, stopFn, statusFn,
-- applyUpdateFn and fileVersionFn.
pub record Seams (S : Type 0) : Type 0 where
  pub prepare : Act S (Unit {0})
  pub launch : SolarbeamStartArgs → Act S (Unit {0})
  pub engine : SolarbeamStartArgs → Act S (Unit {0})
  pub stop : Act S (Unit {0})
  pub is_running : S → Bool
  pub apply_update : SolarbeamEngineUpdateArgs → Act S (Unit {0})
  pub file_version : S → Result String

pub record Managed (S : Type 0) : Type 0 where
  pub host : S
  pub last_updated_version : String

pub record Status : Type 0 where
  pub running : Bool
  pub engine_version : String

abbrev pub engine_product_id : String
engine_product_id = "solarbeam-engine"

abbrev pub has_fields : SolarbeamEngineUpdateArgs → Bool
has_fields a = not (
    a.release_id == ""
    || a.version == ""
    || a.url == ""
    || a.sha256 == ""
    || a.signer_fingerprint == ""
    || a.product_id == "")

-- validateUpdateArgs
unfoldable pub validate_update_args : SolarbeamEngineUpdateArgs → Result (Unit {0})
validate_update_args a =
    if not (has_fields a)
    then err (
        new
          "solarbeam engine update args: release_id, version, url, sha256, signer_fingerprint and product_id are required")
    else if not (valid_lower_hex256 a.sha256)
    then err
        (new "solarbeam engine update args: sha256 must be 64 lowercase hexadecimal characters")
    else if not (valid_lower_hex256 a.signer_fingerprint)
    then err (
        new
          "solarbeam engine update args: signer_fingerprint must be 64 lowercase hexadecimal characters")
    else if not (a.product_id == engine_product_id)
    then err (errorf "solarbeam engine update args: product_id must be %q" (engine_product_id ∷ []))
    else ok tt

abbrev pub known_version : Result String → String → String
known_version (ok v) last = if v == "" then last else v
known_version (err e) last = last

module _ {S : Type 0} (m : Seams S) where
  abbrev pub on_host : {A : Type 0} → Act S A → Act (Managed S) A
  on_host c s = let (r, h) = c s.host in (r, record s { host = h })

  -- Manager.Start
  unfoldable pub start : SolarbeamStartArgs → Act (Managed S) (Unit {0})
  start args = do
    catch (on_host m.prepare) (λ e. fail (wrap "engine: %w" e))
    catch (on_host (m.launch args)) (λ e. fail (wrap "bridge launch: %w" e))
    catch (on_host (m.engine args)) (λ e. fail (wrap "engine: %w" e))

  -- Manager.Stop
  unfoldable pub stop : Act (Managed S) (Unit {0})
  stop = catch (on_host m.stop) (λ e. fail (wrap "stop: %w" e))

  -- Manager.Status
  unfoldable pub status : Managed S → Status
  status s = record {
    running = m.is_running s.host;
    engine_version = known_version (m.file_version s.host) s.last_updated_version;
  }

  -- Manager.Update
  unfoldable pub update : SolarbeamEngineUpdateArgs → Act (Managed S) (Unit {0})
  update args = do
    lift (validate_update_args args)
    λ s.
        guard (not (m.is_running s.host))
          (new "solarbeam engine update: engine is running (stop the session first)") s
    on_host (m.apply_update args)
    λ s. (ok tt, record s { last_updated_version = args.version })
