-- ===== src/Config.antt =====
-- agent/internal/config/config.go: the configuration on disk.
pub mod Saving
use readyfleet_lightagent.Base.{
  String, Bool, true, false, ◌&&◌, not, Error, wrap, is_not_exist, Result, ok, err, Act, pure, fail,
  lift, inspect, catch, ◌>>=◌, ◌>>◌, ◌==◌, if◌then◌else◌,
}
use readyfleet_lightagent.Base.Text.{Bytes}
use readyfleet_lightagent.Base.Disk.{Disk, write_file, read_file, rename, temporary}

pub record Config : Type 0 where
  pub server_url : String
  pub enrollment_url : String
  pub enrollment_secret : String
  pub intended_label : String
  pub cert_path : String
  pub key_path : String
  pub ca_path : String
  pub machine_id : String
  pub venue_id : String

-- Config{}
abbrev pub zero_config : Config
zero_config = record {
  server_url = "";
  enrollment_url = "";
  enrollment_secret = "";
  intended_label = "";
  cert_path = "";
  key_path = "";
  ca_path = "";
  machine_id = "";
  venue_id = "";
}

-- encoding/json at this type: `fields` reads the members of Config by their own keys, and `legacy`
-- the member `venue_api_key`, "" where there is none.
pub record Json : Type 0 where
  pub marshal_indent : Config → Result Bytes
  pub fields : Bytes → Result Config
  pub legacy : Bytes → String

-- Config.IsEnrolled
unfoldable pub is_enrolled : Config → Bool
is_enrolled c = not (c.machine_id == "") && not (c.cert_path == "") && not (c.key_path == "")

-- The member of the old key counts only where the new one is missing.
abbrev pub with_legacy : String → Config → Config
with_legacy old c =
    if c.enrollment_secret == "" && not (old == "") then record c { enrollment_secret = old } else c

module _ (json : Json) where
  abbrev aliased : Bytes → Result Config → Result Config
  aliased b (ok c) = ok (with_legacy (json.legacy b) c)
  aliased b (err e) = err e

  -- Config.UnmarshalJSON
  unfoldable pub unmarshal_json : Bytes → Result Config
  unmarshal_json b = aliased b (json.fields b)

  abbrev parsed : Result Bytes → Act Disk Config
  parsed (ok b) = catch (lift (unmarshal_json b)) (λ e. fail (wrap "agent/config: parse %s: %w" e))
  parsed (err e) =
      if is_not_exist e then pure zero_config else fail (wrap "agent/config: read %s: %w" e)

  -- Load
  unfoldable pub load : String → Act Disk Config
  unfolding unmarshal_json
  load path = inspect (read_file path) parsed

  -- Save
  unfoldable pub save : String → Config → Act Disk (Unit {0})
  save path c = do
    b ← catch (lift (json.marshal_indent c)) (λ e. fail (wrap "agent/config: marshal: %w" e))
    catch (write_file (temporary path) b) (λ e. fail (wrap "agent/config: write tmp: %w" e))
    catch (rename (temporary path) path) (λ e. fail (wrap "agent/config: rename: %w" e))
