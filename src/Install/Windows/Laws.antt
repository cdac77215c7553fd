-- ===== src/Install/Windows/Laws.antt =====
-- What each stage of an install on Windows has done when it succeeds.
pub mod Installing
use mathlib.Core.Path.{subst}
use readyfleet_lightagent.Base.{
  ℕ, String, ◌<>◌, ◌≡◌, ◌≢◌, ◌∙◌, ◌⊎◌, refl, sym, ap, Bool, true, false, ◌&&◌, Option, none, some,
  List, [], ◌∷◌, inl, inr, Error, Result, ok, err, Act, Bool-cases, Option-cases, Result-cases,
  eq_iff, arith,
}
use readyfleet_lightagent.Base.Text.{Bytes, bytes, bytes_eq, bytes_eq_lem}
use readyfleet_lightagent.Base.Disk.{Disk, read_file, temporary}
use readyfleet_lightagent.Config
use readyfleet_lightagent.Config.{Json, save}
use readyfleet_lightagent.Config.Saving.{save-ok, save_frame}
use readyfleet_lightagent.Enroll
use readyfleet_lightagent.Enroll.{
  Platform, Enrolled, Response, request_body, enroll, encode_key_pem,
}
use readyfleet_lightagent.Enroll.Laws.{
  AreApart, IsAnswer, request_body-ok, enroll-issued, enroll-paths,
}
use readyfleet_lightagent.Install.{Paths}
use readyfleet_lightagent.Verify.Hex.{valid_lower_hex256, encode_to_string}
use readyfleet_lightagent.Verify.Authenticode
use readyfleet_lightagent.Verify.Authenticode.{verify_authenticode, verify_authenticode_with}
use readyfleet_lightagent.Verify.Authenticode.Laws.{IsAuthentic, authenticode_iff}
use readyfleet_lightagent.Install.Windows.{
  Machine, Build, LightConfig, run_value_of, enrolled_config, on_disk, verify_bundled_agent,
  protect_key_acl, register_logon_startup, options, enroll_light, start_agent_once,
}

module _ {I : Type 0} (b : Build I) where
  -- The agent's file has the digest that the build expects, and is authentic for the signer that the
  -- build expects.
  pub record IsExpected (path : String) (m : Machine) : Type 0 where
    pub content : Bytes
    pub file : m.disk.files path ≡ some content
    pub digest : encode_to_string (b.sha256 content) ≡ bytes b.expected_agent_sha256
    pub authentic : IsAuthentic b.trust false path (some content) b.expected_signer_fingerprint

  pub verify-ok :
      (path : String) (m : Machine)
      → (verify_bundled_agent b path m).0 ≡ ok tt
      → IsExpected path m × ((verify_bundled_agent b path m).1.disk.files ≡ m.disk.files)
  unfolding verify_bundled_agent read_file verify_authenticode
  verify-ok path m h = elim (Option-cases (m.disk.files path)) [
    | inl e ↦ absurd (ground arith)
    | inr (content, e) ↦
        let checked : Authenticode.authenticode b.trust path (m.disk.files path)
              b.expected_signer_fingerprint
            ≡ ok tt =
          ground arith in
        (
          record {
            content = content;
            file = e;
            digest = bytes_eq_lem _ _ (ground arith);
            authentic =
                (authenticode_iff b.trust false path (some content) b.expected_signer_fingerprint
                    Authenticode.no_handles).0
                  (subst
                    (λ (f : Option Bytes).
                      (verify_authenticode_with b.trust false path f b.expected_signer_fingerprint
                        Authenticode.no_handles).0
                      ≡ ok tt)
                    e checked);
          },
          ground arith,
        )
  ]

  -- The files of the enrollment, the configuration with its temporary file, and the log have names of
  -- their own, and the key that the install restricts is the one of the enrollment.
  pub record IsLaidOut (p : Paths) : Type 0 where
    pub apart : AreApart b.os p.root
    pub key_path : p.key_path ≡ Enroll.key_path b.os p.root
    pub config_log : p.config_path ≢ p.log_path
    pub cert : Enroll.cert_path b.os p.root ≢ p.config_path
    pub key : Enroll.key_path b.os p.root ≢ p.config_path
    pub ca : Enroll.ca_path b.os p.root ≢ p.config_path
    pub cert_tmp : Enroll.cert_path b.os p.root ≢ temporary p.config_path
    pub key_tmp : Enroll.key_path b.os p.root ≢ temporary p.config_path
    pub ca_tmp : Enroll.ca_path b.os p.root ≢ temporary p.config_path
    pub cert_log : Enroll.cert_path b.os p.root ≢ p.log_path
    pub key_log : Enroll.key_path b.os p.root ≢ p.log_path
    pub ca_log : Enroll.ca_path b.os p.root ≢ p.log_path

  -- The server's answer to the enrollment is on disk: the saved configuration names the machine of the
  -- answer and the three files, and these hold its certificate, the key of the request and its
  -- authority.
  pub record IsSaved (lc : LightConfig) (token : String) (m : Machine) : Type 0 where
    pub key : b.os.Key
    pub body : Bytes
    pub out : Response
    pub asked : request_body b.os (options b lc token) ≡ ok (key, body)
    pub answer : IsAnswer b.os (options b lc token) body out
    pub cfg : Config.Config
    pub machine_id : cfg.machine_id ≡ out.machine_id
    pub venue_id : cfg.venue_id ≡ out.venue_id
    pub cert_path : cfg.cert_path ≡ Enroll.cert_path b.os lc.paths.root
    pub key_path : cfg.key_path ≡ Enroll.key_path b.os lc.paths.root
    pub ca_path : cfg.ca_path ≡ Enroll.ca_path b.os lc.paths.root
    pub content : Bytes
    pub marshaled : b.json.marshal_indent cfg ≡ ok content
    pub file : m.disk.files lc.paths.config_path ≡ some content
    pub cert : m.disk.files (Enroll.cert_path b.os lc.paths.root) ≡ some (bytes out.cert_pem)
    pub private_key :
        m.disk.files (Enroll.key_path b.os lc.paths.root) ≡ some (encode_key_pem b.os key)
    pub ca : m.disk.files (Enroll.ca_path b.os lc.paths.root) ≡ some (bytes out.ca_pem)

  pub enroll_light-ok :
      (cfg : LightConfig) (token : String) (m : Machine)
      → IsLaidOut cfg.paths
      → (enroll_light b cfg token m).0 ≡ ok tt
      → IsSaved cfg token (enroll_light b cfg token m).1 × (token ≢ "")
  unfolding enroll_light
  enroll_light-ok cfg token m laid h =
      elim (Result-cases (enroll b.os (options b cfg token) m.disk).0) [
        | inr (e, f) ↦ absurd (ground arith)
        | inl (res, f) ↦
            let d = (enroll b.os (options b cfg token) m.disk).1 in
            let e = ap (λ (r : Result Enrolled). (r, d)) f in
            let (key, body, out, asked, answer, machine, venue, holds) =
              enroll-issued b.os (options b cfg token) m.disk res d laid.apart e in
            let (sent, generated) = request_body-ok b.os (options b cfg token) key body asked in
            let (cert, private_key, ca) = enroll-paths b.os (options b cfg token) m.disk res d e in
            let p = cfg.paths in
            let frame = λ (q : String) (n : q ≢ p.config_path) (t : q ≢ temporary p.config_path).
              save_frame b.json p.config_path q (enrolled_config cfg.server_url res) d n t in
            let (content, g, k) =
              save-ok b.json p.config_path (enrolled_config cfg.server_url res) d (ground arith) in
            (
              rw f (record {
                key = key;
                body = body;
                out = out;
                asked = asked;
                answer = answer;
                cfg = enrolled_config cfg.server_url res;
                machine_id = machine;
                venue_id = venue;
                cert_path = cert;
                key_path = private_key;
                ca_path = ca;
                content = content;
                marshaled = g;
                file = k;
                cert =
                    frame (Enroll.cert_path b.os p.root) laid.cert laid.cert_tmp
                    ∙ ap (λ q. d.files q) (sym cert)
                    ∙ holds.cert;
                private_key =
                    frame (Enroll.key_path b.os p.root) laid.key laid.key_tmp
                    ∙ ap (λ q. d.files q) (sym private_key)
                    ∙ holds.private_key;
                ca =
                    frame (Enroll.ca_path b.os p.root) laid.ca laid.ca_tmp
                    ∙ ap (λ q. d.files q) (sym ca)
                    ∙ holds.ca;
              }),
              sent,
            )
      ]

  pub protect-ok :
      (path : String) (m : Machine)
      → (protect_key_acl b path m).0 ≡ ok tt
      → (username : String) × (b.user ≡ ok username)
        × ((protect_key_acl b path m).1 ≡ record m {
          acls = (path ∷ "/inheritance:r" ∷ "/grant:r" ∷ (username <> ":F") ∷ []) ∷ m.acls;
        })
  unfolding protect_key_acl
  protect-ok path m h = elim (Result-cases b.user) [
    | inr (e, f) ↦ absurd (ground arith)
    | inl (u, f) ↦ (u, f, ground arith)
  ]

  pub register-ok :
      (path : String) (m : Machine)
      → (register_logon_startup b path m).0 ≡ ok tt
      → (register_logon_startup b path m).1 ≡ record m { run_value = some (run_value_of path) }
  unfolding register_logon_startup
  register-ok path m h = ground arith

  pub start-ok :
      (path : String) (m : Machine)
      → (start_agent_once b path m).0 ≡ ok tt
      → (start_agent_once b path m).1 ≡ record m { started = path ∷ m.started }
  unfolding start_agent_once
  start-ok path m h = ground arith
