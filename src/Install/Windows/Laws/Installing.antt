-- ===== src/Install/Windows/Laws/Installing.antt =====
-- What an install on Windows has done when it succeeds.
use readyfleet_lightagent.Base.{
  ℕ, String, ◌<>◌, ◌≡◌, ◌≢◌, ◌∙◌, refl, ap, true, Option, some, List, [], ◌∷◌, inl, inr, ok, Act,
  Result-cases, arith,
}
use readyfleet_lightagent.Base.Text.{Bytes}
use readyfleet_lightagent.Base.Disk.{Disk, read_file}
use readyfleet_lightagent.Enroll.{enroll, cert_path, key_path, ca_path}
use readyfleet_lightagent.Install.{Paths, Seams, install}
use readyfleet_lightagent.Install.Windows.{
  Machine, Build, LightConfig, run_value_of, contains, connected_log_marker,
  connect_healthcheck_timeout, verify_bundled_agent, protect_key_acl, register_logon_startup,
  options, enroll_light, start_agent_once, new_manager,
}
use readyfleet_lightagent.Install.Windows.Waiting.{Same, wait-Waited}
use readyfleet_lightagent.Install.Windows.Laws.{
  IsExpected, IsLaidOut, IsSaved, verify-ok, enroll_light-ok, protect-ok, register-ok, start-ok,
}

-- The six stages of an install that succeeds, each on the machine that the one before has left.
install-stages :
    {S P : Type 0} (p : Paths) (m : Seams S P) (payload : P) (s s' : S)
    → install p m payload s ≡ (ok tt, s')
    → let s1 = (m.verify_agent p.agent_exe s).1 in
      let s2 = (m.enroll payload s1).1 in
      let s3 = (m.protect_key p.key_path s2).1 in
      let s4 = (m.register_task p.agent_exe s3).1 in
      let s5 = (m.start_agent p.agent_exe s4).1 in
      ((m.verify_agent p.agent_exe s).0 ≡ ok tt)
      × ((m.enroll payload s1).0 ≡ ok tt)
      × ((m.protect_key p.key_path s2).0 ≡ ok tt)
      × ((m.register_task p.agent_exe s3).0 ≡ ok tt)
      × ((m.start_agent p.agent_exe s4).0 ≡ ok tt)
      × (m.wait_for_connected p.log_path s5 ≡ (ok tt, s'))
unfolding install
install-stages p m payload s s' h =
    (ground arith, ground arith, ground arith, ground arith, ground arith, ground arith)

module _ {I : Type 0} (b : Build I) where
  verify-Same : (path : String) (m : Machine) → Same m (verify_bundled_agent b path m).1
  unfolding verify_bundled_agent read_file
  verify-Same path m = (ground arith, ground arith, ground arith)

  enroll_light-Same :
      (cfg : LightConfig) (token : String) (m : Machine) → Same m (enroll_light b cfg token m).1
  unfolding enroll_light
  enroll_light-Same cfg token m = elim (Result-cases (enroll b.os (options b cfg token) m.disk).0) [
    | inl (r, f) ↦ rw f (refl, refl, refl)
    | inr (e, f) ↦ rw f (refl, refl, refl)
  ]

  abbrev pub restricted : String → String → List String
  restricted path username = path ∷ "/inheritance:r" ∷ "/grant:r" ∷ (username <> ":F") ∷ []

  -- What the machine has after an install, against the one before.
  pub record IsInstalled (cfg : LightConfig) (token : String) (m d : Machine) : Type 0 where
    pub expected : IsExpected b cfg.paths.agent_exe m
    pub saved : IsSaved b cfg token d
    pub username : String
    pub user : b.user ≡ ok username
    pub acls : d.acls ≡ (restricted (key_path b.os cfg.paths.root) username ∷ m.acls)
    pub run_value : d.run_value ≡ some (run_value_of cfg.paths.agent_exe)
    pub started : d.started ≡ (cfg.paths.agent_exe ∷ m.started)
    pub log : Bytes
    pub log_file : d.disk.files cfg.paths.log_path ≡ some log
    pub connected : contains log connected_log_marker ≡ true

  -- An install on Windows that succeeds found the agent's file with the digest that the build expects and
  -- authentic for its signer, was given a token, and has left the server's answer to the request with
  -- this token on disk (a configuration that names its machine and the three files, and in them its
  -- certificate, the key of the request and its authority), this private key restricted to the user, the quoted path of the agent in the Run key, an agent that was
  -- started, and a log with the line of a connection; given that the files of the enrollment, the
  -- configuration and the log have names of their own.
  pub windows_install-ok :
      (cfg : LightConfig) (ctx : Option ℕ)
      (remove_all write_tombstone : String → Act Machine (Unit {0})) (token : String)
      (m d : Machine)
      → IsLaidOut b cfg.paths
      → install cfg.paths (new_manager b cfg ctx remove_all write_tombstone) token m ≡ (ok tt, d)
      → IsInstalled cfg token m d × (token ≢ "")
  unfolding new_manager
  windows_install-ok cfg ctx remove_all write_tombstone token m d laid h =
      let p = cfg.paths in
      let (h1, h2, h3, h4, h5, h6) =
        install-stages p (new_manager b cfg ctx remove_all write_tombstone) token m d h in
      let m1 = (verify_bundled_agent b p.agent_exe m).1 in
      let m2 = (enroll_light b cfg token m1).1 in
      let m3 = (protect_key_acl b p.key_path m2).1 in
      let m4 = (register_logon_startup b p.agent_exe m3).1 in
      let m5 = (start_agent_once b p.agent_exe m4).1 in
      let (expected, files) = verify-ok b p.agent_exe m h1 in
      let (a1, a2, a3) = verify-Same p.agent_exe m in
      let (saved, given) = enroll_light-ok b cfg token m1 laid h2 in
      let (b1, b2, b3) = enroll_light-Same cfg token m1 in
      let (username, user, e3) = protect-ok b p.key_path m2 h3 in
      let e4 = register-ok b p.agent_exe m3 h4 in
      let e5 = start-ok b p.agent_exe m4 h5 in
      let ((w1, w2, w3), frame, seen) =
        wait-Waited ctx p.log_path connect_healthcheck_timeout m5 d h6 in
      let kept : m5.disk ≡ m2.disk =
        ap (λ (n : Machine). n.disk) e5
        ∙ ap (λ (n : Machine). n.disk) e4
        ∙ ap (λ (n : Machine). n.disk) e3 in
      let left =
        λ (q : String) (ne : q ≢ p.log_path). frame q ne ∙ ap (λ (k : Disk). k.files q) kept in
      elim seen [
        | inl f ↦ absurd (ground arith)
        | inr (log, log_file, connected) ↦ (
          record {
            expected = expected;
            saved = record {
              key = saved.key;
              body = saved.body;
              out = saved.out;
              asked = saved.asked;
              answer = saved.answer;
              cfg = saved.cfg;
              machine_id = saved.machine_id;
              venue_id = saved.venue_id;
              cert_path = saved.cert_path;
              key_path = saved.key_path;
              ca_path = saved.ca_path;
              content = saved.content;
              marshaled = saved.marshaled;
              file = left p.config_path laid.config_log ∙ saved.file;
              cert = left (cert_path b.os p.root) laid.cert_log ∙ saved.cert;
              private_key = left (key_path b.os p.root) laid.key_log ∙ saved.private_key;
              ca = left (ca_path b.os p.root) laid.ca_log ∙ saved.ca;
            };
            username = username;
            user = user;
            acls =
                w2
                ∙ ap (λ (n : Machine). n.acls) e5
                ∙ ap (λ (n : Machine). n.acls) e4
                ∙ ap (λ (n : Machine). n.acls) e3
                ∙ ap (λ l. restricted p.key_path username ∷ l) (b2 ∙ a2)
                ∙ ap (λ q. restricted q username ∷ m.acls) laid.key_path;
            run_value =
                w1 ∙ ap (λ (n : Machine). n.run_value) e5 ∙ ap (λ (n : Machine). n.run_value) e4;
            started =
                w3
                ∙ ap (λ (n : Machine). n.started) e5
                ∙ ap (λ (n : Machine). p.agent_exe ∷ n.started) e4
                ∙ ap (λ (n : Machine). p.agent_exe ∷ n.started) e3
                ∙ ap (λ l. p.agent_exe ∷ l) (b3 ∙ a3);
            log = log;
            log_file = log_file;
            connected = connected;
          },
          given,
        )
      ]
