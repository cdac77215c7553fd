-- ===== src/Light/Startup/Laws.antt =====
-- What an agent that starts has.
use readyfleet_lightagent.Base.{
  String, true, ◌≡◌, ◌≢◌, inl, inr, refl, sym, ap, ◌∙◌, some, Result, ok, Result-cases, Bool-cases,
  arith, eq_iff, ◌==◌,
}
use readyfleet_lightagent.Base.Text.{Bytes, bytes}
use readyfleet_lightagent.Base.Disk.{Disk, temporary}
use readyfleet_lightagent.Config
use readyfleet_lightagent.Config.{Json, is_enrolled, load, save}
use readyfleet_lightagent.Config.Saving.{save-ok, save_frame}
use readyfleet_lightagent.Enroll.{
  Enrolled, Response, request_body, enroll, cert_path, key_path, ca_path, encode_key_pem,
}
use readyfleet_lightagent.Enroll.Laws.{AreApart, IsAnswer, enroll-issued, enroll-paths}
use readyfleet_lightagent.Light.Startup.{
  Setting, Started, options, enrolled, run_light_enrollment, ensure_enrolled, run_light_agent,
}

module _ (s : Setting) where
  -- The configuration and the three files of an enrollment have names of their own.
  pub record IsLaidOut (path : String) : Type 0 where
    pub apart : AreApart s.os (s.dir path)
    pub cert_named : cert_path s.os (s.dir path) ≢ ""
    pub key_named : key_path s.os (s.dir path) ≢ ""
    pub cert : cert_path s.os (s.dir path) ≢ path
    pub key : key_path s.os (s.dir path) ≢ path
    pub ca : ca_path s.os (s.dir path) ≢ path
    pub cert_tmp : cert_path s.os (s.dir path) ≢ temporary path
    pub key_tmp : key_path s.os (s.dir path) ≢ temporary path
    pub ca_tmp : ca_path s.os (s.dir path) ≢ temporary path

  -- What an enrollment with the configuration `before` leaves: the configuration counts as enrolled,
  -- has no secret left, and is what was written to its file; the three files hold the certificate and
  -- the authority of the server's answer, and the key that the request was made with.
  pub record IsEnrolledAt (path : String) (before cfg : Config.Config) (d : Disk) : Type 0 where
    pub is_enrolled : is_enrolled cfg ≡ true
    pub secret : cfg.enrollment_secret ≡ ""
    pub saved : (b : Bytes) × (s.json.marshal_indent cfg ≡ ok b) × (d.files path ≡ some b)
    pub material :
        (key : s.os.Key) × (body : Bytes) × (out : Response) × (request_body s.os
            (options s path before)
          ≡ ok (key, body))
        × IsAnswer s.os (options s path before) body out
        × (cfg.machine_id ≡ out.machine_id)
        × (d.files cfg.cert_path ≡ some (bytes out.cert_pem))
        × (d.files cfg.key_path ≡ some (encode_key_pem s.os key))
        × (d.files cfg.ca_path ≡ some (bytes out.ca_pem))

  named-is_enrolled :
      (c : Config.Config)
      → c.machine_id ≢ ""
      → c.cert_path ≢ ""
      → c.key_path ≢ ""
      → is_enrolled c ≡ true
  unfolding is_enrolled
  named-is_enrolled c h k i =
      ground (arith, eq_iff c.machine_id "", eq_iff c.cert_path "", eq_iff c.key_path "")

  module _ (path : String) (cfg : Config.Config) (d : Disk) (laid : IsLaidOut path) where
    abbrev issued : Disk
    issued = (enroll s.os (options s path cfg) d).1

    -- An enrollment with the save after it.
    saved-IsEnrolledAt :
        (res : Enrolled)
        → (enroll s.os (options s path cfg) d).0 ≡ ok res
        → (save s.json path (enrolled s cfg res) issued).0 ≡ ok tt
        → IsEnrolledAt path cfg
            (enrolled s cfg res)
            (save s.json path (enrolled s cfg res) issued).1
    saved-IsEnrolledAt res f g =
        let e = ap (λ (r : Result Enrolled). (r, issued)) f in
        let (key, body, out, asked, answer, machine, venue, holds) =
          enroll-issued s.os (options s path cfg) d res issued laid.apart e in
        let (cert, private_key, ca) = enroll-paths s.os (options s path cfg) d res issued e in
        let kept = λ (q : String) (n : q ≢ path) (t : q ≢ temporary path).
          save_frame s.json path q (enrolled s cfg res) issued n t in
        record {
          is_enrolled =
              named-is_enrolled (enrolled s cfg res) (λ n. answer.machine_id (sym machine ∙ n))
                (λ n. laid.cert_named (sym cert ∙ n)) (λ n. laid.key_named (sym private_key ∙ n));
          secret = refl;
          saved = save-ok s.json path (enrolled s cfg res) issued g;
          material = (
            key,
            body,
            out,
            asked,
            answer,
            machine,
            kept res.cert_path (λ n. laid.cert (sym cert ∙ n)) (λ n. laid.cert_tmp (sym cert ∙ n))
                ∙ holds.cert,
            kept res.key_path (λ n. laid.key (sym private_key ∙ n))
                  (λ n. laid.key_tmp (sym private_key ∙ n))
                ∙ holds.private_key,
            kept res.ca_path (λ n. laid.ca (sym ca ∙ n)) (λ n. laid.ca_tmp (sym ca ∙ n)) ∙ holds.ca,
          );
        }

    -- An enrollment of the agent that succeeds returns a configuration that counts as enrolled and
    -- has no secret, whatever it was before; it is saved as marshaled in its file, and the three
    -- files that it names hold the certificate and the authority of the server's answer to this
    -- request, and the private key of the request, if the files are laid out with names of their own.
    pub run_light_enrollment-ok :
        (cfg' : Config.Config) (d' : Disk)
        → run_light_enrollment s path cfg d ≡ (ok cfg', d')
        → IsEnrolledAt path cfg cfg' d'
    unfolding run_light_enrollment
    run_light_enrollment-ok cfg' d' h = elim (Result-cases (enroll s.os (options s path cfg) d).0) [
      | inr (e, f) ↦ absurd (ground arith)
      | inl (res, f) ↦ elim (Result-cases (save s.json path (enrolled s cfg res) issued).0) [
        | inr (e, g) ↦ absurd (ground arith)
        | inl (u, g) ↦
            let same : enrolled s cfg res ≡ cfg' = ground arith in
            let left : (save s.json path (enrolled s cfg res) issued).1 ≡ d' = ground arith in
            rw (sym same, sym left) (saved-IsEnrolledAt res f g)
      ]
    ]

  ensure_enrolled-is_enrolled :
      (path : String) (cfg cfg' : Config.Config) (d d' : Disk)
      → IsLaidOut path
      → ensure_enrolled s path cfg d ≡ (ok cfg', d')
      → is_enrolled cfg' ≡ true
  ensure_enrolled-is_enrolled path cfg cfg' d d' laid h = elim (Bool-cases (is_enrolled cfg)) [
    | inl b ↦ ground arith
    | inr b ↦ elim (Bool-cases (cfg.enrollment_secret == "")) [
      | inl n ↦ absurd (ground arith)
      | inr n ↦ (run_light_enrollment-ok path cfg d laid cfg' d' (ground arith)).is_enrolled
    ]
  ]

  -- An agent that gets as far as its client has an enrolled configuration, if the files are laid out
  -- with names of their own: it never dials without a certificate and a machine id.
  pub run_light_agent-is_enrolled :
      (path : String) (d : Disk) (a : Started) (d' : Disk)
      → IsLaidOut path
      → run_light_agent s path d ≡ (ok a, d')
      → is_enrolled a.cfg ≡ true
  unfolding run_light_agent
  run_light_agent-is_enrolled path d a d' laid h = elim (Result-cases (load s.json path d).0) [
    | inr (e, f) ↦ absurd (ground arith)
    | inl (cfg, f) ↦ elim (Result-cases (ensure_enrolled s path cfg (load s.json path d).1).0) [
      | inr (e, g) ↦ absurd (ground arith)
      | inl (cfg', g) ↦
          let enrolled' =
            ensure_enrolled-is_enrolled path cfg cfg' (load s.json path d).1
              (ensure_enrolled s path cfg (load s.json path d).1).1 laid
              (ap
                (λ (r : Result Config.Config).
                  (r, (ensure_enrolled s path cfg (load s.json path d).1).1))
                g) in
          ground arith
    ]
  ]
