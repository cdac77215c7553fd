-- ===== src/Enroll/Laws.antt =====
-- What an enrollment leaves on disk.
use readyfleet_lightagent.Base.{
  String, ◌≡◌, ◌≢◌, inl, inr, sym, some, [], Error, ok, err, Result-cases, arith, eq_iff, eqb_iff,
  ◌/◌, ◌^◌,
}
use readyfleet_lightagent.Base.Text.{Bytes, bytes}
use readyfleet_lightagent.Base.Lists.{take}
use readyfleet_lightagent.Base.Disk.{Disk, write_file, rename, touch, temporary}
use readyfleet_lightagent.Base.Disk.Laws.{temporary-ne}
use readyfleet_lightagent.Enroll.{
  Enrolled, Response, Answer, Options, Platform, write_restricted, request_body, exchange, post_of,
  persist, enroll, encode_key_pem, generate_key, cert_path, key_path, ca_path, client_of,
}

module _ {I : Type 0} (os : Platform I) where
  -- The three files of a directory and their temporary files have six names.
  pub record AreApart (dir : String) : Type 0 where
    pub cert_key : cert_path os dir ≢ key_path os dir
    pub cert_ca : cert_path os dir ≢ ca_path os dir
    pub key_ca : key_path os dir ≢ ca_path os dir
    pub cert_key_tmp : cert_path os dir ≢ temporary (key_path os dir)
    pub cert_ca_tmp : cert_path os dir ≢ temporary (ca_path os dir)
    pub key_ca_tmp : key_path os dir ≢ temporary (ca_path os dir)

  write_restricted-ok :
      (path : String) (b : Bytes) (d : Disk)
      → (write_restricted os path b d).0 ≡ ok tt
      → (write_restricted os path b d).1.files path ≡ some b
  unfolding write_restricted write_file rename touch
  write_restricted-ok path b d h = ground (
    arith,
    eq_iff path path,
    eq_iff (temporary path) (temporary path),
    eq_iff (temporary path) path,
    temporary-ne path,
  )

  write_restricted_frame :
      (path : String) (b : Bytes) (d : Disk) (q : String)
      → path ≢ q
      → temporary path ≢ q
      → (write_restricted os path b d).1.files q ≡ d.files q
  unfolding write_restricted write_file rename touch
  write_restricted_frame path b d q h k = ground (arith, eq_iff path q, eq_iff (temporary path) q)

  -- A response that is accepted came with a status of 200 to 299, to a request that carries the
  -- secret, and names a machine and two certificates.
  pub record IsAnswer (opts : Options I) (body : Bytes) (out : Response) : Type 0 where
    pub answer :
        (resp : Answer) × (client_of os opts (post_of os opts body) ≡ ok resp)
        × (resp.status / 100 ≡ 2)
        × (os.unmarshal (take (2 ^ 20) resp.body) ≡ ok out)
    pub cert_pem : out.cert_pem ≢ ""
    pub ca_pem : out.ca_pem ≢ ""
    pub machine_id : out.machine_id ≢ ""

  pub request_body-ok :
      (opts : Options I) (key : os.Key) (body : Bytes)
      → request_body os opts ≡ ok (key, body)
      → (opts.bearer_secret ≢ "") × (os.new_key 2048 ≡ ok key)
  unfolding request_body generate_key
  request_body-ok opts key body h = (ground (arith, eq_iff opts.bearer_secret ""), ground arith)

  exchange-ok :
      (opts : Options I) (body : Bytes) (out : Response)
      → exchange os opts body ≡ ok out
      → IsAnswer opts body out
  unfolding exchange
  exchange-ok opts body out h = elim (Result-cases (client_of os opts (post_of os opts body))) [
    | inr (e, j) ↦ absurd (ground arith)
    | inl (resp, j) ↦ record {
      answer = (resp, j, ground (arith, eqb_iff (resp.status / 100) 2), ground arith);
      cert_pem = ground (arith, eq_iff out.cert_pem "");
      ca_pem = ground (arith, eq_iff out.ca_pem "");
      machine_id = ground (arith, eq_iff out.machine_id "");
    }
  ]

  persist-ok :
      (dir : String) (key : os.Key) (out : Response) (d : Disk) (r : Enrolled) (d' : Disk)
      → AreApart dir
      → persist os dir key out d ≡ (ok r, d')
      → (d'.files (cert_path os dir) ≡ some (bytes out.cert_pem))
        × (d'.files (key_path os dir) ≡ some (encode_key_pem os key))
        × (d'.files (ca_path os dir) ≡ some (bytes out.ca_pem))
  unfolding persist
  persist-ok dir key out d r d' apart h =
      let d0 = (touch d).1 in
      let d1 = (write_restricted os (cert_path os dir) (bytes out.cert_pem) d0).1 in
      let d2 = (write_restricted os (key_path os dir) (encode_key_pem os key) d1).1 in
      let k1 = write_restricted-ok (cert_path os dir) (bytes out.cert_pem) d0 (ground arith) in
      let k2 = write_restricted-ok (key_path os dir) (encode_key_pem os key) d1 (ground arith) in
      let k3 = write_restricted-ok (ca_path os dir) (bytes out.ca_pem) d2 (ground arith) in
      let f1 =
        write_restricted_frame (key_path os dir) (encode_key_pem os key) d1 (cert_path os dir)
          (λ e. apart.cert_key (sym e)) (λ e. apart.cert_key_tmp (sym e)) in
      let f2 =
        write_restricted_frame (ca_path os dir) (bytes out.ca_pem) d2 (cert_path os dir)
          (λ e. apart.cert_ca (sym e)) (λ e. apart.cert_ca_tmp (sym e)) in
      let f3 =
        write_restricted_frame (ca_path os dir) (bytes out.ca_pem) d2 (key_path os dir)
          (λ e. apart.key_ca (sym e)) (λ e. apart.key_ca_tmp (sym e)) in
      (ground arith, ground arith, ground arith)

  -- The three files of an enrollment hold these contents.
  pub record Holds (r : Enrolled) (key : os.Key) (out : Response) (d : Disk) : Type 0 where
    pub cert : d.files r.cert_path ≡ some (bytes out.cert_pem)
    pub private_key : d.files r.key_path ≡ some (encode_key_pem os key)
    pub ca : d.files r.ca_path ≡ some (bytes out.ca_pem)

  -- The key and the response of an enrollment that succeeds: the key is the one of the request, and
  -- the response is the answer to it.
  pub enroll-issued :
      (opts : Options I) (d : Disk) (r : Enrolled) (d' : Disk)
      → AreApart opts.material_dir
      → enroll os opts d ≡ (ok r, d')
      → (key : os.Key) × (body : Bytes) × (out : Response) × (request_body os opts ≡ ok (key, body))
        × IsAnswer opts body out
        × (r.machine_id ≡ out.machine_id)
        × (r.venue_id ≡ out.venue_id)
        × Holds r key out d'
  unfolding enroll persist
  enroll-issued opts d r d' apart h = elim (Result-cases (request_body os opts)) [
    | inr (e, f) ↦ absurd (ground arith)
    | inl ((key, body), f) ↦ elim (Result-cases (exchange os opts body)) [
      | inr (e, g) ↦ absurd (ground arith)
      | inl (out, g) ↦
          let kept = persist-ok opts.material_dir key out d r d' apart (ground arith) in
          (
            key,
            body,
            out,
            f,
            exchange-ok opts body out g,
            ground arith,
            ground arith,
            record { cert = ground arith; private_key = ground arith; ca = ground arith },
          )
    ]
  ]

  -- An enrollment that succeeds presented a secret, was answered with a status of 200 to 299 and a
  -- complete response, and names that response's machine; the files that it names hold the
  -- certificate, the key that was generated for it, and the certificate of the authority, if the
  -- three files of the directory and their temporary files have different names.
  pub enroll-ok :
      (opts : Options I) (d : Disk) (r : Enrolled) (d' : Disk)
      → AreApart opts.material_dir
      → enroll os opts d ≡ (ok r, d')
      → (opts.bearer_secret ≢ "")
        × (key : os.Key) × (body : Bytes) × (out : Response) × (os.new_key 2048 ≡ ok key)
        × IsAnswer opts body out
        × (r.machine_id ≡ out.machine_id)
        × (r.venue_id ≡ out.venue_id)
        × Holds r key out d'
  enroll-ok opts d r d' apart h =
      let (key, body, out, asked, answer, machine, venue, holds) =
        enroll-issued opts d r d' apart h in
      let sent = request_body-ok opts key body asked in
      (sent.0, key, body, out, sent.1, answer, machine, venue, holds)

  -- The files that an enrollment names.
  pub enroll-paths :
      (opts : Options I) (d : Disk) (r : Enrolled) (d' : Disk)
      → enroll os opts d ≡ (ok r, d')
      → (r.cert_path ≡ cert_path os opts.material_dir)
        × (r.key_path ≡ key_path os opts.material_dir)
        × (r.ca_path ≡ ca_path os opts.material_dir)
  unfolding enroll persist
  enroll-paths opts d r d' h = (ground arith, ground arith, ground arith)

  touch_passes : (d : Disk) → d.outcomes ≡ [] → ((touch d).0 ≡ ok tt) × ((touch d).1.outcomes ≡ [])
  unfolding touch
  touch_passes d h = ground arith

  write_restricted_passes :
      (path : String) (b : Bytes) (d : Disk)
      → d.outcomes ≡ []
      → ((write_restricted os path b d).0 ≡ ok tt)
        × ((write_restricted os path b d).1.outcomes ≡ [])
  unfolding write_restricted write_file rename touch
  write_restricted_passes path b d h = ground (arith, eq_iff (temporary path) (temporary path))

  persist_passes :
      (dir : String) (key : os.Key) (out : Response) (d : Disk)
      → d.outcomes ≡ []
      → (e : Error) → (persist os dir key out d).0 ≢ err e
  unfolding persist
  persist_passes dir key out d h e k =
      let d0 = (touch d).1 in
      let p0 = touch_passes d h in
      let p1 = write_restricted_passes (cert_path os dir) (bytes out.cert_pem) d0 p0.1 in
      let d1 = (write_restricted os (cert_path os dir) (bytes out.cert_pem) d0).1 in
      let p2 = write_restricted_passes (key_path os dir) (encode_key_pem os key) d1 p1.1 in
      let d2 = (write_restricted os (key_path os dir) (encode_key_pem os key) d1).1 in
      let p3 = write_restricted_passes (ca_path os dir) (bytes out.ca_pem) d2 p2.1 in ground arith

  -- An enrollment that fails, on a machine where each call on files passes, has changed no file:
  -- without a secret, a valid answer and a complete response nothing is written.
  pub enroll-err :
      (opts : Options I) (d : Disk) (e : Error) (d' : Disk)
      → d.outcomes ≡ []
      → enroll os opts d ≡ (err e, d')
      → d' ≡ d
  unfolding enroll
  enroll-err opts d e d' passes h = elim (Result-cases (request_body os opts)) [
    | inr (x, f) ↦ ground arith
    | inl ((key, body), f) ↦ elim (Result-cases (exchange os opts body)) [
      | inr (x, g) ↦ ground arith
      | inl (out, g) ↦ absurd (ground (arith, persist_passes opts.material_dir key out d passes e))
    ]
  ]
