-- ===== src/Verify/Download/Laws.antt =====
-- What a download leaves on disk, on success and on every failure.
use readyfleet_lightagent.Base.{
  Option, Option-cases, ℕ, ◌+◌, ◌≤◌, String, ◌≡◌, ◌≢◌, inl, inr, none, some, [], ok, err, Error,
  Result, arith, eq_iff, Result-cases, Bool-cases, ◌==◌, if◌then◌else◌, ap, ◌∙◌,
}
use readyfleet_lightagent.Base.Lists.{length, take, take_whole, length-take}
use readyfleet_lightagent.Base.Text.{Bytes, bytes, bytes_eq_lem}
use readyfleet_lightagent.Base.Disk.{Disk, Files, write_file, read_file, remove, touch}
use readyfleet_lightagent.Verify.Hex.{encode_to_string}
use readyfleet_lightagent.Verify.Download.{
  Machine, IsFresh, DownloadParams, Response, download_verified, verify_sha256, copy_limited,
  create_temp, receive, settle,
}

module _ (m : Machine) where
  verify_sha256_ok :
      (path want : String) (d : Disk) (c : Bytes)
      → d.files path ≡ some c
      → (verify_sha256 m path want d).0 ≡ ok tt
      → encode_to_string (m.sha256 c) ≡ bytes want
  unfolding verify_sha256 read_file
  verify_sha256_ok path want d c f h =
      ground (arith, bytes_eq_lem (encode_to_string (m.sha256 c)) (bytes want))

  verify_sha256_files :
      (path want : String) (d : Disk) → (verify_sha256 m path want d).1.files ≡ d.files
  unfolding verify_sha256 read_file
  verify_sha256_files path want d = ground arith

  copy_limited_ok :
      (path : String) (r : Response) (limit : ℕ) (d : Disk)
      → (copy_limited m path r limit d).0 ≡ ok tt
      → (copy_limited m path r limit d).1.files path ≡ some (take limit r.body)
  unfolding copy_limited write_file
  copy_limited_ok path r limit d h = ground (arith, eq_iff path path)

  settle_ok :
      (p : DownloadParams) (r : Response) (path : String) (copied closed : Result (Unit {0}))
      (d : Disk) (q : String) (d' : Disk)
      → settle m p r path copied closed d ≡ (ok q, d')
      → (copied ≡ ok tt)
        × (q ≡ path)
        × (d'.files ≡ d.files)
        × (length (take (p.max_bytes + 1) r.body) ≤ p.max_bytes)
        × ((verify_sha256 m path p.sha256 d).0 ≡ ok tt)
  settle_ok p r path copied closed d q d' h = ground (arith, verify_sha256_files path p.sha256 d)

  take_within : (n : ℕ) (b : Bytes) → length (take (n + 1) b) ≤ n → length b ≤ n
  take_within n b h = omega (arith, length-take (n + 1) b)

  receive_ok :
      (p : DownloadParams) (r : Response) (path : String) (d : Disk) (q : String) (d' : Disk)
      → receive m p r path d ≡ (ok q, d')
      → (length r.body ≤ p.max_bytes)
        × (d'.files q ≡ some r.body)
        × (encode_to_string (m.sha256 r.body) ≡ bytes p.sha256)
  unfolding receive touch
  receive_ok p r path d q d' h =
      let c = copy_limited m path r (p.max_bytes + 1) d in
      let s = settle_ok p r path c.0 (touch c.1).0 (touch c.1).1 q d' h in
      let fits = take_within p.max_bytes r.body s.3 in
      let whole = take_whole (p.max_bytes + 1) r.body (omega arith) in
      let stored = copy_limited_ok path r (p.max_bytes + 1) d s.0 in
      let kept = stored ∙ ap some whole in
      (
        fits,
        ap (λ (f : Files). f q) s.2 ∙ ap c.1.files s.1 ∙ kept,
        verify_sha256_ok path p.sha256 (touch c.1).1 r.body kept s.4,
      )

  -- The disk that the answer is received on, and the name of the temporary file.
  abbrev created : DownloadParams → Disk → Result String × Disk
  created p d =
      create_temp m (if p.download_dir == "" then m.temp_dir else p.download_dir) p.temp_pattern d

  pub download_verified-ok :
      (p : DownloadParams) (d : Disk) (path : String) (d' : Disk)
      → download_verified m p d ≡ (ok path, d')
      → (r : Response) × (m.fetch p.url ≡ ok r)
        × (r.status ≡ 200)
        × (length r.body ≤ p.max_bytes)
        × (d'.files path ≡ some r.body)
        × (encode_to_string (m.sha256 r.body) ≡ bytes p.sha256)
  unfolding download_verified
  download_verified-ok p d path d' h = elim (Result-cases (m.fetch p.url)) [
    | inr (e, f) ↦ absurd (ground arith)
    | inl (r, f) ↦ elim (Result-cases (created p d).0) [
      | inr (e, g) ↦ absurd (ground arith)
      | inl (q, g) ↦
          let received = receive_ok p r q (created p d).1 path d' (ground arith) in
          (r, f, ground arith, received.0, received.1, received.2)
    ]
  ]

  receive_frame :
      (p : DownloadParams) (r : Response) (path q : String) (d : Disk)
      → path ≢ q
      → (receive m p r path d).1.files q ≡ d.files q
  unfolding receive copy_limited verify_sha256 read_file write_file remove touch
  receive_frame p r path q d ne = ground (arith, eq_iff path q)

  receive_err :
      (p : DownloadParams) (r : Response) (path : String) (d : Disk) (e : Error) (d' : Disk)
      → d.outcomes ≡ []
      → receive m p r path d ≡ (err e, d')
      → d'.files path ≡ none
  unfolding receive copy_limited verify_sha256 read_file write_file remove touch
  receive_err p r path d e d' none_left h = ground (arith, eq_iff path path)

  abbrev named : DownloadParams → Disk → Option String
  named p d =
      m.temp_name (if p.download_dir == "" then m.temp_dir else p.download_dir) p.temp_pattern
        d.files

  created_frame :
      (p : DownloadParams) (d : Disk) (q : String)
      → (created p d).0 ≢ ok q
      → (created p d).1.files q ≡ d.files q
  unfolding create_temp touch
  created_frame p d q ne = elim (Option-cases (named p d)) [
    | inl f ↦ ground arith
    | inr (path, f) ↦ ground (arith, eq_iff path q)
  ]

  created_fresh :
      IsFresh m
      → (p : DownloadParams) (d : Disk) (q : String) → (created p d).0 ≡ ok q
      → d.files q ≡ none
  unfolding create_temp touch
  created_fresh law p d q h = elim (Option-cases (named p d)) [
    | inl f ↦ absurd (ground arith)
    | inr (path, f) ↦ ground (
      arith,
      law.fresh (if p.download_dir == "" then m.temp_dir else p.download_dir) p.temp_pattern d.files
          path,
    )
  ]

  created_outcomes :
      (p : DownloadParams) (d : Disk) → d.outcomes ≡ [] → (created p d).1.outcomes ≡ []
  unfolding create_temp touch
  created_outcomes p d h = ground arith

  -- A download, whatever fails in it, changes no file that was there before.
  pub download_verified_frame :
      IsFresh m
      → (p : DownloadParams) (d : Disk) (q : String) (b : Bytes) → d.files q ≡ some b
      → (download_verified m p d).1.files q ≡ some b
  unfolding download_verified
  download_verified_frame law p d q b h = elim (Result-cases (m.fetch p.url)) [
    | inr (e, f) ↦ ground arith
    | inl (r, f) ↦ elim (Result-cases (created p d).0) [
      | inr (e, g) ↦ ground (arith, created_frame p d q)
      | inl (path, g) ↦
          let ne : path ≢ q = λ s. ground (arith, created_fresh law p d path g, ap d.files s) in
          ground (arith, created_frame p d q, receive_frame p r path q (created p d).1 ne)
    ]
  ]

  -- A download that fails, on a machine where each call on files passes, leaves the files as they
  -- were: nothing of a broken, oversized or altered answer stays.
  pub download_verified-err :
      IsFresh m
      → (p : DownloadParams) (d : Disk) (e : Error) (d' : Disk) → d.outcomes ≡ []
      → download_verified m p d ≡ (err e, d')
      → (q : String) → d'.files q ≡ d.files q
  unfolding download_verified
  download_verified-err law p d e d' passes h q = elim (Result-cases (m.fetch p.url)) [
    | inr (x, f) ↦ ground arith
    | inl (r, f) ↦ elim (Result-cases (created p d).0) [
      | inr (x, g) ↦ ground (arith, created_frame p d q)
      | inl (path, g) ↦ elim (Bool-cases (path == q)) [
        | inl same ↦ ground (
          arith,
          eq_iff path q,
          created_fresh law p d path g,
          created_outcomes p d passes,
          receive_err p r path (created p d).1 e d',
        )
        | inr other ↦
            let ne : path ≢ q = (λ s. cc ((eq_iff path q).1 s)) in
            ground (arith, created_frame p d q, receive_frame p r path q (created p d).1 ne)
      ]
    ]
  ]
