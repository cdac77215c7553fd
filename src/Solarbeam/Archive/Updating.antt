-- ===== src/Solarbeam/Archive/Updating.antt =====
-- What an engine update that succeeds has extracted and checked.
use mathlib.Core.List.{Memᴰ}
use mathlib.Core.Path.{subst}
use readyfleet_lightagent.Base.{
  String, false, ◌≡◌, ◌≢◌, inl, inr, refl, sym, ap, ◌∙◌, List, Result, ok, Result-cases, arith,
  eq_iff, some, Option,
}
use readyfleet_lightagent.Base.Text.{Bytes, bytes}
use readyfleet_lightagent.Base.Disk.{Disk, remove, touch}
use readyfleet_lightagent.Base.Disk.Laws.{remove_frame}
use readyfleet_lightagent.Proto.{SolarbeamEngineUpdateArgs}
use readyfleet_lightagent.Verify.Hex.{encode_to_string}
use readyfleet_lightagent.Verify.Download.{Machine, Response, download_verified}
use readyfleet_lightagent.Verify.Download.Laws.{download_verified-ok}
use readyfleet_lightagent.Verify.Authenticode.{
  Windows, authenticode, no_handles, verify_authenticode, verify_authenticode_with,
}
use readyfleet_lightagent.Verify.Authenticode.Laws.{IsAuthentic, authenticode_iff}
use readyfleet_lightagent.Solarbeam.Archive.{
  Entry, Layout, Paths, extract_all, extract_zip, engine_install_dir, install_package, params,
  apply_engine_update,
}
use readyfleet_lightagent.Solarbeam.Archive.Contents.{IsFinal, Stored, extract_all-Stored}

-- Each file of an archive is at its place, whole; of two entries for one place, one of them.
abbrev pub Extracted : Layout → String → List Entry → Disk → Type 0
Extracted l dir fs d =
    (f : Entry)
    → Memᴰ f fs
    → f.is_dir ≡ false
    → Stored l dir (l.join dir f.name) fs (d.files (l.join dir f.name))

-- The names of a download, of the engine, of an archive's entries and of their temporary files.
pub record AreApart (l : Layout) (p : Paths) (path dir : String) (fs : List Entry) : Type 0 where
  pub engine : path ≢ p.engine
  pub entries : (f : Entry) → Memᴰ f fs → path ≢ l.join dir f.name
  pub final : (f : Entry) → Memᴰ f fs → IsFinal l dir (l.join dir f.name) fs

abbrev Archive : Layout → Option Bytes → String → List Entry → String → Type 0
Archive l file dest_dir fs dir = (l.read_zip file ≡ ok fs) × (l.abs dest_dir ≡ ok dir)

extract_zip-Extracted :
    (l : Layout) (src dest_dir : String) (d : Disk)
    → (extract_zip l src dest_dir d).0 ≡ ok tt
    → (fs : List Entry) × (dir : String) × Archive l (d.files src) dest_dir fs dir
      × (((f : Entry) → Memᴰ f fs → IsFinal l dir (l.join dir f.name) fs)
          → Extracted l dir fs (extract_zip l src dest_dir d).1)
unfolding extract_zip
extract_zip-Extracted l src dest_dir d h = elim (Result-cases (l.read_zip (d.files src))) [
  | inr (x, e) ↦ absurd (ground arith)
  | inl (fs, e) ↦ elim (Result-cases (l.abs dest_dir)) [
    | inr (x, a) ↦ absurd (ground arith)
    | inl (dir, a) ↦
        let all : (extract_all l dir fs d).0 ≡ ok tt = ground arith in
        (
          fs,
          dir,
          (e, a),
          rw (e, a)
              (λ final f m file.
                extract_all-Stored l dir (l.join dir f.name) fs d (final f m) all f m file refl),
        )
  ]
]

install_package-ok :
    (l : Layout) (w : Windows) (p : Paths) (fingerprint dir path : String) (d : Disk)
    → (install_package l w p fingerprint dir path d).0 ≡ ok tt
    → let d' = (install_package l w p fingerprint dir path d).1 in
      ((extract_zip l path dir (touch d).1).0 ≡ ok tt)
      × (d' ≡ (extract_zip l path dir (touch d).1).1)
      × ((touch d).1.files ≡ d.files)
      × (authenticode w p.engine (d'.files p.engine) fingerprint ≡ ok tt)
unfolding install_package touch
install_package-ok l w p fingerprint dir path d h =
    (ground arith, ground arith, ground arith, ground arith)

-- An engine update that succeeds has an install directory, downloaded an answer with the digest that
-- was asked for, extracted the archive in exactly these bytes (each file of it is at its place in the
-- install directory, whole), and left an engine binary that is authentic for the signer that was asked
-- for; given that the download, the engine, the entries and their temporary files have names apart.
pub apply_engine_update-ok :
    (l : Layout) (net : Machine) (w : Windows) (p : Paths) (args : SolarbeamEngineUpdateArgs)
    (d d' : Disk)
    → ((path dir : String) (fs : List Entry)
        → (download_verified net (params l args) d).0 ≡ ok path
        → Archive l
            ((download_verified net (params l args) d).1.files path)
            (engine_install_dir l p)
            fs
            dir
        → AreApart l p path dir fs)
    → apply_engine_update l net w p args d ≡ (ok tt, d')
    → (engine_install_dir l p ≢ "")
      × (r : Response) × (net.fetch args.url ≡ ok r)
      × (encode_to_string (net.sha256 r.body) ≡ bytes args.sha256)
      × (fs : List Entry) × (dir : String) × (l.read_zip (some r.body) ≡ ok fs)
      × (l.abs (engine_install_dir l p) ≡ ok dir)
      × Extracted l dir fs d'
      × IsAuthentic w false p.engine (d'.files p.engine) args.signer_fingerprint
unfolding apply_engine_update verify_authenticode_with verify_authenticode
apply_engine_update-ok l net w p args d d' names h =
    elim (Result-cases (download_verified net (params l args) d).0) [
      | inr (x, e) ↦ absurd (ground arith)
      | inl (path, e) ↦
          let d1 = (download_verified net (params l args) d).1 in
          let into = engine_install_dir l p in
          let d2 = (install_package l w p args.signer_fingerprint into path d1).1 in
          let (r, fetched, status, small, held, digest) =
            download_verified-ok net (params l args) d path d1
              (ap (λ (x : Result String). (x, d1)) e) in
          let (unzipped, installed, untouched, checked) =
            install_package-ok l w p args.signer_fingerprint into path d1 (ground arith) in
          let (fs, dir, (archive, abs), extracted) =
            extract_zip-Extracted l path into (touch d1).1 unzipped in
          let read : l.read_zip (d1.files path) ≡ ok fs =
            ap (λ (x : String → Option Bytes). l.read_zip (x path)) (sym untouched) ∙ archive in
          let apart = names path dir fs e (read, abs) in
          let last : d' ≡ (remove path d2).1 = ground arith in
          let kept = λ (q : String) (n : path ≢ q).
            ap (λ (x : Disk). x.files q) last ∙ remove_frame path q d2 n in
          (
            ground (arith, eq_iff into ""),
            r,
            fetched,
            digest,
            fs,
            dir,
            ap l.read_zip (sym held) ∙ read,
            abs,
            λ f m file.
                subst (Stored l dir (l.join dir f.name) fs)
                  (sym (
                    kept (l.join dir f.name) (apart.entries f m)
                    ∙ ap (λ (x : Disk). x.files (l.join dir f.name)) installed))
                  (extracted apart.final f m file),
            (authenticode_iff w false p.engine (d'.files p.engine) args.signer_fingerprint
                  no_handles).0
                (rw (kept p.engine apart.engine) checked),
          )
    ]
