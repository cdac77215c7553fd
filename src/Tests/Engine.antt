-- ===== src/Tests/Engine.antt =====
-- An engine's package and its signature at concrete inputs.
use mathlib.Core.List.{Memᴰ}
use mathlib.Core.Path.{subst}
use readyfleet_lightagent.Base.{
  ℕ, zero, suc, String, ◌<>◌, true, false, ◌≡◌, ◌≢◌, ◌↔◌, refl, sym, ap, Option, none, some, [],
  ◌∷◌, List, ok, err, new, ◌==◌, if◌then◌else◌, arith, Result,
}
use readyfleet_lightagent.Base.Text.{Bytes, bytes}
use readyfleet_lightagent.Base.Disk.{
  Disk, pass, torn, write_file, read_file, remove, rename, touch, temporary,
}
use readyfleet_lightagent.Verify.Hex.{decode_string, encode_to_string}
use readyfleet_lightagent.Verify.Download.{
  Response, download_verified, receive, copy_limited, verify_sha256, create_temp,
}
use readyfleet_lightagent.Verify.Authenticode.{
  Windows, no_handles, verify_authenticode, verify_authenticode_with, verify_trust,
  signer_certificate_der, crypt_msg_signer_cert_info, verify_signer_certificate_der,
}
use readyfleet_lightagent.Verify.Authenticode.Laws.{IsAuthentic, authenticode_iff}
use readyfleet_lightagent.Proto.{SolarbeamEngineUpdateArgs}
use readyfleet_lightagent.Solarbeam.Archive.{
  params, Entry, Layout, Paths, apply_engine_update, engine_install_dir, install_package,
  extract_zip, extract_entry, extract_zip_file, extract_all, copy_entry, escapes,
}
use readyfleet_lightagent.Solarbeam.Archive.Confinement.{IsOutside, extract_zip_confined}
use readyfleet_lightagent.Solarbeam.Archive.Contents.{IsFinal, Whole, extract_zip-Whole}
use readyfleet_lightagent.Solarbeam.Archive.Updating.{AreApart, Extracted, apply_engine_update-ok}
use readyfleet_lightagent.Tests.Files.{unequal}
use readyfleet_lightagent.Tests.Downloads.{good, blank, of_three_bytes}

abbrev digest : ℕ → Bytes → Bytes
digest zero b = []
digest (suc n) b = 3 ∷ digest n b

-- A chain whose root is not trusted, over every file but the empty one.
abbrev untrusted : Option Bytes → Result (Unit {0})
untrusted (some (b ∷ bs)) = ok tt
untrusted _ = err (new "CERT_E_UNTRUSTEDROOT")

abbrev pub windows : Windows
windows = record {
  Message = Unit {0};
  encode_path = λ p. ok tt;
  verify_trust = untrusted;
  is_untrusted_root = λ e. true;
  query_object = λ file. ok tt;
  param_size = λ msg. ok 4;
  param = λ msg size. ok (1 ∷ 2 ∷ 3 ∷ 4 ∷ []);
  find_certificate = λ msg info. ok (48 ∷ []);
  sha256 = digest 32;
}

authenticode_iff_example :
    ((verify_authenticode_with windows true "engine.exe" none of_three_bytes no_handles).0 ≡ ok tt)
    ↔ IsAuthentic windows true "engine.exe" none of_three_bytes
authenticode_iff_example = authenticode_iff windows true "engine.exe" none of_three_bytes no_handles

abbrev entry : String → Entry
entry name = record { name = name; is_dir = false; opens = ok tt; body = 5 ∷ []; broken = none }

-- An entry that climbs out of the directory, and the engine.
abbrev layout : Layout
layout = record {
  read_zip = λ file. ok (entry "engine.exe" ∷ entry "../evil.exe" ∷ []);
  abs = λ p. ok p;
  join = λ dir name. if name == "../evil.exe" then "/evil.exe" else dir <> "/" <> name;
  dir = λ p. "/app";
  separator = "/";
}

evil-IsOutside : IsOutside layout "/app" "/evil.exe"
evil-IsOutside = record {
  not_dir = λ e. ground (arith, ap (λ (x : String). x == "/app") e);
  not_temporary = λ e. ground (arith, ap (λ (x : String). x == "/app.tmp") e);
  not_below = refl;
}

extract_zip_confined_example :
    (extract_zip layout "/tmp/e.zip" "/app" blank).1.files "/evil.exe" ≡ none
extract_zip_confined_example =
    extract_zip_confined layout "/tmp/e.zip" "/app" "/app" "/evil.exe" blank refl evil-IsOutside

-- The disk fills up while the engine is written.
abbrev full : Disk
full = record blank { outcomes = pass ∷ pass ∷ torn 0 (new "disk full") ∷ [] }

engine-IsFinal :
    IsFinal layout "/app" "/app/engine.exe" (entry "engine.exe" ∷ entry "../evil.exe" ∷ [])
engine-IsFinal f m e = elim m [
  | Memᴰ.head p ↦ ground (
    arith,
    ap (λ (g : Entry). temporary (layout.join "/app" g.name) == "/app/engine.exe") p,
    ap (λ (x : String). x == "/app/engine.exe") e,
  )
  | Memᴰ.tail n ↦ elim n [
    | Memᴰ.head p ↦ ground (
      arith,
      ap (λ (g : Entry). temporary (layout.join "/app" g.name) == "/app/engine.exe") p,
      ap (λ (x : String). x == "/app/engine.exe") e,
    )
    | Memᴰ.tail k ↦ elim k [ ]
  ]
]

extract_zip-Whole_example :
    Whole layout "/app" "/app/engine.exe"
      (entry "engine.exe" ∷ entry "../evil.exe" ∷ [])
      none
      ((extract_zip layout "/tmp/e.zip" "/app" full).1.files "/app/engine.exe")
extract_zip-Whole_example =
    extract_zip-Whole layout "/tmp/e.zip" "/app" "/app" "/app/engine.exe" full
      (entry "engine.exe" ∷ entry "../evil.exe" ∷ []) refl refl engine-IsFinal

abbrev sound : Layout
sound = record layout { read_zip = λ file. ok (entry "engine.exe" ∷ []) }

abbrev place : Paths
place = record { engine = "/app/engine.exe"; root = "/app" }

abbrev args : SolarbeamEngineUpdateArgs
args = record {
  release_id = "r";
  version = "2";
  url = "https://fleet/engine.zip";
  sha256 = of_three_bytes;
  signer_fingerprint = of_three_bytes;
  product_id = "solarbeam";
}

abbrev found : Result String → String
found (ok p) = p
found (err e) = ""

abbrev download : String
download = found (download_verified good (params sound args) blank).0

abbrev engine_only : List Entry
engine_only = entry "engine.exe" ∷ []

download-AreApart : AreApart sound place download "/app" engine_only
unfolding download_verified create_temp receive copy_limited verify_sha256 write_file read_file
    remove touch encode_to_string decode_string
download-AreApart = record {
  engine = unequal _ _ refl;
  entries = λ f m. elim m [
    | Memᴰ.head p ↦
        subst (λ (g : Entry). download ≢ sound.join "/app" g.name) (sym p) (unequal _ _ refl)
    | Memᴰ.tail n ↦ elim n [ ]
  ];
  final = λ f m g n. elim m [
    | Memᴰ.head p ↦ elim n [
      | Memᴰ.head q ↦
          subst (λ (i : Entry). temporary (sound.join "/app" g.name) ≢ sound.join "/app" i.name)
            (sym p)
            (subst (λ (i : Entry). temporary (sound.join "/app" i.name) ≢ "/app/engine.exe") (sym q)
              (unequal _ _ refl))
      | Memᴰ.tail k ↦ elim k [ ]
    ]
    | Memᴰ.tail k ↦ elim k [ ]
  ];
}

apply_engine_update-ok_example :
    (engine_install_dir sound place ≢ "")
    × (r : Response) × (good.fetch args.url ≡ ok r)
    × (encode_to_string (good.sha256 r.body) ≡ bytes of_three_bytes)
    × (fs : List Entry) × (dir : String) × (sound.read_zip (some r.body) ≡ ok fs)
    × (sound.abs (engine_install_dir sound place) ≡ ok dir)
    × Extracted sound dir fs (apply_engine_update sound good windows place args blank).1
    × IsAuthentic windows false "/app/engine.exe"
        ((apply_engine_update sound good windows place args blank).1.files "/app/engine.exe")
        of_three_bytes
unfolding apply_engine_update engine_install_dir install_package extract_zip extract_entry
    extract_all extract_zip_file copy_entry escapes download_verified create_temp receive
    copy_limited verify_sha256 write_file read_file remove rename touch encode_to_string
    decode_string verify_authenticode verify_authenticode_with verify_trust signer_certificate_der
    crypt_msg_signer_cert_info verify_signer_certificate_der
apply_engine_update-ok_example =
    apply_engine_update-ok sound good windows place args blank
      (apply_engine_update sound good windows place args blank).1
      (λ path dir fs e a.
        subst (λ (x : String). AreApart sound place x dir fs) (ground (arith, ap found e))
          (subst (λ (x : String). AreApart sound place download x fs) (ground (arith, a.1))
            (subst (AreApart sound place download "/app") (ground (arith, a.0)) download-AreApart)))
      refl
