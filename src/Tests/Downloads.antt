-- ===== src/Tests/Downloads.antt =====
-- Downloads and updates at concrete inputs.
use readyfleet_lightagent.Base.{
  ℕ, zero, suc, String, ◌≡◌, inl, inr, refl, ap, Option-cases, errorf, Option, none, some, [], ◌∷◌,
  ok, arith,
}
use readyfleet_lightagent.Base.Text.{Bytes}
use readyfleet_lightagent.Base.Lists.{length}
use readyfleet_lightagent.Base.Disk.{Disk, Files, write_file, read_file, remove, touch}
use readyfleet_lightagent.Verify.Hex.{encode_to_string}
use readyfleet_lightagent.Verify.Download.{
  Machine, DownloadParams, IsFresh, download_verified, receive, copy_limited, verify_sha256,
  create_temp,
}
use readyfleet_lightagent.Verify.Download.Laws.{download_verified-err}

-- A digest that shows the length.
abbrev copies : ℕ → ℕ → Bytes
copies zero b = []
copies (suc n) b = b ∷ copies n b

abbrev pub of_three_bytes : String
of_three_bytes = "0303030303030303030303030303030303030303030303030303030303030303"

abbrev nothing : Files
nothing p = none

abbrev unused : Option Bytes → Option String
unused none = some "/tmp/fleet-agent-update-1.exe"
unused (some b) = none

-- Servers that send three bytes, four bytes, and three bytes with the status 404.
abbrev serves : ℕ → Bytes → Machine
serves status body = record {
  fetch = λ url. ok (record { status = status; body = body; broken = none });
  temp_name = λ dir pattern f. unused (f "/tmp/fleet-agent-update-1.exe");
  temp_dir = "/tmp";
  sha256 = λ b. copies 32 (length b);
}

abbrev params : DownloadParams
params = record {
  url = "https://fleet/agent.exe";
  sha256 = of_three_bytes;
  download_dir = "";
  temp_pattern = "fleet-agent-update-*.exe";
  max_bytes = 10;
}

abbrev pub blank : Disk
blank = record { files = nothing; outcomes = [] }

abbrev pub good : Machine
good = serves 200 (7 ∷ 8 ∷ 9 ∷ [])

good-IsFresh : IsFresh good
good-IsFresh = record {
  fresh = λ dir pattern f p h. elim (Option-cases (f "/tmp/fleet-agent-update-1.exe")) [
    | inl e ↦ ground (arith, ap f)
    | inr (b, e) ↦ absurd (ground arith)
  ];
}

-- The digest is another one.
abbrev other_params : DownloadParams
other_params = record params { sha256 = "04" }

download_verified-err_example :
    (download_verified good other_params blank).1.files "/tmp/fleet-agent-update-1.exe" ≡ none
unfolding download_verified create_temp receive copy_limited verify_sha256 write_file read_file
    remove touch encode_to_string
download_verified-err_example =
    download_verified-err good good-IsFresh other_params blank
      (errorf "sha256 mismatch: got %s want %s" ("04" ∷ []))
      (download_verified good other_params blank).1 refl refl "/tmp/fleet-agent-update-1.exe"
