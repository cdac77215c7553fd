-- ===== src/Verify/Download.antt =====
-- agent/internal/verify/download.go: a bounded download into a temporary file, kept only if its
-- digest is the expected one.
pub mod Laws
use readyfleet_lightagent.Base.{
  ℕ, ◌+◌, String, ◌≡◌, Option, none, some, List, [], ◌∷◌, Bool, true, false, Error, new, errorf,
  wrap, Result, ok, err, Act, lift, fail, modify, ◌>>=◌, ◌>>◌, inspect, catch, ignore, guard, eqb,
  ltb, ◌==◌, if◌then◌else◌,
}
use readyfleet_lightagent.Base.Lists.{length, take}
use readyfleet_lightagent.Base.Text.{Bytes, bytes, bytes_eq}
use readyfleet_lightagent.Base.Disk.{Disk, Files, update, write_file, read_file, remove, touch}
use readyfleet_lightagent.Verify.Hex.{encode_to_string}

-- An HTTP response: its body, and the error that reading past the body's bytes meets, if any.
pub record Response : Type 0 where
  pub status : ℕ
  pub body : Bytes
  pub broken : Option Error

-- What the code calls and does not implement: the server behind `http.Client`, the name that
-- `os.CreateTemp` picks (none where it finds no unused one), `os.TempDir` and the digest of crypto/sha256.
pub record Machine : Type 0 where
  pub fetch : String → Result Response
  pub temp_name : String → String → Files → Option String
  pub temp_dir : String
  pub sha256 : Bytes → Bytes

-- os.CreateTemp makes a new file, whose name no file has.
pub record IsFresh (m : Machine) : Type 0 where
  pub fresh :
      (dir pattern : String) (f : Files) (p : String)
      → m.temp_name dir pattern f ≡ some p
      → f p ≡ none

pub record DownloadParams : Type 0 where
  pub url : String
  pub sha256 : String
  pub download_dir : String
  pub temp_pattern : String
  pub max_bytes : ℕ

module _ (m : Machine) where
  -- verifySHA256
  unfoldable pub verify_sha256 : String → String → Act Disk (Unit {0})
  verify_sha256 path want_hex = do
    content ← read_file path
    guard (bytes_eq (encode_to_string (m.sha256 content)) (bytes want_hex))
        (errorf "sha256 mismatch: got %s want %s" (want_hex ∷ []))

  abbrev make_empty : Option String → Act Disk String
  make_empty none d = (err (new "os: createtemp: file exists"), d)
  make_empty (some path) d = (ok path, record d { files = update d.files path (some []) })

  unfoldable pub create_temp : String → String → Act Disk String
  create_temp dir pattern = do touch; λ d. make_empty (m.temp_name dir pattern d.files) d

  -- `_ = os.Remove(path); return "", e`
  abbrev pub discard : String → Error → Act Disk String
  discard path e = do ignore (remove path); fail e

  abbrev pub failure : Option Error → Result (Unit {0})
  failure none = ok tt
  failure (some e) = err e

  -- io.Copy from the limited body: the limit may be reached before the fault of the connection.
  unfoldable pub copy_limited : String → Response → ℕ → Act Disk (Unit {0})
  copy_limited path r limit = do
    write_file path (take limit r.body)
    lift (if ltb (length r.body) limit then failure r.broken else ok tt)

  abbrev pub finish : String → Result (Unit {0}) → Act Disk String
  finish path (err e) = discard path e
  finish path (ok _) = λ d. (ok path, d)

  -- From the errors of the copy and of the close on.
  abbrev pub settle :
      DownloadParams → Response → String → Result (Unit {0}) → Result (Unit {0}) → Act Disk String
  settle p r path (err e) _ = discard path (wrap "download: %w" e)
  settle p r path (ok _) (err e) = discard path (wrap "download: %w" e)
  settle p r path (ok _) (ok _) =
      if ltb p.max_bytes (length (take (p.max_bytes + 1) r.body))
      then discard path (errorf "download exceeded %d bytes" [])
      else inspect (verify_sha256 path p.sha256) (finish path)

  -- From the temporary file on.
  unfoldable pub receive : DownloadParams → Response → String → Act Disk String
  receive p r path =
      inspect (copy_limited path r (p.max_bytes + 1))
        λ copied. inspect touch λ closed. settle p r path copied closed

  -- DownloadVerified
  unfoldable pub download_verified : DownloadParams → Act Disk String
  download_verified p = do
    r ← catch (lift (m.fetch p.url)) (λ e. fail (wrap "download: %w" e))
    guard (eqb r.status 200) (errorf "download: status %d" [])
    path ←
        catch
          (create_temp (if p.download_dir == "" then m.temp_dir else p.download_dir) p.temp_pattern)
          (λ e. fail (wrap "download: %w" e))
    receive p r path
