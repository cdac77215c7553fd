-- ===== src/Solarbeam/Archive.antt =====
-- agent/internal/solarbeam/update_windows.go: the engine's package, downloaded, extracted over the
-- install directory, and checked for its signer.
pub mod Confinement
pub mod Contents
pub mod Updating
use text.Mathlib.Text.{starts_with}
use readyfleet_lightagent.Base.{
  ℕ, ◌*◌, String, ◌<>◌, Bool, true, false, not, ◌&&◌, ◌||◌, Option, none, some, List, [], ◌∷◌,
  Error, new, errorf, wrap, not_exist, Result, ok, err, Act, pure, fail, lift, ignore, catch,
  inspect, guard, ◌>>=◌, ◌>>◌, ◌==◌, if◌then◌else◌,
}
use readyfleet_lightagent.Base.Text.{Bytes}
use readyfleet_lightagent.Base.Disk.{Disk, write_file, remove, rename, touch, temporary}
use readyfleet_lightagent.Proto.{SolarbeamEngineUpdateArgs}
use readyfleet_lightagent.Verify.Download.{Machine, DownloadParams, download_verified}
use readyfleet_lightagent.Verify.Authenticode.{Windows, authenticode}

abbrev pub max_engine_update_bytes : ℕ
max_engine_update_bytes = 200 * 1024 * 1024

-- A file of an archive: whether it opens, the bytes that reading it gives, and the error that is met
-- past them, if any. File modes are not kept.
pub record Entry : Type 0 where
  pub name : String
  pub is_dir : Bool
  pub opens : Result (Unit {0})
  pub body : Bytes
  pub broken : Option Error

-- zip.OpenReader on a file's content, filepath.Abs, Join and Dir, and the separator.
pub record Layout : Type 0 where
  pub read_zip : Option Bytes → Result (List Entry)
  pub abs : String → Result String
  pub join : String → String → String
  pub dir : String → String
  pub separator : String

-- The engine's Paths, without the bridge and the mode.
pub record Paths : Type 0 where
  pub engine : String
  pub root : String

abbrev pub failure : Option Error → Result (Unit {0})
failure none = ok tt
failure (some e) = err e

-- io.Copy of an entry
unfoldable pub copy_entry : Entry → String → Act Disk (Unit {0})
copy_entry f tmp = do write_file tmp f.body; lift (failure f.broken)

-- `_ = os.Remove(tmp); return err`
abbrev pub drop_file : String → Error → Act Disk (Unit {0})
drop_file tmp e = do ignore (remove tmp); fail e

-- extractZipFile
unfoldable pub extract_zip_file : Entry → String → Act Disk (Unit {0})
unfolding copy_entry
extract_zip_file f dest = do
  lift f.opens
  write_file (temporary dest) []
  catch (copy_entry f (temporary dest)) (λ e. do ignore touch; drop_file (temporary dest) e)
  catch touch (drop_file (temporary dest))
  catch (rename (temporary dest) dest) (drop_file (temporary dest))

module _ (l : Layout) where
  -- The guard against entries that leave the directory.
  unfoldable pub escapes : String → String → Bool
  escapes dest_abs entry_path =
      not (entry_path == dest_abs) && not (starts_with entry_path (dest_abs <> l.separator))

  -- One turn of the loop of extractZip.
  unfoldable pub extract_entry : String → Entry → Act Disk (Unit {0})
  unfolding escapes
  extract_entry dest_abs f = do
    guard (not (escapes dest_abs (l.join dest_abs f.name)))
        (errorf "zip entry %q escapes install dir" (f.name ∷ []))
    if f.is_dir then touch else (do
      touch
      catch (extract_zip_file f (l.join dest_abs f.name)) (λ e. fail (wrap "extract %s: %w" e)))

  -- The loop of extractZip.
  unfoldable pub extract_all : String → List Entry → Act Disk (Unit {0})
  extract_all dest_abs [] = pure tt
  extract_all dest_abs (f ∷ fs) =
      let rest = extract_all dest_abs fs in extract_entry dest_abs f >> rest

  -- extractZip
  unfoldable pub extract_zip : String → String → Act Disk (Unit {0})
  extract_zip src dest_dir = do
    files ← λ d. (l.read_zip (d.files src), d)
    dest_abs ← lift (l.abs dest_dir)
    extract_all dest_abs files

  -- engineInstallDir
  unfoldable pub engine_install_dir : Paths → String
  engine_install_dir p =
      if not (p.root == "") then p.root else if p.engine == "" then "" else l.dir p.engine

  abbrev pub params : SolarbeamEngineUpdateArgs → DownloadParams
  params args = record {
    url = args.url;
    sha256 = args.sha256;
    download_dir = "";
    temp_pattern = "solarbeam-engine-update-*.zip";
    max_bytes = max_engine_update_bytes;
  }

  -- What follows the download, before the downloaded file is removed.
  unfoldable pub install_package : Windows → Paths → String → String → String → Act Disk (Unit {0})
  install_package w p fingerprint install_dir path = do
    catch touch (λ e. fail (wrap "create install dir: %w" e))
    catch (extract_zip path install_dir) (λ e. fail (wrap "extract engine package: %w" e))
    λ d.
        catch (lift (authenticode w p.engine (d.files p.engine) fingerprint))
          (λ e. fail (wrap "authenticode: %w" e)) d

  -- `defer os.Remove(path)`
  abbrev removing : String → Result (Unit {0}) → Act Disk (Unit {0})
  removing path r = do ignore (remove path); lift r

  -- applyEngineUpdate
  unfoldable pub apply_engine_update :
      Machine → Windows → Paths → SolarbeamEngineUpdateArgs → Act Disk (Unit {0})
  apply_engine_update net w p args = do
    guard (not (engine_install_dir p == "")) (new "engine path not configured")
    path ← download_verified net (params args)
    inspect (install_package w p args.signer_fingerprint (engine_install_dir p) path)
        (removing path)
