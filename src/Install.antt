-- ===== src/Install.antt =====
-- agent/internal/lightinstall: install.go, over the function fields of its Manager, with the two of
-- install_windows.go that keep and remove files.
pub mod Payload
pub mod Windows
pub mod Laws
use readyfleet_lightagent.Base.{
  String, Bool, true, false, List, [], ◌∷◌, Option, none, some, Error, wrap, Result, ok, err, Act,
  pure, fail, catch, inspect, ◌>>=◌, ◌>>◌, if◌then◌else◌,
}
use readyfleet_lightagent.Base.Text.{Bytes}
use readyfleet_lightagent.Base.Disk.{
  Disk, Files, Outcome, pass, fault, torn, outcome, later, write_file, touch,
}

pub record Paths : Type 0 where
  pub root : String
  pub agent_exe : String
  pub config_path : String
  pub key_path : String
  pub log_path : String

-- The function fields of Manager over a machine; `P` is the payload.
pub record Seams (S P : Type 0) : Type 0 where
  pub verify_agent : String → Act S (Unit {0})
  pub protect_key : String → Act S (Unit {0})
  pub register_task : String → Act S (Unit {0})
  pub remove_task : Act S (Unit {0})
  pub enroll : P → Act S (Unit {0})
  pub start_agent : String → Act S (Unit {0})
  pub wait_for_connected : String → Act S (Unit {0})
  pub unlink_online : String → Act S (Unit {0})
  pub remove_all : String → Act S (Unit {0})
  pub write_tombstone : String → Act S (Unit {0})

module _ {S P : Type 0} (p : Paths) (m : Seams S P) where
  -- Manager.Install; the labels for the user interface are left out.
  unfoldable pub install : P → Act S (Unit {0})
  install payload = do
    catch (m.verify_agent p.agent_exe) (λ e. fail (wrap "lightinstall: verify agent: %w" e))
    catch (m.enroll payload) (λ e. fail (wrap "lightinstall: enroll: %w" e))
    catch (m.protect_key p.key_path) (λ e. fail (wrap "lightinstall: protect key: %w" e))
    catch (m.register_task p.agent_exe)
        (λ e. fail (wrap "lightinstall: register logon startup: %w" e))
    catch (m.start_agent p.agent_exe) (λ e. fail (wrap "lightinstall: start agent: %w" e))
    catch (m.wait_for_connected p.log_path)
        (λ e. fail (wrap "lightinstall: confirm connection: %w" e))
    pure tt

  abbrev or_tombstone : Result (Unit {0}) → Act S (Unit {0})
  or_tombstone (ok _) = pure tt
  or_tombstone (err e) = catch (m.write_tombstone p.root) (λ t.
      fail (wrap "lightinstall: unlink failed (%v) and could not record a pending tombstone: %w" t))

  -- The part of Uninstall before the logon entry is removed.
  unfoldable pub revoke : Act S (Unit {0})
  revoke = inspect (m.unlink_online p.agent_exe) or_tombstone

  -- Manager.Uninstall
  unfoldable pub uninstall : Act S (Unit {0})
  uninstall = do
    revoke
    catch m.remove_task (λ e. fail (wrap "lightinstall: remove logon startup: %w" e))
    m.remove_all p.root

-- `join` is filepath.Join, `is_below` says which files os.RemoveAll removes with a directory,
-- `locked` which of them cannot be removed when it fails, and `stamp` is the time as text.
pub record Layout : Type 0 where
  pub join : String → String → String
  pub is_below : String → String → Bool
  pub locked : String → Bool
  pub stamp : Bytes

module _ (l : Layout) where
  abbrev pub tombstone_path : String → String
  tombstone_path root = l.join root "pending-unlink.tombstone"

  -- writeTombstone
  unfoldable pub write_tombstone : String → Act Disk (Unit {0})
  write_tombstone root = do
    catch touch (λ e. fail (wrap "ensure %s: %w" e))
    write_file (tombstone_path root) l.stamp

  abbrev without : Files → (String → Bool) → Files
  without f dies q = if dies q then none else f q

  -- os.RemoveAll: on an error, some files are gone
  abbrev cleared : Outcome → String → Files → Result (Unit {0}) × Files
  cleared pass root f = (ok tt, without f (l.is_below root))
  cleared (fault e) root f = (err e, f)
  cleared (torn n e) root f =
      (err e, without f (λ q. if l.locked q then false else l.is_below root q))

  unfoldable pub remove_tree : String → Act Disk (Unit {0})
  remove_tree root d =
      let (r, f) = cleared (outcome d.outcomes) root d.files in
      (r, record { files = f; outcomes = later d.outcomes })

  -- removeInstallDir
  unfoldable pub remove_install_dir : String → Act Disk (Unit {0})
  unfolding remove_tree
  remove_install_dir root = catch (remove_tree root) (λ e. fail (wrap "remove %s: %w" e))

  -- New, for these two fields
  abbrev pub windows_seams : {P : Type 0} → Seams Disk P → Seams Disk P
  windows_seams m = record m { write_tombstone = write_tombstone; remove_all = remove_install_dir }
