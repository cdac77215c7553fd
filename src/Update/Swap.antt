-- ===== src/Update/Swap.antt =====
-- agent/cmd/lightagent/update_apply_windows.go: the `ApplyFn` of the light agent, which puts the new
-- binary in the place of the running one.
pub mod Laws
pub mod Updating
use readyfleet_lightagent.Base.{
  ℕ, String, ◌<>◌, Option, none, some, [], Error, wrap, Result, ok, err, Act, lift, fail, modify,
  ignore, catch, ◌>>=◌, ◌>>◌,
}
use readyfleet_lightagent.Base.Disk.{Disk, remove, rename}
use readyfleet_lightagent.Verify.Authenticode.{Windows, authenticode}

-- The agent's process: the files that it sees, and the seconds after which it exits, once that is
-- decided.
pub record Process : Type 0 where
  pub disk : Disk
  pub exits_after : Option ℕ

-- A call on the files alone.
abbrev pub on_disk : {A : Type 0} → Act Disk A → Act Process A
on_disk c p = let (r, d) = c p.disk in (r, record p { disk = d })

-- Where the running binary is moved to.
abbrev pub old_path : String → String
old_path exe = exe <> ".old"

-- What follows the check of the signature, up to the delayed exit.
unfoldable pub swap : String → String → Act Disk (Unit {0})
swap exe_path downloaded_path = do
  ignore (remove (old_path exe_path))
  catch (rename exe_path (old_path exe_path)) (λ e. fail (wrap "rename running exe: %w" e))
  catch (rename downloaded_path exe_path) (λ e. do
    ignore (rename (old_path exe_path) exe_path)
    fail (wrap "move new exe into place: %w" e))
  ignore (remove (old_path exe_path))

-- applyLightUpdate; `exe` is what os.Executable returns
unfoldable pub apply_light_update :
    Windows → Result String → String → String → String → Act Process (Unit {0})
unfolding swap
apply_light_update w exe downloaded_path version signer_fingerprint = do
  exe_path ← lift exe
  λ p.
      catch
        (lift (authenticode w downloaded_path (p.disk.files downloaded_path) signer_fingerprint))
        (λ e. fail (wrap "authenticode: %w" e)) p
  on_disk (swap exe_path downloaded_path)
  modify (λ p. record p { exits_after = some 2 })

-- As the field `ApplyFn` of an update manager, which sees the files.
abbrev pub apply_fn : Windows → Result String → String → String → String → Act Disk (Unit {0})
apply_fn w exe downloaded_path version signer_fingerprint d =
    let (r, p) =
      apply_light_update w exe downloaded_path version signer_fingerprint
        (record { disk = d; exits_after = none }) in
    (r, p.disk)
