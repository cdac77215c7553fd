-- ===== src/Update/Swap/Laws.antt =====
-- What is at the place of the agent's binary after an update.
use readyfleet_lightagent.Base.{
  String, true, false, ◌≡◌, ◌≢◌, ◌⊎◌, inl, inr, none, some, Result, ok, is_ok, Result-cases, arith,
  sym, ap,
}
use readyfleet_lightagent.Base.Text.{Bytes, append-ne}
use readyfleet_lightagent.Base.Disk.Laws.{remove_frame, rename_frame, rename-cases}
use readyfleet_lightagent.Base.Disk.{Files, Disk, remove, rename}
use readyfleet_lightagent.Verify.Authenticode.{
  Windows, authenticode, no_handles, verify_authenticode,
}
use readyfleet_lightagent.Verify.Authenticode.Laws.{IsAuthentic, authenticode_iff}
use readyfleet_lightagent.Update.Swap.{Process, old_path, swap, apply_light_update}

old_path-ne : (exe : String) → old_path exe ≢ exe
old_path-ne exe = append-ne exe ".old" (λ e. cc)

-- The places of an update are apart, and the agent's binary is there.
pub record IsPlaced (exe path : String) (d : Disk) : Type 0 where
  pub apart : path ≢ exe
  pub apart_old : path ≢ old_path exe
  pub old : Bytes
  pub running : d.files exe ≡ some old

-- What an update has done: nothing to the binary; or the whole exchange; or the binary is where it
-- was moved to, and the move back has failed too.
abbrev pub Swapped : String → String → Disk → Result (Unit {0}) → Disk → Type 0
Swapped exe path d r d' =
    ((d'.files exe ≡ d.files exe) × (is_ok r ≡ false))
    ⊎ ((d'.files exe ≡ d.files path) × (d'.files path ≡ none) × (is_ok r ≡ true))
    ⊎ ((d'.files exe ≡ none) × (d'.files (old_path exe) ≡ d.files exe) × (is_ok r ≡ false))

swap-Swapped :
    (exe path : String) (d : Disk)
    → IsPlaced exe path d
    → Swapped exe path d (swap exe path d).0 (swap exe path d).1
unfolding swap
swap-Swapped exe path d at =
    let old = old_path exe in
    let e_old = λ (e : exe ≡ old). old_path-ne exe (sym e) in
    let p_old = λ (e : old ≡ path). at.apart_old (sym e) in
    let d1 = (remove old d).1 in
    let exe1 = remove_frame old exe d (old_path-ne exe) in
    let path1 = remove_frame old path d p_old in
    elim (rename-cases exe old d1 e_old) [
      | inl (bad, files) ↦ inl (ground (arith, ap (λ (f : Files). f exe) files))
      | inr (good, at_old, gone) ↦
          let d2 = (rename exe old d1).1 in
          let path2 = rename_frame exe path d1 (λ e. at.apart (sym e)) old p_old in
          elim (rename-cases path exe d2 at.apart) [
            | inr (good', at_exe, gone') ↦
                let d3 = (rename path exe d2).1 in
                inr (
                  inl (
                    ground (
                      arith,
                      remove_frame old exe d3 (old_path-ne exe),
                      remove_frame old path d3 p_old,
                    )))
            | inl (bad, files) ↦
                let d3 = (rename path exe d2).1 in
                let old3 = ap (λ (f : Files). f old) files in
                let exe3 = ap (λ (f : Files). f exe) files in
                elim (rename-cases old exe d3 (old_path-ne exe)) [
                  | inl (bad', files') ↦ inr (
                      inr (
                        ground (
                          arith,
                          ap (λ (f : Files). f old) files',
                          ap (λ (f : Files). f exe) files',
                        )))
                  | inr (good', at_exe, gone') ↦ inl (ground arith)
                ]
          ]
    ]

-- The same of a light update, with the signature and the exit of the process.
abbrev pub LightSwapped :
    Windows → String → String → String → Process → Result (Unit {0}) × Process → Type 0
LightSwapped w exe path fingerprint p (r, p') =
    ((p'.disk.files exe ≡ p.disk.files exe) × (is_ok r ≡ false) × (p'.exits_after ≡ p.exits_after))
    ⊎ ((p'.disk.files exe ≡ p.disk.files path)
        × (p'.disk.files path ≡ none)
        × (r ≡ ok tt)
        × (p'.exits_after ≡ some 2)
        × IsAuthentic w false path (p.disk.files path) fingerprint)
    ⊎ ((p'.disk.files exe ≡ none)
        × (p'.disk.files (old_path exe) ≡ p.disk.files exe)
        × (is_ok r ≡ false)
        × (p'.exits_after ≡ p.exits_after))

-- A light update that finds its own binary, whatever fails in it, does one of three things. It leaves
-- the binary as it is and returns an error; or it returns without one, and then the binary's place
-- holds what was downloaded, Windows trusts that and its signer is the one asked for, and the process
-- exits after two seconds; or it returns an error with the binary beside its place, since both the
-- move of the new one and the move back failed.
pub apply_light_update_swaps :
    (w : Windows) (exe path version fingerprint : String) (p : Process)
    → IsPlaced exe path p.disk
    → LightSwapped w exe path fingerprint p
        (apply_light_update w (ok exe) path version fingerprint p)
unfolding apply_light_update verify_authenticode
apply_light_update_swaps w exe path version fingerprint p at =
    elim (Result-cases (authenticode w path (p.disk.files path) fingerprint)) [
      | inr (e, f) ↦ inl (ground arith)
      | inl (u, f) ↦
          let checked =
            (authenticode_iff w false path (p.disk.files path) fingerprint no_handles).0 f in
          elim (swap-Swapped exe path p.disk at) [
            | inl (same, bad) ↦ inl (ground arith)
            | inr t ↦ elim t [
              | inl (same, gone, good) ↦
                  inr (inl (ground arith, ground arith, ground arith, ground arith, checked))
              | inr (gone, old, bad) ↦ inr (inr (ground arith))
            ]
          ]
    ]
