-- ===== src/Update/Swap/Updating.antt =====
-- The light agent's update as a whole: agent/internal/update/manager.go with its `ApplyFn`.
use readyfleet_lightagent.Base.{
  String, false, ◌≡◌, ap, ◌∙◌, none, some, Result, ok, Result-cases, inl, inr, arith,
}
use mathlib.Core.Path.{subst}
use readyfleet_lightagent.Base.Text.{Bytes, bytes}
use readyfleet_lightagent.Base.Disk.{Disk}
use readyfleet_lightagent.Proto.{UpdateArgs}
use readyfleet_lightagent.Verify.Hex.{encode_to_string}
use readyfleet_lightagent.Verify.Download.{Machine, download_verified}
use readyfleet_lightagent.Verify.Download.Laws.{download_verified-ok}
use readyfleet_lightagent.Verify.Authenticode.{Windows}
use readyfleet_lightagent.Verify.Authenticode.Laws.{IsAuthentic}
use readyfleet_lightagent.Update.Manager.{
  Manager, World, params, session_active, apply_verified, update_begun, update,
}
use readyfleet_lightagent.Update.Swap.{apply_fn}
use readyfleet_lightagent.Update.Swap.Laws.{IsPlaced, apply_light_update_swaps}

module _ (net : Machine) (m : Manager) (args : UpdateArgs) where
  update-downloaded :
      (w : World)
      → (update net m args w).0 ≡ ok tt
      → (path : String) × ((download_verified net (params m args) w.disk).0 ≡ ok path)
  unfolding update update_begun session_active
  update-downloaded w h = elim (Result-cases (download_verified net (params m args) w.disk).0) [
    | inl r ↦ r
    | inr (e, f) ↦ absurd (ground arith)
  ]

  update-handed :
      (w : World) (path : String)
      (apply : String → String → String → Disk → Result (Unit {0}) × Disk)
      → m.apply_fn ≡ some apply
      → (update net m args w).0 ≡ ok tt
      → (download_verified net (params m args) w.disk).0 ≡ ok path
      → let d = (download_verified net (params m args) w.disk).1 in
        let r = apply path args.version args.signer_fingerprint d in
        (r.0 ≡ ok tt) × ((update net m args w).1.disk ≡ r.1)
  unfolding update update_begun session_active apply_verified
  update-handed w path apply a h f =
      let d = (download_verified net (params m args) w.disk).1 in
      elim (Result-cases (apply path args.version args.signer_fingerprint d).0) [
        | inl (u, g) ↦ ground arith
        | inr (e, g) ↦ absurd (ground arith)
      ]

-- An update of the light agent that returns without an error has replaced the binary, with bytes that
-- have the digest that was asked for and that Windows trusts from the signer that was asked for. Its
-- download stood apart from the binary, which was there.
pub light_update_installs :
    (net : Machine) (m : Manager) (args : UpdateArgs) (win : Windows) (exe : String) (w : World)
    → m.apply_fn ≡ some (apply_fn win (ok exe))
    → ((path : String)
        → (download_verified net (params m args) w.disk).0 ≡ ok path
        → IsPlaced exe path (download_verified net (params m args) w.disk).1)
    → (update net m args w).0 ≡ ok tt
    → (path : String) × (b : Bytes) × ((update net m args w).1.disk.files exe ≡ some b)
      × (encode_to_string (net.sha256 b) ≡ bytes args.sha256)
      × IsAuthentic win false path (some b) args.signer_fingerprint
light_update_installs net m args win exe w a at h =
    let (path, got) = update-downloaded net m args w h in
    let d = (download_verified net (params m args) w.disk).1 in
    let (r, fetched, status, small, held, digest) =
      download_verified-ok net (params m args) w.disk path d
        (ap (λ (x : Result String). (x, d)) got) in
    let (passed, files) = update-handed net m args w path (apply_fn win (ok exe)) a h got in
    elim (apply_light_update_swaps win exe path args.version args.signer_fingerprint
      (record { disk = d; exits_after = none }) (at path got)) [
        | inl (same, bad, stays) ↦ absurd (ground arith)
        | inr t ↦ elim t [
          | inr (gone, old, bad, stays) ↦ absurd (ground arith)
          | inl (placed, gone, good, exits, authentic) ↦ (
            path,
            r.body,
            ap (λ (x : Disk). x.files exe) files ∙ placed ∙ held,
            digest,
            subst (λ x. IsAuthentic win false path x args.signer_fingerprint) held authentic,
          )
        ]
      ]
