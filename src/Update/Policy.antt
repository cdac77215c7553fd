-- ===== src/Update/Policy.antt =====
-- agent/internal/update/profile.go: which update this entrypoint accepts.
use readyfleet_lightagent.Base.{
  String, Bool, false, List, [], ◌∷◌, ◌||◌, not, Result, ok, err, errorf, ◌==◌, if◌then◌else◌,
}
use readyfleet_lightagent.Proto.{UpdateArgs}

-- `signers` is a Go map used as a set.
pub record ProductPolicy : Type 0 where
  pub product_id : String
  pub profile : String
  pub signers : List String

abbrev pub member : String → List String → Bool
member s [] = false
member s (t ∷ ts) = s == t || member s ts

-- ProductPolicy.Validate
unfoldable pub validate : ProductPolicy → UpdateArgs → Result (Unit {0})
validate p args =
    if not (args.product_id == p.product_id)
    then err (
        errorf "update policy: product_id %q not accepted for profile %q"
          (args.product_id ∷ p.profile ∷ []))
    else if not (args.agent_profile == p.profile)
    then err (
        errorf "update policy: agent_profile %q does not match %q"
          (args.agent_profile ∷ p.profile ∷ []))
    else if not (member args.signer_fingerprint p.signers)
    then err (
        errorf "update policy: signer_fingerprint is not in the trusted set for %q"
          (p.profile ∷ []))
    else ok tt
