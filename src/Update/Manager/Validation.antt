-- ===== src/Update/Manager/Validation.antt =====
-- Which arguments are accepted.
use readyfleet_lightagent.Base.{
  String, true, ◌≡◌, ◌≢◌, ◌↔◌, ◌⊎◌, inl, inr, Result, ok, err, List, [], ◌∷◌, arith, eq_iff, ◌==◌,
  refl, Bool-cases,
}
use mathlib.Core.List.{Memᴰ}
use readyfleet_lightagent.Proto.{UpdateArgs}
use readyfleet_lightagent.Verify.Hex.{valid_lower_hex256}
use readyfleet_lightagent.Update.Policy
use readyfleet_lightagent.Update.Policy.{ProductPolicy, member}
use readyfleet_lightagent.Update.Manager.{Config, Manager, has_fields, check_host, validate}

-- No field is empty.
pub record HasFields (a : UpdateArgs) : Type 0 where
  pub release_id : a.release_id ≢ ""
  pub version : a.version ≢ ""
  pub url : a.url ≢ ""
  pub sha256 : a.sha256 ≢ ""
  pub agent_profile : a.agent_profile ≢ ""
  pub signer_fingerprint : a.signer_fingerprint ≢ ""
  pub product_id : a.product_id ≢ ""

-- The arguments are for this product and profile, and signed by a signer of the local list.
pub record MatchesPolicy (p : ProductPolicy) (a : UpdateArgs) : Type 0 where
  pub product_id : a.product_id ≡ p.product_id
  pub agent_profile : a.agent_profile ≡ p.profile
  pub signer : Memᴰ a.signer_fingerprint p.signers

pub record IsAccepted (m : Manager) (a : UpdateArgs) : Type 0 where
  pub fields : HasFields a
  pub sha256 : valid_lower_hex256 a.sha256 ≡ true
  pub signer_fingerprint : valid_lower_hex256 a.signer_fingerprint ≡ true
  pub policy : MatchesPolicy m.cfg.policy a
  pub host :
      (h : String) × (m.hostname a.url ≡ ok h)
      × ((m.cfg.allowed_host ≡ "") ⊎ (h ≡ m.cfg.allowed_host))

member_of_Memᴰ :
    (s t : String) (l : List String)
    → (Memᴰ s l → member s l ≡ true)
    → Memᴰ s (t ∷ l)
    → member s (t ∷ l) ≡ true
member_of_Memᴰ s t l ih (Memᴰ.head e) = ground (arith, eq_iff s t)
member_of_Memᴰ s t l ih (Memᴰ.tail h) = let k = ih h in ground arith

pub member_iff : (s : String) (l : List String) → (member s l ≡ true) ↔ Memᴰ s l
member_iff s [] = (λ h. cc, λ h. elim h [ ])
member_iff s (t ∷ l) = (
  λ h. elim (Bool-cases (s == t)) [
    | inl e ↦ Memᴰ.head ((eq_iff s t).0 e)
    | inr e ↦ Memᴰ.tail ((member_iff s l).0 (ground arith))
  ],
  member_of_Memᴰ s t l (member_iff s l).1,
)

pub has_fields_iff : (a : UpdateArgs) → (has_fields a ≡ true) ↔ HasFields a
has_fields_iff a = ground (
  arith,
  eq_iff a.release_id "",
  eq_iff a.version "",
  eq_iff a.url "",
  eq_iff a.sha256 "",
  eq_iff a.agent_profile "",
  eq_iff a.signer_fingerprint "",
  eq_iff a.product_id "",
)

pub policy_iff :
    (p : ProductPolicy) (a : UpdateArgs) → (Policy.validate p a ≡ ok tt) ↔ MatchesPolicy p a
unfolding Policy.validate
policy_iff p a = (
  λ h. record {
    product_id = ground (arith, eq_iff a.product_id p.product_id);
    agent_profile = ground (arith, eq_iff a.agent_profile p.profile);
    signer = (member_iff a.signer_fingerprint p.signers).0 (ground arith);
  },
  λ h.
      let m = (member_iff a.signer_fingerprint p.signers).1 h.signer in
      ground (arith, eq_iff a.product_id p.product_id, eq_iff a.agent_profile p.profile),
)

check_host_iff :
    (cfg : Config) (r : Result (Unit {0})) (u : Result String)
    → (check_host cfg r u ≡ ok tt) ↔ (
        (r ≡ ok tt)
        × ((h : String) × (u ≡ ok h) × ((cfg.allowed_host ≡ "") ⊎ (h ≡ cfg.allowed_host))))
check_host_iff cfg (err e) u = (λ h. cc, λ h. cc h.0)
check_host_iff cfg (ok x) (err e) = (λ h. cc, λ h. cc h.1.1)
check_host_iff cfg (ok tt) (ok s) = (
  λ h. (refl, (s, refl, ground (arith, eq_iff cfg.allowed_host "", eq_iff s cfg.allowed_host))),
  λ h. ground (arith, eq_iff cfg.allowed_host "", eq_iff s cfg.allowed_host),
)

-- `validate` accepts exactly the arguments with all fields, digests of the right shape, that match
-- the local policy and whose URL has the allowed host, if one is set.
pub validate_iff : (m : Manager) (a : UpdateArgs) → (validate m a ≡ ok tt) ↔ IsAccepted m a
unfolding validate
validate_iff m a = (
  λ h. record {
    fields = (has_fields_iff a).0 (ground arith);
    sha256 = ground arith;
    signer_fingerprint = ground arith;
    policy =
        (policy_iff m.cfg.policy a).0
          ((check_host_iff m.cfg (Policy.validate m.cfg.policy a) (m.hostname a.url)).0
            (ground arith)).0;
    host =
        ((check_host_iff m.cfg (Policy.validate m.cfg.policy a) (m.hostname a.url)).0
          (ground arith)).1;
  },
  λ h.
      let host =
        (check_host_iff m.cfg (Policy.validate m.cfg.policy a) (m.hostname a.url)).1
          ((policy_iff m.cfg.policy a).1 h.policy, h.host) in
      ground (arith, (has_fields_iff a).1 h.fields),
)
