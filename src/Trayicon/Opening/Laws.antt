-- ===== src/Trayicon/Opening/Laws.antt =====
-- What OpenURL asks the shell to open.
use readyfleet_lightagent.Base.{
  ℕ, String, Bool, true, false, ◌&&◌, ◌≡◌, ◌⊎◌, ◌∷◌, inl, inr, Result, ok, err, is_ok, not, leb,
  ◌==◌, eq_iff, arith, Bool-cases, Result-cases,
}
use readyfleet_lightagent.Trayicon.Labels.{Units}
use readyfleet_lightagent.Trayicon.Opening.{Opened, open_url}

pub open_url_opened :
    (parse : String → Result String) (utf16_from_string : String → Result Units)
    (returns : String → ℕ) (raw_url : String) (o : Opened)
    → let (r, o') = open_url parse utf16_from_string returns raw_url o in
      ((o' ≡ o) × (is_ok r ≡ false))
      ⊎ ((o' ≡ (raw_url ∷ o))
          × (parse raw_url ≡ ok "https")
          × (is_ok r ≡ not (leb (returns raw_url) 32)))
unfolding open_url
open_url_opened parse utf16_from_string returns raw_url o = elim (Result-cases (parse raw_url)) [
  | inr (e, f) ↦ inl (ground arith)
  | inl (scheme, f) ↦ elim (Bool-cases (scheme == "https")) [
    | inr g ↦ inl (ground arith)
    | inl g ↦
        let e = (eq_iff scheme "https").0 g in
        elim (Result-cases (utf16_from_string "open")) [
          | inr (x, k) ↦ inl (ground arith)
          | inl (x, k) ↦ elim (Result-cases (utf16_from_string raw_url)) [
            | inr (y, l) ↦ inl (ground arith)
            | inl (y, l) ↦ inr (ground arith, ground arith, ground arith)
          ]
        ]
  ]
]

abbrev pub is_https : Result String → Bool
is_https (ok scheme) = scheme == "https"
is_https (err e) = false

-- OpenURL asks the shell to open its address, and only this, exactly when the address parses with the
-- scheme https and both the verb and the address can be encoded, and asks for nothing otherwise. It
-- passes exactly when it asked and the shell returned more than 32.
pub open_url_iff :
    (parse : String → Result String) (utf16_from_string : String → Result Units)
    (returns : String → ℕ) (raw_url : String) (o : Opened)
    → let (r, o') = open_url parse utf16_from_string returns raw_url o in
      let opens =
        is_https (parse raw_url)
        && (is_ok (utf16_from_string "open") && is_ok (utf16_from_string raw_url)) in
      (o' ≡ elim opens [ true ↦ raw_url ∷ o | false ↦ o ])
      × (is_ok r ≡ (opens && not (leb (returns raw_url) 32)))
unfolding open_url
open_url_iff parse utf16_from_string returns raw_url o = elim (Result-cases (parse raw_url)) [
  | inr (e, f) ↦ ground arith
  | inl (scheme, f) ↦ elim (Result-cases (utf16_from_string "open")) [
    | inr (x, k) ↦ ground arith
    | inl (x, k) ↦ elim (Result-cases (utf16_from_string raw_url)) [
      | inr (y, l) ↦ ground arith
      | inl (y, l) ↦ ground arith
    ]
  ]
]
