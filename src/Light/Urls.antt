-- ===== src/Light/Urls.antt =====
-- agent/cmd/lightagent/main.go: the addresses that are derived from `server_url`.
pub mod Laws
use Prim.Native.Char.{Char, code}
use readyfleet_lightagent.Base.{
  ℕ, String, ◌<>◌, Bool, true, false, Option, none, some, List, [], ◌∷◌, eqb, if◌then◌else◌,
}

-- strings.HasPrefix(s, p), with s[len(p):] where it holds
abbrev pub strip_prefix : String → String → Option String
strip_prefix String.[] s = some s
strip_prefix (String.◌∷◌ c p) String.[] = none
strip_prefix (String.◌∷◌ c p) (String.◌∷◌ d s) =
    let rest = strip_prefix p s in if eqb (code c) (code d) then rest else none

-- s[:i] for the index of the first such byte, and the whole of s where there is none
abbrev pub before : ℕ → String → String
before c String.[] = ""
before c (String.◌∷◌ d s) =
    let rest = before c s in if eqb (code d) c then "" else String.◌∷◌ d rest

-- The loop over the schemes stops at the first that is found.
abbrev pub strip_first : List String → String → String
strip_first [] s = s
strip_first (p ∷ ps) s = elim (strip_prefix p s) [ none ↦ strip_first ps s | some rest ↦ rest ]

abbrev pub slash : ℕ
slash = 0x2F

abbrev pub colon : ℕ
colon = 0x3A

-- stripSchemeAndPath
unfoldable pub strip_scheme_and_path : String → String
strip_scheme_and_path server_url =
    before slash (strip_first ("wss://" ∷ "ws://" ∷ "https://" ∷ "http://" ∷ []) server_url)

-- deriveEnrollmentURL
unfoldable pub derive_enrollment_url : String → Bool → String
unfolding strip_scheme_and_path
derive_enrollment_url server_url insecure =
    (if insecure then "http" else "https")
    <> "://"
    <> strip_scheme_and_path server_url
    <> "/enroll/v1/redeem"

-- agentDownloadHost
unfoldable pub agent_download_host : String → String
unfolding strip_scheme_and_path
agent_download_host server_url = before colon (strip_scheme_and_path server_url)
