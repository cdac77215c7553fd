-- ===== src/Light/Urls/Laws.antt =====
-- What the derived addresses name.
use Prim.Native.Char.{code}
use text.Mathlib.TextLemmas.{nil-append, cons-append}
use readyfleet_lightagent.Base.{
  ℕ, String, ◌<>◌, Bool, true, false, not, ◌&&◌, ◌≡◌, refl, none, some, [], ◌∷◌, eqb, eqb_iff,
  arith, ap, ◌∙◌, if◌then◌else◌,
}
use readyfleet_lightagent.Light.Urls.{
  before, slash, colon, strip_first, strip_prefix, strip_scheme_and_path, derive_enrollment_url,
  agent_download_host,
}

-- No character of a text has this code.
abbrev pub lacks : ℕ → String → Bool
lacks c String.[] = true
lacks c (String.◌∷◌ d s) = not (eqb (code d) c) && lacks c s

-- A text that is empty or starts with this character.
abbrev pub is_cut : ℕ → String → Bool
is_cut c String.[] = true
is_cut c (String.◌∷◌ d s) = eqb (code d) c

before-append :
    (c : ℕ) (s t : String) → lacks c s ≡ true → is_cut c t ≡ true → before c (s <> t) ≡ s
before-append c String.[] String.[] h k = rw (nil-append "") refl
before-append c String.[] (String.◌∷◌ d t) h k = rw (nil-append (String.◌∷◌ d t)) (ground arith)
before-append c (String.◌∷◌ d s) t h k =
    rw (cons-append d s t) (ground (arith, before-append c s t))

strip_prefix-append : (p s : String) → strip_prefix p (p <> s) ≡ some s
strip_prefix-append String.[] s = rw (nil-append s) refl
strip_prefix-append (String.◌∷◌ c p) s =
    rw (cons-append c p s) (ground (arith, strip_prefix-append p s, eqb_iff (code c) (code c)))

-- Two texts with different characters at some place.
abbrev differ : String → String → Bool
differ (String.◌∷◌ c p) (String.◌∷◌ d q) =
    let rest = differ p q in if eqb (code c) (code d) then rest else true
differ _ _ = false

strip_prefix-differ : (p q s : String) → differ p q ≡ true → strip_prefix p (q <> s) ≡ none
strip_prefix-differ String.[] String.[] s h = ground arith
strip_prefix-differ String.[] (String.◌∷◌ d q) s h = ground arith
strip_prefix-differ (String.◌∷◌ c p) String.[] s h = ground arith
strip_prefix-differ (String.◌∷◌ c p) (String.◌∷◌ d q) s h =
    rw (cons-append d q s) (ground (arith, strip_prefix-differ p q s))

-- The schemes that an agent is given.
pub data Scheme : String → Type 0 where
  wss : Scheme "wss://"
  ws : Scheme "ws://"
  https : Scheme "https://"
  http : Scheme "http://"

strip_first-Scheme :
    (p s : String)
    → Scheme p
    → strip_first ("wss://" ∷ "ws://" ∷ "https://" ∷ "http://" ∷ []) (p <> s) ≡ s
strip_first-Scheme _ s wss = ground (arith, strip_prefix-append "wss://" s)
strip_first-Scheme _ s ws =
    ground (arith, strip_prefix-differ "wss://" "ws://" s refl, strip_prefix-append "ws://" s)
strip_first-Scheme _ s https = ground (
  arith,
  strip_prefix-differ "wss://" "https://" s refl,
  strip_prefix-differ "ws://" "https://" s refl,
  strip_prefix-append "https://" s,
)
strip_first-Scheme _ s http = ground (
  arith,
  strip_prefix-differ "wss://" "http://" s refl,
  strip_prefix-differ "ws://" "http://" s refl,
  strip_prefix-differ "https://" "http://" s refl,
  strip_prefix-append "http://" s,
)

strip_scheme_and_path-parts :
    (p authority path : String)
    → Scheme p
    → lacks slash authority ≡ true
    → is_cut slash path ≡ true
    → strip_scheme_and_path (p <> (authority <> path)) ≡ authority
unfolding strip_scheme_and_path
strip_scheme_and_path-parts p authority path k h i =
    ap (before slash) (strip_first-Scheme p (authority <> path) k)
    ∙ before-append slash authority path h i

-- From a server URL with one of the four schemes, a host, a port that is empty or starts with a
-- colon, and a path that is empty or starts with a slash, the enrollment URL keeps host and port,
-- and the host that updates may come from is the host, if it has no slash or colon and the port no
-- slash.
pub derived_addresses :
    (p host port path : String) (insecure : Bool)
    → Scheme p
    → lacks slash (host <> port) ≡ true
    → lacks colon host ≡ true
    → is_cut colon port ≡ true
    → is_cut slash path ≡ true
    → let url = p <> ((host <> port) <> path) in
      (derive_enrollment_url url insecure
        ≡ (if insecure then "http" else "https") <> "://" <> (host <> port) <> "/enroll/v1/redeem")
      × (agent_download_host url ≡ host)
unfolding derive_enrollment_url agent_download_host
derived_addresses p host port path insecure k h c i j =
    let parts = strip_scheme_and_path-parts p (host <> port) path k h j in
    (rw parts refl, ap (before colon) parts ∙ before-append colon host port c i)
