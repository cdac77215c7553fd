-- ===== src/Trayicon/Opening.antt =====
-- agent/internal/trayicon/tray_windows.go: OpenURL.
pub mod Laws
use readyfleet_lightagent.Base.{
  ℕ, String, Bool, true, false, ◌≡◌, List, [], ◌∷◌, inl, inr, ◌∙◌, sym, Option, none, some, Error,
  Error.errorf, wrap, Result, ok, err, Act, pure, fail, lift, guard, catch, ◌>>=◌, ◌>>◌, leb, not,
  ◌==◌, eq_iff, arith, Bool-cases, Result-cases,
}
use readyfleet_lightagent.Trayicon.Labels.{Units}

-- The texts that ShellExecuteW was asked to open.
abbrev pub Opened : Type 0
Opened = List String

-- ShellExecuteW with the verb "open": what it returns is an argument.
abbrev pub shell_execute : (String → ℕ) → String → Act Opened ℕ
shell_execute returns target o = (ok (returns target), target ∷ o)

-- OpenURL; url.Parse (for the scheme), UTF16FromString and ShellExecuteW are arguments
unfoldable pub open_url :
    (String → Result String)
    → (String → Result Units)
    → (String → ℕ)
    → String
    → Act Opened (Unit {0})
open_url parse utf16_from_string returns raw_url = do
  scheme ← catch (lift (parse raw_url)) (λ e. fail (wrap "trayicon: OpenURL: %w" e))
  guard (scheme == "https")
      (errorf "trayicon: OpenURL: only https URLs are allowed, got %q" (scheme ∷ []))
  lift (utf16_from_string "open")
  lift (utf16_from_string raw_url)
  ret ← shell_execute returns raw_url
  guard (not (leb ret 32)) (errorf "trayicon: ShellExecuteW" [])
