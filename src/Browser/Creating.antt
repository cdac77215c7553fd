-- ===== src/Browser/Creating.antt =====
-- agent/internal/hiddenbrowser/hiddenbrowser_windows.go: the window of the hidden browser, made by
-- WebView2, and its icon.
pub mod Laws
use readyfleet_lightagent.Base.{
  ℕ, String, Bool, true, false, not, Option, none, some, List, [], ◌∷◌, Error, new, wrap, Result,
  ok, err, Act, pure, fail, lift, modify, catch, guard, ◌>>=◌, ◌>>◌, eqb, ◌==◌, if◌then◌else◌,
}
use readyfleet_lightagent.Browser.{Creation, fails, window}

abbrev pub icon_small : ℕ
icon_small = 0

abbrev pub icon_big : ℕ
icon_big = 1

-- What the calls return: GetInstalledVersion ("" where no runtime is installed), os.MkdirAll,
-- NewWithOptions (none is nil), LoadImageW (0 on a failure), whether the icon's path can be encoded,
-- and SetWindowDisplayAffinity.
pub record WebView2 : Type 0 where
  pub installed_version : Result String
  pub mkdir_all : Option Error
  pub new_with_options : Option ℕ
  pub load_image : ℕ
  pub encodes : Bool
  pub set_window_display_affinity : Option Error

-- What is asked of WebView2 and of the window, the last one first.
pub data Call : Type 0 where
  new_with_options : Call
  set_icon : ℕ → ℕ → ℕ → Call
  navigate : ℕ → String → Call

abbrev err_create_failed : Error
err_create_failed = new "hiddenbrowser: failed to create webview"

-- setWindowIconFromFile
unfoldable pub set_window_icon_from_file : WebView2 → ℕ → String → List Call → List Call
set_window_icon_from_file w hwnd icon_path calls =
    if icon_path == ""
    then calls
    else if not w.encodes
    then calls
    else if eqb w.load_image 0
    then calls
    else set_icon hwnd icon_small w.load_image ∷ set_icon hwnd icon_big w.load_image ∷ calls

abbrev installed : Result String → Result (Unit {0})
installed (err e) = err (wrap "%w: WebView2 runtime not installed: %v" err_create_failed)
installed (ok version) =
    if version == ""
    then err (wrap "%w: WebView2 runtime not installed" err_create_failed)
    else ok tt

abbrev made : Option Error → Result (Unit {0})
made none = ok tt
made (some e) = err (wrap "%w: profile directory: %v" err_create_failed)

abbrev opened : Option ℕ → Result ℕ
opened none = err (wrap "%w: webview2.NewWithOptions returned nil" err_create_failed)
opened (some hwnd) = ok hwnd

-- newRealWebView, to the window's handle
unfoldable pub new_real_web_view : WebView2 → String → String → Act (List Call) ℕ
unfolding set_window_icon_from_file
new_real_web_view w url icon_path = do
  lift (installed w.installed_version)
  lift (made w.mkdir_all)
  modify (λ calls. new_with_options ∷ calls)
  hwnd ← lift (opened w.new_with_options)
  modify (λ calls. navigate hwnd url ∷ set_window_icon_from_file w hwnd icon_path calls)
  pure hwnd

-- excludeFromCapture
unfoldable pub exclude_from_capture : WebView2 → Result (Unit {0})
exclude_from_capture w = elim w.set_window_display_affinity [
  | none ↦ ok tt
  | some e ↦ err (wrap "%w: SetWindowDisplayAffinity: %v" (new "hiddenbrowser: exclude failed"))
]

abbrev created : Result ℕ → Creation
created (ok hwnd) = window
created (err e) = fails e

-- The creation as the launcher sees it.
abbrev pub creation : WebView2 → String → String → Creation
creation w url icon_path = created (new_real_web_view w url icon_path []).0
