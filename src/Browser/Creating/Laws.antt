-- ===== src/Browser/Creating/Laws.antt =====
-- When a window is asked for, and what comes of it.
use readyfleet_lightagent.Base.{
  ℕ, String, ◌≡◌, ◌≢◌, ◌⊎◌, refl, none, some, [], inl, inr, Error, ok, Bool-cases, Option-cases,
  Result-cases, eq_iff, ◌==◌, arith,
}
use readyfleet_lightagent.Browser.{fails, window}
use readyfleet_lightagent.Browser.Creating.{WebView2, new_real_web_view, creation}

-- WebView2 is asked for a window only where its runtime is installed and the profile's directory can be made;
-- the launcher then gets a window, shown at the given address, or an error, and never neither.
pub creation-cases :
    (w : WebView2) (url icon_path : String)
    → (((e : Error) × (creation w url icon_path ≡ fails e))
        ⊎ ((creation w url icon_path ≡ window) × (hwnd : ℕ) × (w.new_with_options ≡ some hwnd)))
      × (((new_real_web_view w url icon_path []).1 ≡ [])
          ⊎ ((version : String) × (w.installed_version ≡ ok version)
              × (version ≢ "")
              × (w.mkdir_all ≡ none)))
unfolding new_real_web_view
creation-cases w url icon_path = (
  elim (Result-cases (new_real_web_view w url icon_path []).0) [
    | inr (e, f) ↦ inl (e, rw f refl)
    | inl (hwnd, f) ↦ inr (rw f refl, hwnd, ground arith)
  ],
  elim (Result-cases w.installed_version) [
    | inr (e, f) ↦ inl (rw f refl)
    | inl (version, f) ↦ elim (Bool-cases (version == "")) [
      | inl g ↦ inl (rw (f, g) refl)
      | inr g ↦ elim (Option-cases w.mkdir_all) [
        | inr (e, h) ↦ inl (rw (f, g, h) refl)
        | inl h ↦ inr (version, f, (λ k. ground (arith, eq_iff version "")), h)
      ]
    ]
  ],
)
