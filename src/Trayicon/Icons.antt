-- ===== src/Trayicon/Icons.antt =====
-- agent/internal/trayicon/tray_windows.go: who owns the handles of the icons, in Run and SetIconPath.
pub mod Laws
use readyfleet_lightagent.Base.{
  ℕ, zero, suc, ◌+◌, String, Bool, true, false, not, ◌&&◌, Option, none, some, List, [], ◌∷◌, ◌++◌,
  Error, wrap, Result, ok, err, eqb, if◌then◌else◌, ◌==◌,
}
use readyfleet_lightagent.Trayicon.{Icon, null, stock, loaded, MenuItem, TrayState}

-- Where Run is, from t.state on: before NIM_ADD, at its end where that fails, in its loop, between
-- NIM_DELETE and the look at the current icon, and after.
pub data Phase : Type 0 where
  published : Phase
  refused : Error → Phase
  running : Phase
  deleted : Phase
  ended : Phase

-- The icons of a tray. `shown` says that the shell has its icon; `swapped` holds, for each SetIconPath that has put its
-- icon in and has not returned, the icon that it took out and whether that was owned; `next` numbers
-- the icons that LoadImageW returns, and `destroyed` are those that DestroyIcon was called with.
pub record Icons : Type 0 where
  pub phase : Phase
  pub shown : Bool
  pub tray : TrayState
  pub swapped : List (Icon × Bool)
  pub next : ℕ
  pub destroyed : List Icon

abbrev is_null : Icon → Bool
is_null null = true
is_null _ = false

-- The choice of the icon in Run: the one of the file, where it is set and loads.
unfoldable pub first_icon : Bool → Option Error → Icon → Icon × Bool
first_icon false _ system = (system, false)
first_icon true none system = (loaded 0, true)
first_icon true (some e) system = (system, false)

-- What a theorem on handles ranges over: the moves of Run and of the calls of SetIconPath.
pub data Move : Type 0 where
  -- SetIconPath up to the swap under the lock; what LoadImageW returned
  swaps : Option Error → Move
  -- the rest of the n-th SetIconPath in flight; what Shell_NotifyIconW returned
  modifies : ℕ → Option Error → Move
  -- NIM_ADD, and what it returned
  adds : Option Error → Move
  -- NIM_DELETE, as Run unwinds, and what it returned, which Run ignores
  deletes : Option Error → Move
  -- the look at the current icon after it, and DestroyIcon
  releases : Move

abbrev taken {ℓ} : {A : Type ℓ} → A → Option (A × List A) → Option (A × List A)
taken x none = none
taken x (some (y, ys)) = some (y, x ∷ ys)

-- The n-th element, and the others.
abbrev pub take_out {ℓ} : {A : Type ℓ} → ℕ → List A → Option (A × List A)
take_out n [] = none
take_out zero (x ∷ xs) = some (x, xs)
take_out (suc n) (x ∷ xs) = taken x (take_out n xs)

-- `if oldOwned && old != 0 { DestroyIcon(old) }`
abbrev pub freed : Icon × Bool → List Icon → List Icon
freed (old, owned) destroyed = if owned && not (is_null old) then old ∷ destroyed else destroyed

-- `if finalOwned { DestroyIcon(finalIcon) }`
abbrev pub released : TrayState → List Icon → List Icon
released ts destroyed = if ts.owns_h_icon then ts.h_icon ∷ destroyed else destroyed

-- Shell_NotifyIconW refuses NIM_MODIFY for an icon that it does not have.
abbrev pub accepts : Bool → Option Error → Bool
accepts true none = true
accepts _ _ = false

abbrev modified : Bool → Icons → Option ((Icon × Bool) × List (Icon × Bool)) → Option Icons
modified accepted s none = none
modified accepted s (some (old, others)) =
    let s' = record s { swapped = others } in
    if accepted then some (record s' { destroyed = freed old s.destroyed }) else some s'

-- `if err := shellNotifyIcon(nimAdd, nid); err != nil { ... return err }; ts.iconAdded = true`
abbrev adding : Phase → Option Error → Icons → Option Icons
adding published none s =
    some (record s { phase = running; shown = true; tray = record s.tray { icon_added = true } })
adding published (some e) s = some (record s { phase = refused e })
adding _ r s = none

abbrev pub gone : Option Error → Bool → Bool
gone none shown = false
gone (some e) shown = shown

abbrev deleting : Phase → Option Error → Icons → Option Icons
deleting running r s = some (record s { phase = deleted; shown = gone r s.shown })
deleting _ r s = none

abbrev releasing : Phase → Icons → Option Icons
releasing deleted s = some (record s { phase = ended; destroyed = released s.tray s.destroyed })
releasing _ s = none

unfoldable pub step : Move → Icons → Option Icons
step (swaps (some e)) s = some s
step (swaps none) s = some (record s {
  tray = record s.tray { h_icon = loaded s.next; owns_h_icon = true };
  swapped = (s.tray.h_icon, s.tray.owns_h_icon) ∷ s.swapped;
  next = suc s.next;
})
step (modifies n r) s = modified (accepts s.shown r) s (take_out n s.swapped)
step (adds r) s = adding s.phase r s
step (deletes r) s = deleting s.phase r s
step releases s = releasing s.phase s

-- What Run puts in t.state.
unfoldable pub prepared : ℕ → List MenuItem → Icon × Bool → Icons
prepared hwnd items (icon, owned) = record {
  phase = published;
  shown = false;
  tray = record {
    hwnd = hwnd;
    icon_added = false;
    h_icon = icon;
    owns_h_icon = owned;
    items = items;
    notify_click_handler = none;
  };
  swapped = [];
  next = if owned then 1 else 0;
  destroyed = [];
}

abbrev then_step : Option Icons → Move → Option Icons
then_step none m = none
then_step (some s) m = step m s

-- The icons after some moves, the latest first.
unfoldable pub steps : List Move → Icons → Option Icons
unfolding step
steps [] s = some s
steps (m ∷ ms) s = then_step (steps ms s) m
