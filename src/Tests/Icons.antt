-- ===== src/Tests/Icons.antt =====
-- The icon of the tray at concrete inputs.
use readyfleet_lightagent.Base.{
  true, false, ◌≡◌, refl, none, some, List, [], ◌∷◌, String, Result, ok, Option, new, arith, is_ok,
  ◌==◌, if◌then◌else◌,
}
use readyfleet_lightagent.Base.Lists.{count}
use readyfleet_lightagent.Trayicon.{stock, TrayState}
use readyfleet_lightagent.Trayicon.Labels.{Units, wm_tray_callback}
use readyfleet_lightagent.Trayicon.Icons.{
  Icons, Move, swaps, modifies, adds, deletes, releases, step, steps, prepared, first_icon,
}
use readyfleet_lightagent.Trayicon.Icons.Laws.{is_nth}
use readyfleet_lightagent.Trayicon.Icons.Laws.Leaks.{icons_all_destroyed}
use readyfleet_lightagent.Trayicon.Messages.{
  goes, nin_balloon_user_click, dispatch, tray_callback, notifying,
}
use readyfleet_lightagent.Trayicon.Messages.Laws.{Event, notifies, after, balloon_click}
use readyfleet_lightagent.Trayicon.Opening.{open_url}
use readyfleet_lightagent.Trayicon.Opening.Laws.{open_url_iff}
use readyfleet_lightagent.Trayicon.Running.{Calls, Desk, run}

abbrev calls : Calls
calls = record { register = none; create = none; hwnd = 7; system_icon = stock; load = none }

abbrev desk : Desk
desk = record {
  tray = record { tooltip = "ReadyFleet"; icon_path = "on.ico"; state = none };
  registered = none;
  windows = 0;
  routed = false;
  destroyed = [];
}

-- A new icon that is shown, one that comes in as Run unwinds, and the end of Run; the latest first.
abbrev moves : List Move
moves =
    modifies 0 none
    ∷ releases
    ∷ swaps none
    ∷ deletes none
    ∷ modifies 0 none
    ∷ swaps none
    ∷ adds none
    ∷ []

abbrev left : Option (Result (Unit {0}) × Desk)
left = run calls [] moves desk

abbrev desk_of : Option (Result (Unit {0}) × Desk) → Desk
desk_of none = desk
desk_of (some (r, d)) = d

abbrev fresh : Icons
fresh = prepared 7 [] (first_icon true none stock)

abbrev icons_of : Option Icons → Icons
icons_of none = fresh
icons_of (some s) = s

abbrev shown : Icons
shown = icons_of (steps (adds none ∷ []) fresh)

abbrev swapped : Icons
swapped = icons_of (steps (modifies 0 none ∷ swaps none ∷ []) shown)

abbrev unwound : Icons
unwound = icons_of (steps (releases ∷ deletes none ∷ []) swapped)

icons_all_destroyed_example : count (is_nth 1) unwound.destroyed ≡ 1
unfolding steps step prepared first_icon
icons_all_destroyed_example =
    icons_all_destroyed 7 [] true none stock (modifies 0 none ∷ swaps none ∷ []) shown swapped
      unwound none refl refl refl refl refl 1 (omega arith)

-- NIM_DELETE fails, and a SetIconPath after the end of Run takes out the icon that Run has destroyed.
abbrev late : Icons
late =
    icons_of
      (steps (modifies 0 none ∷ swaps none ∷ releases ∷ deletes (some (new "refused")) ∷ []) shown)

late_destroys_twice : count (is_nth 0) late.destroyed ≡ 2
unfolding steps step prepared first_icon
late_destroys_twice = refl

abbrev plain : String → Result Units
plain s = ok (b'O' ∷ b'K' ∷ 0 ∷ [])

abbrev state : TrayState
state = record {
  hwnd = 7;
  icon_added = true;
  h_icon = stock;
  owns_h_icon = false;
  items = [];
  notify_click_handler = none;
}

-- Two notifications, the later one first.
abbrev told : List Event
told = notifies "b" "b" 1 (some 2) ∷ notifies "a" "a" 1 (some 1) ∷ []

balloon_click_example :
    ((dispatch plain true wm_tray_callback 0 nin_balloon_user_click (after plain told state)).0
      ≡ (goes 2 ∷ []))
    × ((dispatch plain true wm_tray_callback 0 nin_balloon_user_click
          (dispatch plain true wm_tray_callback 0 nin_balloon_user_click
            (after plain told state)).1).0
        ≡ [])
unfolding dispatch tray_callback notifying
balloon_click_example = balloon_click plain told state true true 0 0 refl

abbrev scheme : String → Result String
scheme s = if s == "https://a" then ok "https" else ok "mailto"

open_url_iff_example :
    let (r, o) = open_url scheme plain (λ s. 42) "https://a" [] in
    (o ≡ "https://a" ∷ []) × (is_ok r ≡ true)
unfolding open_url
open_url_iff_example = open_url_iff scheme plain (λ s. 42) "https://a" []
