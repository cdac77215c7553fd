-- ===== src/Trayicon/Running/Laws.antt =====
-- What Run leaves behind.
use readyfleet_lightagent.Base.{
  ℕ, suc, ◌≡◌, ◌≤◌, ◌⊎◌, true, false, not, List, Error, Result, ok, err, ◌==◌,
}
use readyfleet_lightagent.Base.Lists.{count, all}
use readyfleet_lightagent.Trayicon.{MenuItem}
use readyfleet_lightagent.Trayicon.Icons.{Icons, first_icon, prepared}
use readyfleet_lightagent.Trayicon.Icons.Laws.{is_nth, from_file}
use readyfleet_lightagent.Trayicon.Running.{Calls, Desk}

-- Run's part before NIM_ADD fails with its window closed, or passes with the window open.
abbrev Set : Calls → List MenuItem → Desk → Result Icons → Desk → Type 0
Set c items d r d' =
    ((r
        ≡ ok (
            prepared c.hwnd items (first_icon (not (d.tray.icon_path == "")) c.load c.system_icon)))
      × (d'.windows ≡ suc d.windows)
      × (d'.destroyed ≡ d.destroyed))
    ⊎ ((e : Error) × (r ≡ err e)
        × (d'.windows ≡ d.windows)
        × (d'.destroyed ≡ d.destroyed)
        × (d'.routed ≡ false))

-- What Run has done when it returns: its window is closed and no longer known, each icon is destroyed at
-- most once, and no icon that it did not load.
abbrev Closed : Desk → Desk → Type 0
Closed d d' =
    (d'.windows ≡ d.windows)
    × (d'.routed ≡ false)
    × ((n : ℕ) → count (is_nth n) d'.destroyed ≤ 1)
    × (all from_file d'.destroyed ≡ true)
