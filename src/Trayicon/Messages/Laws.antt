-- ===== src/Trayicon/Messages/Laws.antt =====
-- Which callbacks the tray starts.
use readyfleet_lightagent.Base.{
  ℕ, ◌+◌, ◌*◌, ◌%◌, ◌<◌, ◌≡◌, ◌∙◌, refl, ap, String, Bool, true, ◌&&◌, ◌||◌, Option, none, some,
  List, [], ◌∷◌, ◌++◌, Result, eqb, eqb_iff, if◌then◌else◌, arith,
}
use readyfleet_lightagent.Base.Int.{pos}
use readyfleet_lightagent.Base.Lists.{count, count-append}
use readyfleet_lightagent.Trayicon.{Handler, MenuItem, TrayState}
use readyfleet_lightagent.Trayicon.Labels.{Units, wm_tray_callback}
use readyfleet_lightagent.Trayicon.Messages.{
  Action, goes, nin_balloon_hide, nin_balloon_timeout, nin_balloon_user_click, wm_command, same_id,
  started, chosen, tray_callback, dispatch, wnd_proc, notifying,
}

-- What happens to the state of a tray: a Notify, SetMenuItems, or a message to its window (the first
-- argument tells whether CreatePopupMenu returned a menu).
pub data Event : Type 0 where
  notifies : String → String → ℕ → Option Handler → Event
  sets : List MenuItem → Event
  gets : Bool → ℕ → ℕ → ℕ → Event

module _ (utf16_from_string : String → Result Units) where
  abbrev pub happen : Event → TrayState → List Action × TrayState
  happen (notifies title body severity h) ts = notifying utf16_from_string title body severity h ts
  happen (sets items) ts = ([], record ts { items = items })
  happen (gets created message w l) ts = dispatch utf16_from_string created message w l ts

  -- The state after some events, the latest first.
  abbrev pub after : List Event → TrayState → TrayState
  after [] ts = ts
  after (e ∷ es) ts = (happen e (after es ts)).1

-- The messages after which a notification is gone.
abbrev dismisses : ℕ → ℕ → Bool
dismisses message l =
    eqb message wm_tray_callback
    && (eqb l nin_balloon_user_click || (eqb l nin_balloon_hide || eqb l nin_balloon_timeout))

-- The callback of the latest notification, if it is still shown.
abbrev pub clickable : List Event → Option Handler
clickable [] = none
clickable (notifies title body severity h ∷ es) = h
clickable (sets items ∷ es) = clickable es
clickable (gets created message w l ∷ es) =
    let rest = clickable es in if dismisses message l then none else rest

module _ (utf16_from_string : String → Result Units) where
  dispatch-handler :
      (created : Bool) (message w l : ℕ) (ts : TrayState)
      → (dispatch utf16_from_string created message w l ts).1.notify_click_handler
        ≡ (if dismisses message l then none else ts.notify_click_handler)
  unfolding dispatch tray_callback
  dispatch-handler created message w l ts = ground arith

  after-clickable :
      (es : List Event) (ts : TrayState)
      → ts.notify_click_handler ≡ none
      → (after utf16_from_string es ts).notify_click_handler ≡ clickable es
  unfolding notifying
  after-clickable [] ts h = h
  after-clickable (notifies title body severity o ∷ es) ts h = refl
  after-clickable (sets items ∷ es) ts h = after-clickable es ts h
  after-clickable (gets created message w l ∷ es) ts h =
      let rest = after-clickable es ts h in
      dispatch-handler created message w l (after utf16_from_string es ts)
      ∙ ap (λ x. if dismisses message l then none else x) rest

  -- Whatever has happened to a tray that starts without a callback, a click on a notification starts the
  -- callback of the latest notification, unless this has been clicked, hidden or timed out since, and
  -- starts nothing else; a second click starts nothing.
  pub balloon_click :
      (es : List Event) (ts : TrayState) (created again : Bool) (w w' : ℕ)
      → ts.notify_click_handler ≡ none
      → let (actions, ts') =
          dispatch utf16_from_string created wm_tray_callback w nin_balloon_user_click
            (after utf16_from_string es ts) in
        (actions ≡ started (clickable es))
        × ((dispatch utf16_from_string again wm_tray_callback w' nin_balloon_user_click ts').0 ≡ [])
  unfolding dispatch tray_callback
  balloon_click es ts created again w w' h = (ap (λ x. started x) (after-clickable es ts h), refl)

  none_matches :
      (n : ℕ) (xs ys : List MenuItem)
      → count (λ it. same_id it.id n) xs ≡ 0
      → chosen n (xs ++ ys) ≡ chosen n ys
  unfolding chosen
  none_matches n [] ys z = refl
  none_matches n (x ∷ xs) ys z = let rest = none_matches n xs ys in ground arith

  chosen-here :
      (n : ℕ) (it : MenuItem) (ys : List MenuItem) (h : Handler)
      → it.id ≡ pos n
      → it.on_click ≡ some h
      → chosen n (it ∷ ys) ≡ some h
  unfolding chosen
  chosen-here n it ys h e c = ground (arith, eqb_iff n n)

  same_id-≡ : (n : ℕ) (it : MenuItem) → it.id ≡ pos n → same_id it.id n ≡ true
  same_id-≡ n it e = ground (arith, eqb_iff n n)

  -- A click in the menu starts the callback of the item that has the clicked number, when no other item
  -- has it and it fits in the 16 bits that the message carries.
  pub menu_click :
      (created : Bool) (k l n : ℕ) (xs ys : List MenuItem) (it : MenuItem) (h : Handler)
      (ts : TrayState)
      → n < 0x10000
      → it.id ≡ pos n
      → it.on_click ≡ some h
      → count (λ i. same_id i.id n) (xs ++ (it ∷ ys)) ≡ 1
      → ts.items ≡ (xs ++ (it ∷ ys))
      → wnd_proc utf16_from_string created wm_command (n + 0x10000 * k) l (some ts)
        ≡ (goes h ∷ [], some ts)
  unfolding wnd_proc dispatch
  menu_click created k l n xs ys it h ts small e c one f =
      let both = count-append (λ i. same_id i.id n) xs (it ∷ ys) in
      let s = same_id-≡ n it e in
      let m : (n + 0x10000 * k) % 0x10000 ≡ n = omega arith in
      rw (m, f, none_matches n xs (it ∷ ys) (ground arith), chosen-here n it ys h e c) refl
