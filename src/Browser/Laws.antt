-- ===== src/Browser/Laws.antt =====
-- At most one hidden window is open.
use readyfleet_lightagent.Base.{ℕ, Bool, true, false, ◌≡◌, Option, none, some, List, [], ◌∷◌, arith}
use readyfleet_lightagent.Browser.{
  Launcher, fails, nothing, window, Event, clicked, loop_ends, clears, happen, happen_all,
}

-- The windows that show, from the field of the launcher and from whether one is being cleared.
abbrev expected : Option ℕ → Bool → List ℕ
expected none c = []
expected (some w) true = []
expected (some w) false = w ∷ []

-- No goroutine is about to clear a field that is empty.
abbrev settled : Option ℕ → Bool → Bool
settled none true = false
settled _ _ = true

-- The window in the field of the launcher is the only one that shows, and with an empty field none
-- shows.
pub record IsSingle (l : Launcher) : Type 0 where
  pub showing : l.showing ≡ expected l.wv l.closing
  pub settled : settled l.wv l.closing ≡ true

happen-IsSingle : (e : Event) (l : Launcher) → IsSingle l → IsSingle (happen e l)
unfolding happen
happen-IsSingle (clicked (fails x) r) l s = record {
  showing = ground arith;
  settled = ground arith;
}
happen-IsSingle (clicked nothing r) l s = record { showing = ground arith; settled = ground arith }
happen-IsSingle (clicked window r) l s = record { showing = ground arith; settled = ground arith }
happen-IsSingle loop_ends l s = record { showing = ground arith; settled = ground arith }
happen-IsSingle clears l s = record { showing = ground arith; settled = ground arith }

-- Whatever clicks, closings and clearings follow each other, and whatever their calls return, the
-- window that the launcher keeps is the only one that shows.
pub happen_all-IsSingle : (es : List Event) (l : Launcher) → IsSingle l → IsSingle (happen_all es l)
happen_all-IsSingle [] l s = s
happen_all-IsSingle (e ∷ es) l s = happen_all-IsSingle es (happen e l) (happen-IsSingle e l s)
