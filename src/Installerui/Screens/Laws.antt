-- ===== src/Installerui/Screens/Laws.antt =====
-- What RunWithProgress shows while an installation runs.
pub mod Answers
use native.Mathlib.Nat.{le-div_iff_mul-le, div-mul-le_self, div-le_of_le-mul}
use readyfleet_lightagent.Base.{
  ℕ, zero, suc, ◌+◌, ◌-◌, ◌*◌, ◌/◌, ◌≤◌, ◌<◌, ◌≡◌, ◌≢◌, ◌∙◌, ◌↔◌, ◌⊎◌, sym, refl, ap, Bool, true,
  false, ◌&&◌, String, Option, none, some, List, [], ◌∷◌, ◌++◌, inl, inr, Result, ok, err, leb, ltb,
  eqb, eqb_iff, Bool-cases, Option-cases, arith,
}
use readyfleet_lightagent.Base.Int.{ℤ, pos, negsuc}
use readyfleet_lightagent.Installerui.Screens.{
  Sent, enable_button, progress_bar_range, progress_bar_pos, element_text, click_button, Pace, Step,
  position, report, reports, drive,
}

position-suc :
    (total : ℤ) (n : ℕ)
    → (position total n ≤ position total (suc n)) × (position total (suc n) ≤ 100)
unfolding position
position-suc (pos zero) n = ground arith
position-suc (pos (suc t)) n =
    let down = div-mul-le_self (n * 100) (suc t) in
    let up =
      (le-div_iff_mul-le {k = suc t} {x = n * 100 / suc t} {y = suc n * 100} (omega arith)).1
        (omega arith) in
    let top = div-le_of_le-mul (suc t) {m = suc n * 100} {n = 100} in
    let top' = div-le_of_le-mul (suc t) {m = n * 100} {n = 100} in ground arith
position-suc (negsuc k) n = ground arith

-- The positions that the bar is set to.
abbrev pub bar : List Sent → List ℕ
bar [] = []
bar (progress_bar_pos n ∷ ss) = n ∷ bar ss
bar (_ ∷ ss) = bar ss

-- Positions that never go back, from a given one, up to 100.
abbrev pub ascends : ℕ → List ℕ → Bool
ascends low [] = true
ascends low (n ∷ ns) = leb low n && (leb n 100 && ascends n ns)

-- The last position, after a given one.
abbrev pub final : ℕ → List ℕ → ℕ
final n [] = n
final n (m ∷ ms) = final m ms

reports-final :
    (total : ℤ) (ss : List Step) (p : Pace) (n : ℕ)
    → final n (bar (reports total ss p ++ (progress_bar_pos 100 ∷ click_button 1 ∷ []))) ≡ 100
unfolding report
reports-final total [] p n = refl
reports-final total (s ∷ ss) p n =
    reports-final total ss (report total s p).1 (position total (suc p.step_count))

reports-ascends :
    (total : ℤ) (ss : List Step) (p : Pace) (low : ℕ)
    → low ≤ position total (suc p.step_count)
    → low ≤ 100
    → ascends low (bar (reports total ss p ++ (progress_bar_pos 100 ∷ click_button 1 ∷ []))) ≡ true
unfolding report
reports-ascends total [] p low h k = ground arith
reports-ascends total (s ∷ ss) p low h k =
    let (up, top) = position-suc total (suc p.step_count) in
    let (up', top') = position-suc total p.step_count in
    let rest =
      reports-ascends total ss (report total s p).1 (position total (suc p.step_count)) up top' in
    ground arith

-- The labels that are shown.
abbrev pub texts : List Sent → List String
texts [] = []
texts (element_text e t ∷ ss) = t ∷ texts ss
texts (_ ∷ ss) = texts ss

abbrev pub labels : List Step → List String
labels [] = []
labels (s ∷ ss) = s.label ∷ labels ss

reports-texts :
    (total : ℤ) (ss : List Step) (p : Pace)
    → texts (reports total ss p ++ (progress_bar_pos 100 ∷ click_button 1 ∷ [])) ≡ labels ss
unfolding report
reports-texts total [] p = refl
reports-texts total (s ∷ ss) p = ap (λ r. s.label ∷ r) (reports-texts total ss (report total s p).1)

-- Whatever the number of steps that was announced and the labels that the installation reports, the
-- progress bar never goes back and never passes 100, it ends at 100, and exactly the reported labels are
-- shown, in order.
pub drive-ascends :
    (total : ℤ) (ss : List Step) (now : ℕ)
    → (ascends 0 (bar (drive total ss now)) ≡ true)
      × (final 0 (bar (drive total ss now)) ≡ 100)
      × (texts (drive total ss now) ≡ labels ss)
unfolding drive
drive-ascends total ss now =
    let start : Pace = record { step_count = 0; last_shown = now; clock = now } in
    (
      reports-ascends total ss start 0 (omega arith) (omega arith),
      reports-final total ss start 0,
      reports-texts total ss start,
    )

-- No label is replaced before it was shown for 600 milliseconds.
pub report_paced :
    (total : ℤ) (s : Step) (p : Pace)
    → p.last_shown ≤ p.clock
    → (p.last_shown + 600 ≤ (report total s p).1.last_shown)
      × ((report total s p).1.last_shown ≤ (report total s p).1.clock)
unfolding report
report_paced total s p h = (ground arith, ground arith)
