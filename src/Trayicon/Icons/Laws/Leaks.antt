-- ===== src/Trayicon/Icons/Laws/Leaks.antt =====
-- That no icon is left over, where no call fails.
use mathlib.Core.Path.{subst}
use readyfleet_lightagent.Base.{
  ℕ, ◌<◌, ◌≡◌, refl, Bool, true, false, Option, none, some, List, [], ◌∷◌, inl, inr, Error,
  Option-cases, eqb_iff, arith,
}
use readyfleet_lightagent.Base.Lists.{count, all}
use readyfleet_lightagent.Trayicon.{Icon, MenuItem}
use readyfleet_lightagent.Trayicon.Icons.{
  running, Icons, first_icon, Move, swaps, modifies, adds, deletes, releases, take_out, step,
  prepared, steps, freed, released,
}
use readyfleet_lightagent.Trayicon.Icons.Laws.{
  Inv, Bound, is_nth, owned_nth, total, deletes_pass, take_out-count, freed-count, steps-Inv,
  prepared-Inv,
}

-- No call of SetIconPath fails, and the loop of Run goes on.
abbrev pub passes : Move → Bool
passes (swaps none) = true
passes (modifies n none) = true
passes _ = false

-- Each icon that was loaded is destroyed, shown, or held by a call in flight, once.
abbrev Accounted : Icons → Type 0
Accounted s = (s.phase ≡ running) × (s.shown ≡ true) × ((n : ℕ) → n < s.next → total n s ≡ 1)

step-Accounted :
    (m : Move) (s t : Icons)
    → passes m ≡ true
    → step m s ≡ some t
    → Inv s
    → Accounted s
    → Accounted t
unfolding step
step-Accounted (swaps none) s t p e v (run, shown, a) =
    let b = subst (λ x. Bound x s) run v.bound in
    (
      ground arith,
      ground arith,
      λ n h. let (b1, b2) = b n in let c = a n in ground (arith, eqb_iff s.next n),
    )
step-Accounted (swaps (some x)) s t p e v a = absurd (ground arith)
step-Accounted (modifies k none) s t p e v (run, shown, a) =
    elim (Option-cases (take_out k s.swapped)) [
      | inl f ↦ absurd (ground arith)
      | inr ((o, os), f) ↦
          let last : record s { swapped = os; destroyed = freed o s.destroyed } ≡ t =
            ground arith in
          subst Accounted last (
            run,
            shown,
            λ n h.
                let c = take_out-count (owned_nth n) k s.swapped o os f in
                let d = freed-count n o s.destroyed in let g = a n h in ground arith,
          )
    ]
step-Accounted (modifies k (some x)) s t p e v a = absurd (ground arith)
step-Accounted (adds r) s t p e v a = absurd (ground arith)
step-Accounted (deletes r) s t p e v a = absurd (ground arith)
step-Accounted releases s t p e v a = absurd (ground arith)

passes-deletes_pass : (ms : List Move) → all passes ms ≡ true → all deletes_pass ms ≡ true
passes-deletes_pass [] p = refl
passes-deletes_pass (swaps r ∷ ms) p = ground (arith, passes-deletes_pass ms)
passes-deletes_pass (modifies k r ∷ ms) p = ground (arith, passes-deletes_pass ms)
passes-deletes_pass (adds r ∷ ms) p = absurd (ground arith)
passes-deletes_pass (deletes r ∷ ms) p = absurd (ground arith)
passes-deletes_pass (releases ∷ ms) p = absurd (ground arith)

steps-Accounted :
    (ms : List Move) (s t : Icons)
    → all passes ms ≡ true
    → Inv s
    → Accounted s
    → steps ms s ≡ some t
    → Accounted t
unfolding steps
steps-Accounted [] s t p v a e = let same : s ≡ t = ground arith in subst Accounted same a
steps-Accounted (m ∷ ms) s t p v a e = elim (Option-cases (steps ms s)) [
  | inl f ↦ absurd (ground arith)
  | inr (u, f) ↦
      let q : all passes ms ≡ true = ground arith in
      step-Accounted m u t (ground arith) (ground arith)
        (steps-Inv ms s u (passes-deletes_pass ms q) v f) (steps-Accounted ms s u q v a f)
]

-- The icons once NIM_ADD has passed.
abbrev pub added : Icons → Icons
added s = record s { phase = running; shown = true; tray = record s.tray { icon_added = true } }

added-prepared :
    (hwnd : ℕ) (items : List MenuItem) (path : Bool) (load : Option Error) (system : Icon)
    → steps (adds none ∷ []) (prepared hwnd items (first_icon path load system))
      ≡ some (added (prepared hwnd items (first_icon path load system)))
unfolding steps step prepared first_icon
added-prepared hwnd items path load system = ground arith

added-Accounted :
    (hwnd : ℕ) (items : List MenuItem) (path : Bool) (load : Option Error) (system : Icon)
    → Accounted (added (prepared hwnd items (first_icon path load system)))
unfolding prepared first_icon
added-Accounted hwnd items false load system = (refl, refl, λ n h. absurd (omega arith))
added-Accounted hwnd items true none system = (refl, refl, λ n h. ground (arith, eqb_iff 0 n))
added-Accounted hwnd items true (some e) system = (refl, refl, λ n h. absurd (omega arith))

unwound :
    (s t : Icons) (r : Option Error)
    → s.phase ≡ running
    → steps (releases ∷ deletes r ∷ []) s ≡ some t
    → (t.next ≡ s.next) × (t.destroyed ≡ released s.tray s.destroyed)
unfolding steps step
unwound s t r h e = ground arith

-- Where no call of SetIconPath is made before NIM_ADD, which passes, none fails, and each has returned
-- when Run unwinds, every icon that was loaded is destroyed in the end, and exactly once.
pub icons_all_destroyed :
    (hwnd : ℕ) (items : List MenuItem) (path : Bool) (load : Option Error) (system : Icon)
    (ms : List Move) (a s t : Icons) (r : Option Error)
    → steps (adds none ∷ []) (prepared hwnd items (first_icon path load system)) ≡ some a
    → all passes ms ≡ true
    → steps ms a ≡ some s
    → s.swapped ≡ []
    → steps (releases ∷ deletes r ∷ []) s ≡ some t
    → (n : ℕ) → n < t.next
    → count (is_nth n) t.destroyed ≡ 1
icons_all_destroyed hwnd items path load system ms a s t r g p e q f n h =
    let start = prepared hwnd items (first_icon path load system) in
    let same : added start ≡ a = ground (arith, added-prepared hwnd items path load system) in
    let v = steps-Inv (adds none ∷ []) start a refl (prepared-Inv hwnd items path load system) g in
    let (run, shown, c) =
      steps-Accounted ms a s p v
        (subst Accounted same (added-Accounted hwnd items path load system)) e in
    let (kept, last) = unwound s t r run f in let d = c n in ground arith
