-- ===== src/Trayicon/Icons/Laws.antt =====
-- That no icon is destroyed twice, and that the system's icon never is.
pub mod Leaks
use mathlib.Core.Path.{subst}
use readyfleet_lightagent.Base.{
  ℕ, zero, suc, ◌+◌, ◌≤◌, ◌≡◌, ◌∙◌, sym, refl, Bool, true, false, not, ◌&&◌, ◌||◌, Option, none,
  some, List, [], ◌∷◌, inl, inr, Error, eqb, eqb_iff, if◌then◌else◌, Bool-cases, Option-cases,
  arith,
}
use readyfleet_lightagent.Base.Lists.{length, count, all}
use readyfleet_lightagent.Trayicon.{Icon, null, stock, loaded, MenuItem}
use readyfleet_lightagent.Trayicon.Icons.{
  Phase, published, refused, running, deleted, ended, Icons, first_icon, Move, swaps, modifies,
  adds, deletes, releases, take_out, step, prepared, steps, accepts, freed, released,
}

abbrev pub is_nth : ℕ → Icon → Bool
is_nth n (loaded m) = eqb m n
is_nth n _ = false

abbrev pub from_file : Icon → Bool
from_file (loaded m) = true
from_file _ = false

abbrev pub owned_nth : ℕ → Icon × Bool → Bool
owned_nth n (i, owned) = owned && is_nth n i

abbrev pub one : Bool → ℕ
one b = if b then 1 else 0

-- How often the n-th icon is destroyed or owned.
abbrev pub total : ℕ → Icons → ℕ
total n s =
    count (is_nth n) s.destroyed
    + (one (s.tray.owns_h_icon && is_nth n s.tray.h_icon) + count (owned_nth n) s.swapped)

abbrev pub Single : Icons → Type 0
Single s = (n : ℕ) → (total n s ≤ 1) × (s.next ≤ n → total n s ≡ 0)

abbrev pub Bound : Phase → Icons → Type 0
Bound ended s = (s.shown ≡ false) × ((n : ℕ) → count (is_nth n) s.destroyed ≤ 1)
Bound deleted s = (s.shown ≡ false) × Single s
Bound _ s = Single s

-- What is owned came from a file.
abbrev pub sound : Icon × Bool → Bool
sound (i, owned) = not owned || from_file i

pub record Inv (s : Icons) : Type 0 where
  pub bound : Bound s.phase s
  pub current : sound (s.tray.h_icon, s.tray.owns_h_icon) ≡ true
  pub others : all sound s.swapped ≡ true
  pub files : all from_file s.destroyed ≡ true

module _ {ℓ} {A : Type ℓ} (p : A → Bool) where
  pub take_out-count :
      (k : ℕ) (xs : List A) (x : A) (ys : List A)
      → take_out k xs ≡ some (x, ys)
      → count p xs ≡ one (p x) + count p ys
  take_out-count k [] x ys e = absurd (ground arith)
  take_out-count zero (y ∷ xs) x ys e = ground arith
  take_out-count (suc k) (y ∷ xs) x ys e = elim (Option-cases (take_out k xs)) [
    | inl f ↦ absurd (ground arith)
    | inr ((z, zs), f) ↦ let c = take_out-count k xs z zs f in ground arith
  ]

  pub take_out-all :
      (k : ℕ) (xs : List A) (x : A) (ys : List A)
      → take_out k xs ≡ some (x, ys)
      → all p xs ≡ true
      → (p x ≡ true) × (all p ys ≡ true)
  take_out-all k [] x ys e h = absurd (ground arith)
  take_out-all zero (y ∷ xs) x ys e h = ground arith
  take_out-all (suc k) (y ∷ xs) x ys e h = elim (Option-cases (take_out k xs)) [
    | inl f ↦ absurd (ground arith)
    | inr ((z, zs), f) ↦ let c = take_out-all k xs z zs f in ground arith
  ]

pub freed-count :
    (n : ℕ) (o : Icon × Bool) (d : List Icon)
    → count (is_nth n) (freed o d) ≡ one (owned_nth n o) + count (is_nth n) d
freed-count n (null, owned) d = ground arith
freed-count n (stock, owned) d = ground arith
freed-count n (loaded m, owned) d = ground arith

freed-files :
    (o : Icon × Bool) (d : List Icon)
    → sound o ≡ true
    → all from_file d ≡ true
    → all from_file (freed o d) ≡ true
freed-files (null, owned) d h v = ground arith
freed-files (stock, owned) d h v = ground arith
freed-files (loaded m, owned) d h v = ground arith

swaps-Single : (s t : Icons) → step (swaps none) s ≡ some t → Single s → Single t
unfolding step
swaps-Single s t e b = λ n. let (b1, b2) = b n in ground (arith, eqb_iff s.next n)

swaps-Bound : (p : Phase) (s t : Icons) → step (swaps none) s ≡ some t → Bound p s → Bound p t
unfolding step
swaps-Bound published s t e b = swaps-Single s t e b
swaps-Bound (refused x) s t e b = swaps-Single s t e b
swaps-Bound running s t e b = swaps-Single s t e b
swaps-Bound deleted s t e (q, b) = (ground arith, swaps-Single s t e b)
swaps-Bound ended s t e (q, b) = (ground arith, λ n. let h = b n in ground arith)

swaps-Inv : (s t : Icons) → step (swaps none) s ≡ some t → Inv s → Inv t
unfolding step
swaps-Inv s t e v =
    let f : t.phase ≡ s.phase = ground arith in
    record {
      bound = subst (λ p. Bound p t) (sym f) (swaps-Bound s.phase s t e v.bound);
      current = ground arith;
      others = let c = v.current in let o = v.others in ground arith;
      files = let c = v.files in ground arith;
    }

abbrev finished : Option Error → Icons → Icon × Bool → List (Icon × Bool) → Icons
finished r s o os = record s {
  swapped = os;
  destroyed = if accepts s.shown r then freed o s.destroyed else s.destroyed;
}

module _ (k : ℕ) (r : Option Error) (s : Icons) (o : Icon × Bool) (os : List (Icon × Bool))
    (e : take_out k s.swapped ≡ some (o, os)) where
  modifies-Single : Single s → Single (finished r s o os)
  modifies-Single b = λ n.
      let (b1, b2) = b n in
      let c = take_out-count (owned_nth n) k s.swapped o os e in
      let f = freed-count n o s.destroyed in ground arith

  modifies-Bound : (p : Phase) → Bound p s → Bound p (finished r s o os)
  modifies-Bound published b = modifies-Single b
  modifies-Bound (refused x) b = modifies-Single b
  modifies-Bound running b = modifies-Single b
  modifies-Bound deleted (q, b) = (q, modifies-Single b)
  modifies-Bound ended (q, b) = (q, λ n. let h = b n in ground arith)

modifies-Inv :
    (k : ℕ) (r : Option Error) (s t : Icons) → step (modifies k r) s ≡ some t → Inv s → Inv t
unfolding step
modifies-Inv k r s t e v = elim (Option-cases (take_out k s.swapped)) [
  | inl f ↦ absurd (ground arith)
  | inr ((o, os), f) ↦
      let last : finished r s o os ≡ t = ground arith in
      let (a1, a2) = take_out-all sound k s.swapped o os f v.others in
      let d = freed-files o s.destroyed a1 v.files in
      let given = v.files in
      subst Inv last (record {
        bound = modifies-Bound k r s o os f s.phase v.bound;
        current = v.current;
        others = a2;
        files = ground arith;
      })
]

adds-Inv : (r : Option Error) (s t : Icons) → step (adds r) s ≡ some t → Inv s → Inv t
unfolding step
adds-Inv none s t e v =
    let f : s.phase ≡ published = ground arith in
    let last : record s {
      phase = running;
      shown = true;
      tray = record s.tray { icon_added = true };
    }
        ≡ t =
      ground arith in
    subst Inv last (record {
      bound = subst (λ p. Bound p s) f v.bound;
      current = v.current;
      others = v.others;
      files = v.files;
    })
adds-Inv (some x) s t e v =
    let f : s.phase ≡ published = ground arith in
    let last : record s { phase = refused x } ≡ t = ground arith in
    subst Inv last (record {
      bound = subst (λ p. Bound p s) f v.bound;
      current = v.current;
      others = v.others;
      files = v.files;
    })

deletes-Inv : (s t : Icons) → step (deletes none) s ≡ some t → Inv s → Inv t
unfolding step
deletes-Inv s t e v =
    let f : s.phase ≡ running = ground arith in
    let last : record s { phase = deleted; shown = false } ≡ t = ground arith in
    subst Inv last (record {
      bound = (refl, subst (λ p. Bound p s) f v.bound);
      current = v.current;
      others = v.others;
      files = v.files;
    })

releases-Inv : (s t : Icons) → step releases s ≡ some t → Inv s → Inv t
unfolding step
releases-Inv s t e v =
    let f : s.phase ≡ deleted = ground arith in
    let last : record s { phase = ended; destroyed = released s.tray s.destroyed } ≡ t =
      ground arith in
    let (q, b) = subst (λ p. Bound p s) f v.bound in
    let c = v.current in
    let d = v.files in
    subst Inv last (record {
      bound = (q, λ n. let (b1, b2) = b n in ground arith);
      current = v.current;
      others = v.others;
      files = ground arith;
    })

-- No NIM_DELETE fails.
abbrev pub deletes_pass : Move → Bool
deletes_pass (deletes (some e)) = false
deletes_pass _ = true

step-Inv : (m : Move) (s t : Icons) → deletes_pass m ≡ true → step m s ≡ some t → Inv s → Inv t
unfolding step
step-Inv (swaps none) s t p e v = swaps-Inv s t e v
step-Inv (swaps (some x)) s t p e v = let same : s ≡ t = ground arith in subst Inv same v
step-Inv (modifies k r) s t p e v = modifies-Inv k r s t e v
step-Inv (adds r) s t p e v = adds-Inv r s t e v
step-Inv (deletes none) s t p e v = deletes-Inv s t e v
step-Inv (deletes (some x)) s t p e v = absurd (ground arith)
step-Inv releases s t p e v = releases-Inv s t e v

pub steps-Inv :
    (ms : List Move) (s t : Icons)
    → all deletes_pass ms ≡ true
    → Inv s
    → steps ms s ≡ some t
    → Inv t
unfolding steps
steps-Inv [] s t p v e = let same : s ≡ t = ground arith in subst Inv same v
steps-Inv (m ∷ ms) s t p v e = elim (Option-cases (steps ms s)) [
  | inl f ↦ absurd (ground arith)
  | inr (u, f) ↦ step-Inv m u t (ground arith) (ground arith) (steps-Inv ms s u (ground arith) v f)
]

pub prepared-Inv :
    (hwnd : ℕ) (items : List MenuItem) (path : Bool) (load : Option Error) (system : Icon)
    → Inv (prepared hwnd items (first_icon path load system))
unfolding prepared first_icon
prepared-Inv hwnd items false load system = record {
  bound = λ n. ground arith;
  current = refl;
  others = refl;
  files = refl;
}
prepared-Inv hwnd items true none system = record {
  bound = λ n. ground (arith, eqb_iff 0 n);
  current = refl;
  others = refl;
  files = refl;
}
prepared-Inv hwnd items true (some e) system = record {
  bound = λ n. ground arith;
  current = refl;
  others = refl;
  files = refl;
}

Bound-once : (p : Phase) (s : Icons) (n : ℕ) → Bound p s → count (is_nth n) s.destroyed ≤ 1
Bound-once published s n b = let (b1, b2) = b n in omega arith
Bound-once (refused e) s n b = let (b1, b2) = b n in omega arith
Bound-once running s n b = let (b1, b2) = b n in omega arith
Bound-once deleted s n (q, b) = let (b1, b2) = b n in omega arith
Bound-once ended s n (q, b) = b n

-- However the calls of SetIconPath interleave with each other, with NIM_ADD and with the end of Run,
-- and whatever fails but NIM_DELETE, each icon loaded from a file is destroyed at most once, and no
-- other icon is destroyed.
pub icons_destroyed_once :
    (hwnd : ℕ) (items : List MenuItem) (path : Bool) (load : Option Error) (system : Icon)
    (ms : List Move) (s : Icons)
    → all deletes_pass ms ≡ true
    → steps ms (prepared hwnd items (first_icon path load system)) ≡ some s
    → ((n : ℕ) → count (is_nth n) s.destroyed ≤ 1) × (all from_file s.destroyed ≡ true)
icons_destroyed_once hwnd items path load system ms s p e =
    let v =
      steps-Inv ms (prepared hwnd items (first_icon path load system)) s p
        (prepared-Inv hwnd items path load system) e in
    (λ n. Bound-once s.phase s n v.bound, v.files)
