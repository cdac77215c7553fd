-- ===== src/Trayicon/Labels/Laws.antt =====
-- What the shell reads from the buffers of a notification.
use Prim.Native.Nat.{min}
use readyfleet_lightagent.Base.{
  ℕ, zero, suc, ◌≤◌, ◌<◌, ◌≡◌, refl, true, false, not, String, [], ◌∷◌, ◌++◌, inl, inr, Result, ok,
  err, Error, eqb, eqb_iff, if◌then◌else◌, Bool-cases, arith,
}
use readyfleet_lightagent.Base.Lists.{length, take, take_whole, all, length-append}
use readyfleet_lightagent.Trayicon.{TrayState}
use readyfleet_lightagent.Trayicon.Labels.{Units, zeros, copied, clear_last, buffer, build_nid}

-- A text ends before its first 0, and what has no 0 is no text.
abbrev before : ℕ → Result Units → Result Units
before x (ok u) = ok (x ∷ u)
before x (err e) = err e

abbrev pub read_text : Units → Result Units
read_text [] = err (Error.new "no terminator")
read_text (x ∷ xs) = let rest = read_text xs in if eqb x 0 then ok [] else before x rest

-- What UTF16FromString returns: the units of a text without 0, and a 0.
abbrev pub Terminated : Result Units → Units → Type 0
Terminated r t = (r ≡ ok (t ++ (0 ∷ []))) × (all (λ c. not (eqb c 0)) t ≡ true)

length-zeros : (n : ℕ) → length (zeros n) ≡ n
length-zeros zero = refl
length-zeros (suc n) = omega (arith, length-zeros n)

length-copied : (d s : Units) → length (copied d s) ≡ length d
length-copied [] s = refl
length-copied (x ∷ d) [] = refl
length-copied (x ∷ d) (y ∷ s) = omega (arith, length-copied d s)

length-clear_last : (d : Units) → length (clear_last d) ≡ length d
length-clear_last [] = refl
length-clear_last (x ∷ []) = refl
length-clear_last (x ∷ y ∷ d) = omega (arith, length-clear_last (y ∷ d))

length-buffer : (n : ℕ) (r : Result Units) → length (buffer n r) ≡ n
unfolding buffer
length-buffer n (err e) = length-zeros n
length-buffer n (ok u) =
    let zs = length-zeros n in
    let whole = length-copied (zeros n) u in
    let cleared = length-clear_last (copied (zeros n) u) in
    elim (Bool-cases (eqb (min n (length u)) n)) [ inl e ↦ ground arith | inr e ↦ ground arith ]

clear_last-cons : (x : ℕ) (xs : Units) → 1 ≤ length xs → clear_last (x ∷ xs) ≡ (x ∷ clear_last xs)
clear_last-cons x [] h = absurd (omega arith)
clear_last-cons x (y ∷ ys) h = refl

read-short :
    (n : ℕ) (t : Units)
    → all (λ c. not (eqb c 0)) t ≡ true
    → length t < n
    → read_text (copied (zeros n) (t ++ (0 ∷ []))) ≡ ok t
read-short zero t p h = absurd (omega arith)
read-short (suc n) [] p h = refl
read-short (suc n) (x ∷ t) p h = let rest = read-short n t in ground arith

read-long :
    (n : ℕ) (t : Units)
    → all (λ c. not (eqb c 0)) t ≡ true
    → n ≤ length t
    → read_text (clear_last (copied (zeros (suc n)) (t ++ (0 ∷ [])))) ≡ ok (take n t)
read-long zero [] p h = refl
read-long zero (x ∷ t) p h = refl
read-long (suc n) [] p h = absurd (omega arith)
read-long (suc n) (x ∷ t) p h =
    let rest = read-long n t in
    let zs = length-zeros (suc n) in
    let whole = length-copied (zeros (suc n)) (t ++ (0 ∷ [])) in
    let c = clear_last-cons x (copied (zeros (suc n)) (t ++ (0 ∷ []))) (omega arith) in
    ground (arith, eqb_iff x 0)

-- The buffer's last unit matters where the text fills it.
longer :
    (n : ℕ) (t : Units) → eqb (min (suc n) (length (t ++ (0 ∷ [])))) (suc n) ≡ true → n ≤ length t
longer n t e = let len = length-append t (0 ∷ []) in ground arith

shorter :
    (n : ℕ) (t : Units) → eqb (min (suc n) (length (t ++ (0 ∷ [])))) (suc n) ≡ false → length t < n
shorter n t e = let len = length-append t (0 ∷ []) in ground arith

pub buffer-text :
    (n : ℕ) (r : Result Units) (t : Units)
    → Terminated r t
    → read_text (buffer (suc n) r) ≡ ok (take n t)
unfolding buffer
buffer-text n r t (e, p) =
    rw e (elim (Bool-cases (eqb (min (suc n) (length (t ++ (0 ∷ [])))) (suc n))) [
      | inl f ↦ rw f (read-long n t p (longer n t f))
      | inr f ↦
          let h = shorter n t f in
          rw (f, take_whole n t (omega arith)) (read-short (suc n) t p (omega arith))
    ])

-- Whatever the text, the buffer of the tooltip keeps its 128 units, and the shell reads from it the
-- first 127 units of the text.
pub tip_reads :
    (utf16_from_string : String → Result Units) (ts : TrayState) (tooltip : String) (t : Units)
    → Terminated (utf16_from_string tooltip) t
    → (length (build_nid utf16_from_string ts tooltip).sz_tip ≡ 128)
      × (read_text (build_nid utf16_from_string ts tooltip).sz_tip ≡ ok (take 127 t))
unfolding build_nid
tip_reads utf16_from_string ts tooltip t h =
    (length-buffer 128 (utf16_from_string tooltip), buffer-text 127 (utf16_from_string tooltip) t h)
