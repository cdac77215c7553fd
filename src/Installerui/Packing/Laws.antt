-- ===== src/Installerui/Packing/Laws.antt =====
-- Writes at offsets one behind the other: the buffer that they give, and what is read back from it.
pub mod Records
use mathlib.Core.List.{append_assoc}
use readyfleet_lightagent.Base.{
  ℕ, zero, suc, ◌+◌, ◌-◌, ◌*◌, ◌/◌, ◌%◌, ◌^◌, ◌<◌, ◌≤◌, ◌≡◌, ◌∙◌, sym, refl, ap, Bool, true, false,
  ◌&&◌, Option, none, some, List, [], ◌∷◌, ◌++◌, map, eqb, eqb_iff, ltb, arith,
}
use readyfleet_lightagent.Base.Int.{ℤ, pos, negsuc}
use readyfleet_lightagent.Base.Lists.{length, take, all, length-append}
use readyfleet_lightagent.Base.Text.{Bytes}
use readyfleet_lightagent.Installerui.Packing.{
  zeros, little_endian, prefixed, over, put, Write, put_all,
}

-- A number read from bytes, the lowest first.
abbrev pub number : Bytes → ℕ
number [] = 0
number (b ∷ bs) = b + 256 * number bs

abbrev pub drop : ℕ → Bytes → Bytes
drop zero bs = bs
drop (suc n) [] = []
drop (suc n) (b ∷ bs) = drop n bs

-- The numbers that a packed record of given widths holds.
abbrev pub unpack : List ℕ → Bytes → List ℕ
unpack [] bs = []
unpack (w ∷ ws) bs = number (take w bs) ∷ unpack ws (drop w bs)

-- What w bytes can hold.
abbrev pub limit : ℕ → ℕ
limit zero = 1
limit (suc w) = 256 * limit w

abbrev pub fits : Write → Bool
fits w = ltb w.value (limit w.width)

length-little_endian : (w v : ℕ) → length (little_endian w v) ≡ w
length-little_endian zero v = refl
length-little_endian (suc w) v = omega (arith, length-little_endian w (v / 256))

number-little_endian : (w v : ℕ) → v < limit w → number (little_endian w v) ≡ v
number-little_endian zero v h = omega arith
number-little_endian (suc w) v h =
    let rest = number-little_endian w (v / 256) (omega arith) in omega arith

over-zeros : (b : Bytes) (k m : ℕ) → k ≡ length b + m → over b (zeros k) ≡ some (b ++ zeros m)
over-zeros [] k m e = let same : k ≡ m = omega arith in ap (λ n. some (zeros n)) same
over-zeros (x ∷ b) zero m e = absurd (omega arith)
over-zeros (x ∷ b) (suc k) m e = ap (λ r. prefixed x r) (over-zeros b k m (omega arith))

put-zeros :
    (d b : Bytes) (k m : ℕ)
    → k ≡ length b + m
    → put (length d) b (d ++ zeros k) ≡ some (d ++ (b ++ zeros m))
put-zeros [] b k m e = over-zeros b k m e
put-zeros (x ∷ d) b k m e = ap (λ r. prefixed x r) (put-zeros d b k m e)

-- The packed layout.
abbrev pub packed : List Write → Bytes
packed [] = []
packed (w ∷ ws) = little_endian w.width w.value ++ packed ws

abbrev pub widths : List Write → List ℕ
widths [] = []
widths (w ∷ ws) = w.width ∷ widths ws

abbrev pub values : List Write → List ℕ
values [] = []
values (w ∷ ws) = w.value ∷ values ws

abbrev pub sum : List ℕ → ℕ
sum [] = 0
sum (w ∷ ws) = w + sum ws

-- Each write begins where the one before it ends.
abbrev pub contiguous : ℕ → List Write → Bool
contiguous o [] = true
contiguous o (w ∷ ws) = eqb w.offset o && contiguous (o + w.width) ws

pub put_all-packed :
    (d : Bytes) (ws : List Write) (k : ℕ)
    → contiguous (length d) ws ≡ true
    → k ≡ sum (widths ws)
    → put_all ws (some (d ++ zeros k)) ≡ some (d ++ packed ws)
put_all-packed d [] k c e = let same : k ≡ 0 = e in rw same refl
put_all-packed d (w ∷ ws) k c e =
    let at : w.offset ≡ length d = ground (arith, eqb_iff w.offset (length d)) in
    let b = little_endian w.width w.value in
    let len : length b ≡ w.width = length-little_endian w.width w.value in
    let here = put-zeros d b k (sum (widths ws)) (omega arith) in
    let grown : length (d ++ b) ≡ length d + w.width = omega (arith, length-append d b) in
    let rest = put_all-packed (d ++ b) ws (sum (widths ws)) (rw grown (ground arith)) refl in
    ap (λ o. put_all ws (put o b (d ++ zeros k))) at
    ∙ ap (λ r. put_all ws r)
        (here ∙ ap (λ r. some r) (sym (append_assoc d b (zeros (sum (widths ws))))))
    ∙ rest
    ∙ ap (λ r. some r) (append_assoc d b (packed ws))

take-append : (a b : Bytes) → take (length a) (a ++ b) ≡ a
take-append [] b = refl
take-append (x ∷ a) b = ap (λ r. x ∷ r) (take-append a b)

drop-append : (a b : Bytes) → drop (length a) (a ++ b) ≡ b
drop-append [] b = refl
drop-append (x ∷ a) b = drop-append a b

-- What was packed is read back.
pub unpack-packed :
    (ws : List Write) → all fits ws ≡ true → unpack (widths ws) (packed ws) ≡ values ws
unpack-packed [] h = refl
unpack-packed (w ∷ ws) h =
    let b = little_endian w.width w.value in
    let len : length b ≡ w.width = length-little_endian w.width w.value in
    let first : take w.width (b ++ packed ws) ≡ b =
      ap (λ n. take n (b ++ packed ws)) (sym len) ∙ take-append b (packed ws) in
    let others : drop w.width (b ++ packed ws) ≡ packed ws =
      ap (λ n. drop n (b ++ packed ws)) (sym len) ∙ drop-append b (packed ws) in
    let v = number-little_endian w.width w.value (ground arith) in
    rw (first, others, v, unpack-packed ws (ground arith)) refl

pub length-packed : (ws : List Write) → length (packed ws) ≡ sum (widths ws)
length-packed [] = refl
length-packed (w ∷ ws) = omega (
  arith,
  length-append (little_endian w.width w.value) (packed ws),
  length-little_endian w.width w.value,
  length-packed ws,
)
