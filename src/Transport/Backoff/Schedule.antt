-- ===== src/Transport/Backoff/Schedule.antt =====
-- The delays of a whole schedule, in closed form.
use Prim.Native.Nat.{min}
use native.Mathlib.Nat.{pow-suc}
use readyfleet_lightagent.Base.{ℕ, zero, suc, ◌*◌, ◌^◌, ◌≤◌, ◌<◌, ◌≡◌, ap, sym, ◌∙◌, arith}
use readyfleet_lightagent.Transport.Backoff.{Backoff, next}

-- The state after some calls of `Next`.
abbrev pub after : ℕ → Backoff → Backoff
after zero b = b
after (suc n) b = (next (after n b)).1

-- A schedule whose bounds are positive, and whose double fits an int64.
pub record IsSound (b : Backoff) : Type 0 where
  pub low : 0 < b.min
  pub ordered : b.min ≤ b.max
  pub high : b.max < 2 ^ 62

record At (b : Backoff) (n : ℕ) (s : Backoff) : Type 0 where
  keeps_min : s.min ≡ b.min
  keeps_max : s.max ≡ b.max
  cur : s.cur ≡ min (b.min * 2 ^ n) b.max

next_doubles :
    (s : Backoff) → s.max < 2 ^ 62 → 0 < s.cur → s.cur ≤ s.max → (next s).0 ≡ min (s.cur * 2) s.max
unfolding next
next_doubles s high pos le = ground arith

cur-next : (s : Backoff) → (next s).1.cur ≡ (next s).0
unfolding next
cur-next s = ground arith

bounds-next : (s : Backoff) → ((next s).1.min ≡ s.min) × ((next s).1.max ≡ s.max)
unfolding next
bounds-next s = ground arith

power : (a n : ℕ) → a * 2 ^ suc n ≡ a * 2 ^ n * 2
power a n = omega (arith, ap (λ (t : ℕ). a * t) (pow-suc 2 n))

positive : (a n : ℕ) → 0 < a → 0 < a * 2 ^ n
positive a zero h = omega arith
positive a (suc n) h = omega (arith, power a n, positive a n h)

next-At : (b s : Backoff) (n : ℕ) → IsSound b → At b n s → At b (suc n) (next s).1
next-At b s n v a =
    let bounds = bounds-next s in
    let pos = positive b.min n v.low in
    let step = next_doubles s (omega arith) (omega arith) (omega arith) in
    record {
      keeps_min = bounds.0 ∙ a.keeps_min;
      keeps_max = bounds.1 ∙ a.keeps_max;
      cur = omega (arith, cur-next s, power b.min n);
    }

after-At : (b : Backoff) (n : ℕ) → IsSound b → b.cur ≡ 0 → At b n (after (suc n) b)
unfolding next
after-At b zero v h = ground arith
after-At b (suc n) v h = next-At b (after (suc n) b) n v (after-At b n v h)

first_delay : (b : Backoff) → IsSound b → b.cur ≡ 0 → (next b).0 ≡ min (b.min * 2 ^ 0) b.max
unfolding next
first_delay b v h = ground arith

-- From a fresh schedule, the call number n + 1 of `Next` returns the lower bound doubled n times,
-- or the upper bound where that is less.
pub next_closed :
    (b : Backoff) (n : ℕ) → IsSound b → b.cur ≡ 0 → (next (after n b)).0 ≡ min (b.min * 2 ^ n) b.max
next_closed b zero v h = first_delay b v h
next_closed b (suc n) v h =
    let a = next-At b (after (suc n) b) n v (after-At b n v h) in
    sym (cur-next (after (suc n) b)) ∙ a.cur
