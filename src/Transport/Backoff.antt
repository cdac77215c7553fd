-- ===== src/Transport/Backoff.antt =====
-- `Backoff` of agent/internal/transport/client.go. A time.Duration is an int64: here its bit pattern,
-- a number below 2 ^ 64, so that `b.cur *= 2` wraps as it does there.
pub mod Schedule
use readyfleet_lightagent.Base.{
  ℕ, zero, suc, ◌+◌, ◌*◌, ◌%◌, ◌^◌, Bool, false, ◌||◌, not, eqb, leb, ltb, if◌then◌else◌,
}

abbrev pub second : ℕ
second = 1000000000

-- 0 < a, as int64
abbrev pub is_positive : ℕ → Bool
is_positive a = if eqb a 0 then false else ltb a (2 ^ 63)

-- a < b, as int64
abbrev pub lt_signed : ℕ → ℕ → Bool
lt_signed a b = ltb ((a + 2 ^ 63) % 2 ^ 64) ((b + 2 ^ 63) % 2 ^ 64)

pub record Backoff : Type 0 where
  pub min : ℕ
  pub max : ℕ
  pub cur : ℕ

-- NewBackoff
unfoldable pub new_backoff : ℕ → ℕ → Backoff
new_backoff min max =
    let low = if not (is_positive min) then second else min in
    record {
      min = low;
      max = if not (is_positive max) || lt_signed max low then 60 * second else max;
      cur = 0;
    }

-- Backoff.Next
unfoldable pub next : Backoff → ℕ × Backoff
next b =
    if eqb b.cur 0
    then (b.min, record b { cur = b.min })
    else let doubled = b.cur * 2 % 2 ^ 64 in
      let capped = if lt_signed b.max doubled then b.max else doubled in
      (capped, record b { cur = capped })

-- Backoff.Reset
unfoldable pub reset : Backoff → Backoff
reset b = record b { cur = 0 }
