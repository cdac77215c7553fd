-- ===== src/Base/Errors.antt =====
-- Go's `error` values: the text of `errors.New`, a text with formatted arguments, the chain of
-- `fmt.Errorf("…: %w", …, err)`, and the values that code of the repository tests by identity.
use Prim.Native.String.{String}
use mathlib.Core.Bool.{Bool, true, false}
use mathlib.Core.List.{List}

pub data Error : Type 0 where
  new : String → Error
  errorf : String → List String → Error
  wrap : String → Error → Error
  canceled : Error
  not_exist : Error
  paused_mid_connection : Error
  already_running : Error
  no_bearer_secret : Error
  server_rejected : Error

-- errors.Is(err, context.Canceled)
abbrev pub is_canceled : Error → Bool
is_canceled canceled = true
is_canceled (wrap _ e) = is_canceled e
is_canceled _ = false

-- errors.Is(err, os.ErrNotExist), os.IsNotExist(err)
abbrev pub is_not_exist : Error → Bool
is_not_exist not_exist = true
is_not_exist (wrap _ e) = is_not_exist e
is_not_exist _ = false

-- errors.Is(err, errPausedMidConnection)
abbrev pub is_paused : Error → Bool
is_paused paused_mid_connection = true
is_paused (wrap _ e) = is_paused e
is_paused _ = false

-- A pair of a value and an `error`, of which the callers read one.
pub data Result {ℓ} (A : Type ℓ) : Type ℓ where
  ok : A → Result A
  err : Error → Result A

abbrev pub is_ok {ℓ} : {A : Type ℓ} → Result A → Bool
is_ok (ok _) = true
is_ok (err _) = false
