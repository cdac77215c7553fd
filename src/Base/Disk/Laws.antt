-- ===== src/Base/Disk/Laws.antt =====
-- What each call of `Disk` leaves alone, whatever the outcomes.
use Prim.Native.String.{String}
use mathlib.Core.Path.{◌≡◌}
use mathlib.Core.Logic.{◌≢◌, ◌⊎◌, inl, inr}
use mathlib.Core.Bool.{true, false}
use mathlib.Core.Option.{none}
use readyfleet_lightagent.Base.Errors.{is_ok}
use readyfleet_lightagent.Base.Tests.{Option-cases}
use native.Mathlib.Omega.{arith}
use text.Mathlib.TextEquality.{eq_iff}
use readyfleet_lightagent.Base.Text.{Bytes, append-ne}
use readyfleet_lightagent.Base.Disk.{Disk, temporary, write_file, remove, rename}

module _ (p q : String) (d : Disk) (ne : p ≢ q) where
  pub write_file_frame : (b : Bytes) → (write_file p b d).1.files q ≡ d.files q
  unfolding write_file
  write_file_frame b = ground (arith, eq_iff p q)

  pub remove_frame : (remove p d).1.files q ≡ d.files q
  unfolding remove
  remove_frame = ground (arith, eq_iff p q)

  pub rename_frame : (r : String) → r ≢ q → (rename p r d).1.files q ≡ d.files q
  unfolding rename
  rename_frame r h = ground (arith, eq_iff p q, eq_iff r q)

pub temporary-ne : (p : String) → temporary p ≢ p
temporary-ne p = append-ne p ".tmp" (λ e. cc)

-- A file that is moved is at its new place with what it held, or nothing has changed.
pub rename-cases :
    (p q : String) (d : Disk)
    → p ≢ q
    → ((is_ok (rename p q d).0 ≡ false) × ((rename p q d).1.files ≡ d.files))
      ⊎ ((is_ok (rename p q d).0 ≡ true)
          × ((rename p q d).1.files q ≡ d.files p)
          × ((rename p q d).1.files p ≡ none))
unfolding rename
rename-cases p q d ne = elim (Option-cases (d.files p)) [
  | inl e ↦ ground (arith, eq_iff p q, eq_iff q q, eq_iff p p, eq_iff q p)
  | inr e ↦ ground (arith, eq_iff p q, eq_iff q q, eq_iff p p, eq_iff q p)
]
