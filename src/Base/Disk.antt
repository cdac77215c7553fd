-- ===== src/Base/Disk.antt =====
-- The files of the machine, as package `os` of the standard library reads and writes them. What the
-- machine lets fail is a list of outcomes, one for each call, which every theorem ranges over: a
-- call passes, fails before it changes anything, or (a write) fails after some of its bytes.
-- Directories are not kept: `os.MkdirAll` passes or fails.
pub mod Laws
use Prim.Native.Nat.{ℕ}
use Prim.Native.String.{String, ◌++◌ as ◌<>◌}
use mathlib.Core.Bool.{Bool}
use mathlib.Core.Option.{Option, none, some}
use mathlib.Core.List.{List, [], ◌∷◌}
use text.Mathlib.Text.{◌==◌}
use readyfleet_lightagent.Base.Tests.{if◌then◌else◌}
use readyfleet_lightagent.Base.Errors.{Error, not_exist, Result, ok, err}
use readyfleet_lightagent.Base.Effects.{Act}
use readyfleet_lightagent.Base.Lists.{take}
use readyfleet_lightagent.Base.Text.{Bytes}

pub data Outcome : Type 0 where
  pass : Outcome
  fault : Error → Outcome
  torn : ℕ → Error → Outcome

abbrev pub Files : Type 0
Files = String → Option Bytes

pub record Disk : Type 0 where
  pub files : Files
  pub outcomes : List Outcome

abbrev pub update : Files → String → Option Bytes → Files
update f p v q = if p == q then v else f q

-- The outcome of the next call, and the outcomes left; calls past the end of the list pass.
abbrev pub outcome : List Outcome → Outcome
outcome [] = pass
outcome (o ∷ os) = o

abbrev pub later : List Outcome → List Outcome
later [] = []
later (o ∷ os) = os

abbrev written : Outcome → Files → String → Bytes → Files
written pass f p b = update f p (some b)
written (fault e) f p b = f
written (torn n e) f p b = update f p (some (take n b))

abbrev verdict : Outcome → Result (Unit {0})
verdict pass = ok tt
verdict (fault e) = err e
verdict (torn n e) = err e

-- os.WriteFile, and io.Copy into a file that was opened to be written from its start
unfoldable pub write_file : String → Bytes → Act Disk (Unit {0})
write_file p b d =
    let o = outcome d.outcomes in
    (verdict o, record { files = written o d.files p b; outcomes = later d.outcomes })

abbrev read : Outcome → Option Bytes → Result Bytes
read pass (some b) = ok b
read pass none = err not_exist
read (fault e) _ = err e
read (torn n e) _ = err e

-- os.ReadFile
unfoldable pub read_file : String → Act Disk Bytes
read_file p d = (read (outcome d.outcomes) (d.files p), record d { outcomes = later d.outcomes })

abbrev removed : Outcome → Files → String → Option Bytes → Result (Unit {0}) × Files
removed pass f p (some b) = (ok tt, update f p none)
removed pass f p none = (err not_exist, f)
removed (fault e) f p _ = (err e, f)
removed (torn n e) f p _ = (err e, f)

-- os.Remove of a file
unfoldable pub remove : String → Act Disk (Unit {0})
remove p d =
    let (r, f) = removed (outcome d.outcomes) d.files p (d.files p) in
    (r, record { files = f; outcomes = later d.outcomes })

abbrev renamed : Outcome → Files → String → String → Option Bytes → Result (Unit {0}) × Files
renamed pass f p q (some b) = (ok tt, update (update f p none) q (some b))
renamed pass f p q none = (err not_exist, f)
renamed (fault e) f p q _ = (err e, f)
renamed (torn n e) f p q _ = (err e, f)

-- os.Rename of a file, which replaces the target in one step
unfoldable pub rename : String → String → Act Disk (Unit {0})
rename p q d =
    let (r, f) = renamed (outcome d.outcomes) d.files p q (d.files p) in
    (r, record { files = f; outcomes = later d.outcomes })

-- A file written beside its target and renamed onto it, as the repository saves what must not be
-- seen half written.
abbrev pub temporary : String → String
temporary p = p <> ".tmp"

-- os.MkdirAll, os.Chmod and Close: calls that change no content of a file
unfoldable pub touch : Act Disk (Unit {0})
touch d = (verdict (outcome d.outcomes), record d { outcomes = later d.outcomes })
