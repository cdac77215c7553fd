-- ===== src/Config/Saving.antt =====
-- What a save leaves on disk, and that a load reads it back.
use readyfleet_lightagent.Base.{
  String, ◌≡◌, ◌≢◌, inl, inr, some, [], ok, err, Error, arith, eq_iff, Result-cases,
}
use readyfleet_lightagent.Base.Text.{Bytes}
use readyfleet_lightagent.Base.Disk.{Disk, write_file, read_file, rename, temporary}
use readyfleet_lightagent.Base.Disk.Laws.{temporary-ne}
use readyfleet_lightagent.Config.{Config, Json, load, save, unmarshal_json}

-- What is marshaled is read back, and has no member of the old key.
pub record IsRoundTrip (json : Json) : Type 0 where
  pub fields : (c : Config) (b : Bytes) → json.marshal_indent c ≡ ok b → json.fields b ≡ ok c
  pub legacy : (c : Config) (b : Bytes) → json.marshal_indent c ≡ ok b → json.legacy b ≡ ""

module _ (json : Json) where
  -- A save that succeeds has replaced the file by the marshaled configuration.
  pub save-ok :
      (path : String) (c : Config) (d : Disk)
      → (save json path c d).0 ≡ ok tt
      → (b : Bytes) × (json.marshal_indent c ≡ ok b) × ((save json path c d).1.files path ≡ some b)
  unfolding save write_file rename
  save-ok path c d h = elim (Result-cases (json.marshal_indent c)) [
    | inl (b, e) ↦ (
      b,
      e,
      ground (
        arith,
        eq_iff path path,
        eq_iff (temporary path) (temporary path),
        eq_iff (temporary path) path,
        temporary-ne path,
      ),
    )
    | inr (x, e) ↦ absurd (ground arith)
  ]

  -- A save that fails at any point, also in the middle of a write, leaves the file as it was.
  pub save-err :
      (path : String) (c : Config) (d : Disk) (e : Error)
      → (save json path c d).0 ≡ err e
      → (save json path c d).1.files path ≡ d.files path
  unfolding save write_file rename
  save-err path c d e h = ground (arith, eq_iff (temporary path) path, temporary-ne path)

  -- A save, whatever its outcome, changes no file but the configuration and its temporary file.
  pub save_frame :
      (path q : String) (c : Config) (d : Disk)
      → q ≢ path
      → q ≢ temporary path
      → (save json path c d).1.files q ≡ d.files q
  unfolding save write_file rename
  save_frame path q c d h k = ground (arith, eq_iff (temporary path) q, eq_iff path q)

  -- What a successful save wrote is what the next load returns, if its read succeeds.
  pub load-save :
      IsRoundTrip json
      → (path : String) (c : Config) (d : Disk) → (save json path c d).0 ≡ ok tt
      → (save json path c d).1.outcomes ≡ []
      → (load json path (save json path c d).1).0 ≡ ok c
  unfolding load read_file
  load-save law path c d h passes =
      let (b, e, f) = save-ok path c d h in
      rw (passes, f) (ground (arith, law.fields c b e, law.legacy c b e, eq_iff (json.legacy b) ""))

  -- A member of the new key wins over one of the old key, which counts where the new one is empty.
  pub unmarshal_json_secret :
      (b : Bytes) (c d : Config)
      → json.fields b ≡ ok c
      → unmarshal_json json b ≡ ok d
      → ((c.enrollment_secret ≢ "" → d ≡ c)
          × (c.enrollment_secret ≡ "" → d.enrollment_secret ≡ json.legacy b))
  unfolding unmarshal_json
  unmarshal_json_secret b c d e h =
      ground (arith, eq_iff c.enrollment_secret "", eq_iff (json.legacy b) "")
