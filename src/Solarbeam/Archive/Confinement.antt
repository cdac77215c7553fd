-- ===== src/Solarbeam/Archive/Confinement.antt =====
-- Where an extraction writes.
use text.Mathlib.Text.{starts_with}
use text.Mathlib.TextLemmas.{append_assoc}
use text.Mathlib.TextEquality.{starts_with_iff}
use readyfleet_lightagent.Base.{
  String, ◌<>◌, true, false, ◌≡◌, ◌≢◌, inl, inr, refl, sym, ap, ◌∙◌, List, [], ◌∷◌, ok,
  Result-cases, Bool-cases, arith, eq_iff, ◌==◌,
}
use readyfleet_lightagent.Base.Disk.{Disk, write_file, remove, rename, touch, temporary}
use readyfleet_lightagent.Solarbeam.Archive.{
  Entry, Layout, copy_entry, extract_zip_file, escapes, extract_entry, extract_all, extract_zip,
}

-- A name with more behind it starts with what it started with.
starts_with-append : (s t p : String) → starts_with s p ≡ true → starts_with (s <> t) p ≡ true
starts_with-append s t p h =
    let (u, e) = (starts_with_iff s p).0 h in
    (starts_with_iff (s <> t) p).1
      (u <> t, sym (append_assoc p u t) ∙ ap (λ (x : String). x <> t) e)

-- Extracting one file changes no file but its own and the one beside it.
pub extract_zip_file_frame :
    (f : Entry) (dest q : String) (d : Disk)
    → dest ≢ q
    → temporary dest ≢ q
    → (extract_zip_file f dest d).1.files q ≡ d.files q
unfolding extract_zip_file copy_entry write_file remove rename touch
extract_zip_file_frame f dest q d h k = ground (arith, eq_iff dest q, eq_iff (temporary dest) q)

-- A name outside a directory: it is not the directory, nor the name that its temporary file would
-- have, and does not start with the directory and the separator.
pub record IsOutside (l : Layout) (dir q : String) : Type 0 where
  pub not_dir : dir ≢ q
  pub not_temporary : temporary dir ≢ q
  pub not_below : starts_with q (dir <> l.separator) ≡ false

module _ (l : Layout) (dir q : String) (out : IsOutside l dir q) where
  -- A place that the guard lets through is not outside, and neither is its temporary file.
  guarded : (p : String) → escapes l dir p ≡ false → (p ≢ q) × (temporary p ≢ q)
  unfolding escapes
  guarded p h = elim (Bool-cases (p == dir)) [
    | inl e ↦
        let same = (eq_iff p dir).0 e in
        (λ k. out.not_dir (sym same ∙ k), λ k. out.not_temporary (sym (ap temporary same) ∙ k))
    | inr e ↦
        let below : starts_with p (dir <> l.separator) ≡ true = ground arith in
        let below_too = starts_with-append p ".tmp" (dir <> l.separator) below in
        (
          λ k. cc (below, out.not_below, ap (λ (x : String). starts_with x (dir <> l.separator)) k),
          λ k.
              cc (
                below_too,
                out.not_below,
                ap (λ (x : String). starts_with x (dir <> l.separator)) k,
              ),
        )
  ]

  extract_entry_confined : (f : Entry) (d : Disk) → (extract_entry l dir f d).1.files q ≡ d.files q
  unfolding extract_entry touch
  extract_entry_confined f d = elim (Bool-cases (escapes l dir (l.join dir f.name))) [
    | inl e ↦ ground arith
    | inr e ↦
        let (a, b) = guarded (l.join dir f.name) e in
        ground (arith, extract_zip_file_frame f (l.join dir f.name) q (touch d).1 a b)
  ]

  extract_all_confined :
      (fs : List Entry) (d : Disk) → (extract_all l dir fs d).1.files q ≡ d.files q
  unfolding extract_all
  extract_all_confined [] d = refl
  extract_all_confined (f ∷ fs) d = elim (Result-cases (extract_entry l dir f d).0) [
    | inl (u, e) ↦
        rw e (extract_all_confined fs (extract_entry l dir f d).1 ∙ extract_entry_confined f d)
    | inr (x, e) ↦ rw e (extract_entry_confined f d)
  ]

-- Whatever an archive holds, and whatever fails, an extraction changes no file outside the install
-- directory, but for one: an entry that resolves to the directory itself passes the guard, and its
-- temporary file stands beside the directory.
pub extract_zip_confined :
    (l : Layout) (src dest_dir dir q : String) (d : Disk)
    → l.abs dest_dir ≡ ok dir
    → IsOutside l dir q
    → (extract_zip l src dest_dir d).1.files q ≡ d.files q
unfolding extract_zip
extract_zip_confined l src dest_dir dir q d a out = elim (Result-cases (l.read_zip (d.files src))) [
  | inl (fs, e) ↦ rw (e, a) (extract_all_confined l dir q out fs d)
  | inr (x, e) ↦ rw e refl
]
