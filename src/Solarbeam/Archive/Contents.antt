-- ===== src/Solarbeam/Archive/Contents.antt =====
-- What the files of an extraction hold.
use mathlib.Core.List.{Memᴰ}
use mathlib.Core.Path.{subst}
use readyfleet_lightagent.Base.{
  String, false, ◌≡◌, ◌≢◌, ◌⊎◌, inl, inr, refl, sym, ap, ◌∙◌, List, [], ◌∷◌, ok, Result-cases,
  arith, eq_iff, none, some, Option,
}
use readyfleet_lightagent.Base.Text.{Bytes}
use readyfleet_lightagent.Base.Disk.{Disk, write_file, remove, rename, touch, temporary}
use readyfleet_lightagent.Base.Disk.Laws.{temporary-ne}
use readyfleet_lightagent.Solarbeam.Archive.{
  Entry, Layout, copy_entry, extract_zip_file, extract_entry, extract_all, extract_zip,
}

-- The file holds all of what the archive has for it.
abbrev pub Written : Entry → Option Bytes → Type 0
Written f content = (content ≡ some f.body) × (f.broken ≡ none)

extract_zip_file_whole :
    (f : Entry) (dest q : String) (d : Disk)
    → temporary dest ≢ q
    → let d' = (extract_zip_file f dest d).1 in
      (d'.files q ≡ d.files q) ⊎ ((dest ≡ q) × Written f (d'.files q))
unfolding extract_zip_file copy_entry write_file remove rename touch
extract_zip_file_whole f dest q d k = ground (
  arith,
  eq_iff dest q,
  eq_iff (temporary dest) q,
  eq_iff (temporary dest) (temporary dest),
  eq_iff (temporary dest) dest,
  temporary-ne dest,
)

extract_zip_file-placed :
    (f : Entry) (dest : String) (d : Disk)
    → (extract_zip_file f dest d).0 ≡ ok tt
    → Written f ((extract_zip_file f dest d).1.files dest)
unfolding extract_zip_file copy_entry write_file remove rename touch
extract_zip_file-placed f dest d h = ground (
  arith,
  eq_iff dest dest,
  eq_iff (temporary dest) dest,
  eq_iff (temporary dest) (temporary dest),
  temporary-ne dest,
)

extract_entry-placed :
    (l : Layout) (dir : String) (f : Entry) (d : Disk)
    → f.is_dir ≡ false
    → (extract_entry l dir f d).0 ≡ ok tt
    → Written f ((extract_entry l dir f d).1.files (l.join dir f.name))
unfolding extract_entry touch
extract_entry-placed l dir f d k h =
    let placed = extract_zip_file-placed f (l.join dir f.name) (touch d).1 (ground arith) in
    ground arith

module _ (l : Layout) (dir q : String) where
  -- No entry has this name for its temporary file.
  abbrev pub IsFinal : List Entry → Type 0
  IsFinal fs = (f : Entry) → Memᴰ f fs → temporary (l.join dir f.name) ≢ q

  -- The file is as it was, or holds all of an entry that goes there.
  abbrev pub Whole : List Entry → Option Bytes → Option Bytes → Type 0
  Whole fs old content =
      (content ≡ old) ⊎ ((f : Entry) × Memᴰ f fs × (l.join dir f.name ≡ q) × Written f content)

  extract_entry_whole :
      (f : Entry) (d : Disk)
      → temporary (l.join dir f.name) ≢ q
      → let d' = (extract_entry l dir f d).1 in
        (d'.files q ≡ d.files q) ⊎ ((l.join dir f.name ≡ q) × Written f (d'.files q))
  unfolding extract_entry touch
  extract_entry_whole f d k = elim (extract_zip_file_whole f (l.join dir f.name) q (touch d).1 k) [
    | inl e ↦ ground arith
    | inr e ↦ ground arith
  ]

  extract_all-Whole :
      (fs : List Entry) (d : Disk)
      → IsFinal fs
      → Whole fs (d.files q) ((extract_all l dir fs d).1.files q)
  unfolding extract_all
  extract_all-Whole [] d k = inl refl
  extract_all-Whole (f ∷ fs) d k = elim (Result-cases (extract_entry l dir f d).0) [
    | inr (x, e) ↦ rw e (elim (extract_entry_whole f d (k f (Memᴰ.head refl))) [
      | inl s ↦ inl s
      | inr (p, s) ↦ inr (f, Memᴰ.head refl, p, s)
    ])
    | inl (u, e) ↦
        rw e (elim (extract_all-Whole fs (extract_entry l dir f d).1 (λ g m. k g (Memᴰ.tail m))) [
          | inr (g, m, p, s) ↦ inr (g, Memᴰ.tail m, p, s)
          | inl t ↦ elim (extract_entry_whole f d (k f (Memᴰ.head refl))) [
            | inl s ↦ inl (t ∙ s)
            | inr (p, s) ↦ inr (f, Memᴰ.head refl, p, (t ∙ s.0, s.1))
          ]
        ])
  ]

  -- The file holds all of an entry that goes there.
  abbrev pub Stored : List Entry → Option Bytes → Type 0
  Stored fs content = (f : Entry) × Memᴰ f fs × (l.join dir f.name ≡ q) × Written f content

  pub extract_all-Stored :
      (fs : List Entry) (d : Disk)
      → IsFinal fs
      → (extract_all l dir fs d).0 ≡ ok tt
      → (f : Entry) → Memᴰ f fs
      → f.is_dir ≡ false
      → l.join dir f.name ≡ q
      → Stored fs ((extract_all l dir fs d).1.files q)
  unfolding extract_all
  extract_all-Stored [] d k h f m file at = elim m [ ]
  extract_all-Stored (g ∷ fs) d k h f m file at = elim (Result-cases (extract_entry l dir g d).0) [
    | inr (x, e) ↦ absurd (ground arith)
    | inl (u, e) ↦
        let d1 = (extract_entry l dir g d).1 in
        let rest : (extract_all l dir fs d1).0 ≡ ok tt = ground arith in
        let later : IsFinal fs = λ i n. k i (Memᴰ.tail n) in
        rw e (elim m [
          | Memᴰ.tail n ↦
              let (i, n', p, s) = extract_all-Stored fs d1 later rest f n file at in
              (i, Memᴰ.tail n', p, s)
          | Memᴰ.head same ↦
              let here : l.join dir g.name ≡ q =
                ap (λ (i : Entry). l.join dir i.name) (sym same) ∙ at in
              let is_file : g.is_dir ≡ false = ap (λ (i : Entry). i.is_dir) (sym same) ∙ file in
              let (w, whole) =
                subst (λ (r : String). Written g (d1.files r)) here
                  (extract_entry-placed l dir g d is_file e) in
              elim (extract_all-Whole fs d1 later) [
                | inl t ↦ (g, Memᴰ.head refl, here, (t ∙ w, whole))
                | inr (i, n, p, s) ↦ (i, Memᴰ.tail n, p, s)
              ]
        ])
  ]

-- An extraction that fails at any point, also in the middle of a write, leaves each file that is not
-- a temporary one either as it was, or with all the bytes of an entry of the archive that goes there:
-- no half of an entry is ever at its place.
pub extract_zip-Whole :
    (l : Layout) (src dest_dir dir q : String) (d : Disk) (fs : List Entry)
    → l.abs dest_dir ≡ ok dir
    → l.read_zip (d.files src) ≡ ok fs
    → IsFinal l dir q fs
    → Whole l dir q fs (d.files q) ((extract_zip l src dest_dir d).1.files q)
unfolding extract_zip
extract_zip-Whole l src dest_dir dir q d fs a e k = rw (e, a) (extract_all-Whole l dir q fs d k)
