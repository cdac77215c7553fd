-- ===== src/Install/Windows/Waiting.antt =====
-- That the wait for the agent's first connection ends, and what it has seen.
use mathlib.Core.Path.{subst}
use readyfleet_lightagent.Base.{
  ℕ, zero, suc, ◌+◌, ◌-◌, ◌*◌, ◌/◌, ◌≤◌, ◌<◌, ◌≡◌, ◌≢◌, ◌∙◌, ◌⊎◌, refl, String, Bool, true, false,
  Option, none, some, List, [], ◌∷◌, inl, inr, ok, ltb, eq_iff, arith, Bool-cases, Option-cases,
}
use readyfleet_lightagent.Base.Lists.{length}
use readyfleet_lightagent.Base.Text.{Bytes}
use readyfleet_lightagent.Base.Disk.{read_file}
use readyfleet_lightagent.Install.Windows.{
  Machine, contains, connected_log_marker, poll_interval, rest, look, reports, waited, ticks, poll,
  enough_turns, appending, deadline_of, wait_for_agent_connected,
}

-- What a look at the log leaves: the clock, the choices, and all that is not a file.
abbrev pub Same : Machine → Machine → Type 0
Same m d = (d.run_value ≡ m.run_value) × (d.acls ≡ m.acls) × (d.started ≡ m.started)

look-clock :
    (path : String) (m : Machine)
    → ((look path m).1.clock ≡ m.clock) × ((look path m).1.picks ≡ m.picks)
unfolding look
look-clock path m = (refl, refl)

look-Same : (path : String) (m : Machine) → Same m (look path m).1
unfolding look
look-Same path m = (refl, refl, refl)

-- A look changes no file but the log.
look_frame :
    (path q : String) (m : Machine) → q ≢ path → (look path m).1.disk.files q ≡ m.disk.files q
unfolding look read_file
look_frame path q m ne = ground (arith, eq_iff path q)

look-reports :
    (path : String) (m : Machine)
    → reports (look path m).0 ≡ true
    → (b : Bytes) × ((look path m).1.disk.files path ≡ some b)
      × (contains b connected_log_marker ≡ true)
unfolding look read_file
look-reports path m h = elim (Option-cases ((appending m.appended path m.disk).files path)) [
  | inl e ↦ absurd (ground arith)
  | inr (b, e) ↦ (b, e, ground arith)
]

length-rest : (ps : List Bool) → ticks ps ≡ true → length ps ≡ suc (length (rest ps))
length-rest [] h = absurd (ground arith)
length-rest (p ∷ ps) h = refl

-- The machine after a turn of the loop, at the tick, and with the choice of the ticker.
abbrev turned : String → Machine → Machine
turned path m = waited (look path m).1

abbrev picked : String → Machine → Machine
picked path m = let m2 = turned path m in record m2 { picks = rest m2.picks }

poll_enough :
    (n k deadline : ℕ) (path : String) (m : Machine)
    → deadline ≤ m.clock + poll_interval * k
    → k + length m.picks < n
    → poll n deadline path m ≢ none
unfolding poll
poll_enough zero k deadline path m h l e = absurd (omega arith)
poll_enough (suc n) k deadline path m h l e =
    let (c, p) = look-clock path m in
    elim (Bool-cases (reports (look path m).0)) [
      | inl f ↦ ground arith
      | inr f ↦ elim (Bool-cases (ltb (turned path m).clock deadline)) [
        | inl g ↦
            let left : 1 ≤ k = ground arith in
            poll_enough n (k - 1) deadline path (turned path m) (omega arith) (omega arith)
              (ground arith)
        | inr g ↦ elim (Bool-cases (ticks (turned path m).picks)) [
          | inr t ↦ ground arith
          | inl t ↦
              let short = length-rest (turned path m).picks t in
              poll_enough n k deadline path (picked path m) (omega arith) (omega arith)
                (ground arith)
        ]
      ]
    ]

deadline_near :
    (ctx : Option ℕ) (timeout : ℕ) (m : Machine) → deadline_of ctx timeout m ≤ m.clock + timeout
deadline_near none timeout m = omega arith
deadline_near (some t) timeout m = omega arith

-- What a wait leaves alone, and what it has seen when it finds the line of the log.
abbrev pub Waited : String → Machine → Bool → Machine → Type 0
Waited path m b d =
    Same m d
    × ((q : String) → q ≢ path → d.disk.files q ≡ m.disk.files q)
    × ((b ≡ false)
        ⊎ ((log : Bytes) × (d.disk.files path ≡ some log)
            × (contains log connected_log_marker ≡ true)))

after-Waited :
    (path : String) (m u d : Machine) (b : Bool)
    → Same m u
    → ((q : String) → q ≢ path → u.disk.files q ≡ m.disk.files q)
    → Waited path u b d
    → Waited path m b d
after-Waited path m u d b (s1, s2, s3) f ((t1, t2, t3), g, h) =
    ((t1 ∙ s1, t2 ∙ s2, t3 ∙ s3), (λ q ne. g q ne ∙ f q ne), h)

poll-Waited :
    (n deadline : ℕ) (path : String) (m : Machine) (b : Bool) (d : Machine)
    → poll n deadline path m ≡ some (b, d)
    → Waited path m b d
unfolding poll
poll-Waited zero deadline path m b d e = absurd (ground arith)
poll-Waited (suc n) deadline path m b d e =
    let same = look-Same path m in
    let frame = λ (q : String) (ne : q ≢ path). look_frame path q m ne in
    elim (Bool-cases (reports (look path m).0)) [
      | inl f ↦
          let last : (look path m).1 ≡ d = ground arith in
          let found : b ≡ true = ground arith in
          subst (Waited path m b) last (same, frame, inr (look-reports path m f))
      | inr f ↦ elim (Bool-cases (ltb (turned path m).clock deadline)) [
        | inl g ↦
            after-Waited path m (turned path m) d b same frame
              (poll-Waited n deadline path (turned path m) b d (ground arith))
        | inr g ↦ elim (Bool-cases (ticks (turned path m).picks)) [
          | inl t ↦
              after-Waited path m (picked path m) d b same frame
                (poll-Waited n deadline path (picked path m) b d (ground arith))
          | inr t ↦
              let last : picked path m ≡ d = ground arith in
              let missed : b ≡ false = ground arith in
              subst (Waited path m b) last (same, frame, inl missed)
        ]
      ]
    ]

-- The wait for the agent's first connection ends: a turn for each 300 milliseconds of the timeout, two
-- more, and one for each time that `select` prefers the ticker to the expired context are enough.
pub connected_wait_ends :
    (ctx : Option ℕ) (path : String) (timeout : ℕ) (m : Machine)
    → poll (enough_turns timeout m) (deadline_of ctx timeout m) path m ≢ none
connected_wait_ends ctx path timeout m =
    let near = deadline_near ctx timeout m in
    poll_enough (enough_turns timeout m) (timeout / poll_interval + 1) (deadline_of ctx timeout m)
      path m (omega arith) (omega arith)

pub wait-Waited :
    (ctx : Option ℕ) (path : String) (timeout : ℕ) (m d : Machine)
    → wait_for_agent_connected ctx path timeout m ≡ (ok tt, d)
    → Waited path m true d
unfolding wait_for_agent_connected
wait-Waited ctx path timeout m d e =
    elim (Option-cases (poll (enough_turns timeout m) (deadline_of ctx timeout m) path m)) [
      | inl f ↦ absurd (connected_wait_ends ctx path timeout m f)
      | inr ((false, d'), f) ↦ absurd (ground arith)
      | inr ((true, d'), f) ↦
          let last : d' ≡ d = ground arith in
          subst (Waited path m true) last
            (poll-Waited (enough_turns timeout m) (deadline_of ctx timeout m) path m true d' f)
    ]
