-- ===== src/Install/Laws.antt =====
-- The order of an install, and what an uninstall has done when it succeeds.
use readyfleet_lightagent.Base.{
  String, true, ◌≡◌, ◌⊎◌, inl, inr, ap, List, [], ◌∷◌, none, some, Error, wrap, Result, ok, err,
  Act, pure, fail, catch, ◌>>◌, Result-cases, eq_iff, arith,
}
use readyfleet_lightagent.Base.Disk.{Disk, write_file, touch}
use readyfleet_lightagent.Install.{
  Paths, Seams, Layout, install, revoke, uninstall, windows_seams, tombstone_path, write_tombstone,
  remove_install_dir, remove_tree,
}

-- A run of stages: each that succeeds is followed by the next on the machine that it left; the first
-- that fails is the last, and its error carries its label.
pub data Run {S : Type 0}
    : List (String × Act S (Unit {0})) → S → Result (Unit {0}) → S → Type 0 where
  done : {s : S} → Run [] s (ok tt) s
  failed :
      {label : String} {a : Act S (Unit {0})} {rest : List (String × Act S (Unit {0}))} {s s' : S}
      {e : Error}
      → a s ≡ (err e, s')
      → Run ((label, a) ∷ rest) s (err (wrap label e)) s'
  onward :
      {label : String} {a : Act S (Unit {0})} {rest : List (String × Act S (Unit {0}))}
      {s s' s'' : S} {r : Result (Unit {0})}
      → a s ≡ (ok tt, s')
      → Run rest s' r s''
      → Run ((label, a) ∷ rest) s r s''

module _ {S : Type 0} where
  abbrev run_stages : List (String × Act S (Unit {0})) → Act S (Unit {0})
  run_stages [] = pure tt
  run_stages ((label, a) ∷ rest) =
      let after = run_stages rest in catch a (λ e. fail (wrap label e)) >> after

  run_stages-Run :
      (stages : List (String × Act S (Unit {0}))) (s : S)
      → Run stages s (run_stages stages s).0 (run_stages stages s).1
  run_stages-Run [] s = done
  run_stages-Run ((label, a) ∷ rest) s = elim (Result-cases (a s).0) [
    | inr (e, f) ↦ rw f (failed (ap (λ (r : Result (Unit {0})). (r, (a s).1)) f))
    | inl (u, f) ↦
        rw f (onward (ap (λ (r : Result (Unit {0})). (r, (a s).1)) f) (run_stages-Run rest (a s).1))
  ]

module _ {S P : Type 0} (p : Paths) (m : Seams S P) where
  abbrev pub stages : P → List (String × Act S (Unit {0}))
  stages payload =
      ("lightinstall: verify agent: %w", m.verify_agent p.agent_exe)
      ∷ ("lightinstall: enroll: %w", m.enroll payload)
      ∷ ("lightinstall: protect key: %w", m.protect_key p.key_path)
      ∷ ("lightinstall: register logon startup: %w", m.register_task p.agent_exe)
      ∷ ("lightinstall: start agent: %w", m.start_agent p.agent_exe)
      ∷ ("lightinstall: confirm connection: %w", m.wait_for_connected p.log_path)
      ∷ []

  -- Every install is a run of the six stages in their order: nothing is enrolled before the agent is
  -- verified, no logon entry is registered before the key is protected, and an install succeeds only
  -- after the agent has connected.
  pub install_runs :
      (payload : P) (s : S)
      → Run (stages payload) s (install p m payload s).0 (install p m payload s).1
  unfolding install
  install_runs payload s = run_stages-Run (stages payload) s

  -- An uninstall that succeeds has revoked the machine online or written a tombstone, then removed
  -- the logon entry, and then the directory.
  pub uninstall-ok :
      (s s' : S)
      → uninstall p m s ≡ (ok tt, s')
      → (((m.unlink_online p.agent_exe s).0 ≡ ok tt)
          ⊎ ((m.write_tombstone p.root (m.unlink_online p.agent_exe s).1).0 ≡ ok tt))
        × (m.remove_task (revoke p m s).1 ≡ (ok tt, (m.remove_task (revoke p m s).1).1))
        × (m.remove_all p.root (m.remove_task (revoke p m s).1).1 ≡ (ok tt, s'))
  unfolding uninstall revoke
  uninstall-ok s s' h = elim (Result-cases (m.unlink_online p.agent_exe s).0) [
    | inl (u, f) ↦ (inl (ground arith), ground arith, ground arith)
    | inr (e, f) ↦ (inr (ground arith), ground arith, ground arith)
  ]

write_tombstone-ok :
    (l : Layout) (root : String) (d : Disk)
    → (write_tombstone l root d).0 ≡ ok tt
    → (write_tombstone l root d).1.files (tombstone_path l root) ≡ some l.stamp
unfolding write_tombstone write_file touch
write_tombstone-ok l root d h =
    ground (arith, eq_iff (tombstone_path l root) (tombstone_path l root))

-- An uninstall on Windows that could not revoke the machine online and succeeds has written a tombstone
-- with the time, and leaves none: it stands in the directory that is removed last.
pub uninstall_loses_tombstone :
    {P : Type 0} (p : Paths) (l : Layout) (m : Seams Disk P)
    → l.is_below p.root (tombstone_path l p.root) ≡ true
    → (d d' : Disk) (e : Error) → (m.unlink_online p.agent_exe d).0 ≡ err e
    → uninstall p (windows_seams l m) d ≡ (ok tt, d')
    → ((revoke p (windows_seams l m) d).1.files (tombstone_path l p.root) ≡ some l.stamp)
      × (d'.files (tombstone_path l p.root) ≡ none)
unfolding remove_install_dir remove_tree revoke
uninstall_loses_tombstone p l m below d d' e offline h =
    let (revoked, removed, cleared) = uninstall-ok p (windows_seams l m) d d' h in
    let fallen : (write_tombstone l p.root (m.unlink_online p.agent_exe d).1).0 ≡ ok tt =
      elim revoked [ inl f ↦ absurd (ground arith) | inr f ↦ f ] in
    (
      ground (arith, write_tombstone-ok l p.root (m.unlink_online p.agent_exe d).1 fallen),
      ground arith,
    )
