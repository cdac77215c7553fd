-- ===== src/Light/Startup/Unlinking.antt =====
-- What the subcommand `unlink` leaves on the machine.
use readyfleet_lightagent.Base.{String, false, ◌≡◌, ◌≢◌, ap, ◌∙◌, none, [], ok, arith, eq_iff}
use readyfleet_lightagent.Base.Disk.{Disk, remove, read_file}
use readyfleet_lightagent.Config
use readyfleet_lightagent.Config.{Json, load, zero_config}
use readyfleet_lightagent.Light.Startup.{
  Host, discard, run_unlink, clear_config, remove_logon_startup,
}

-- A host on which no call fails.
pub record IsCalm (h : Host) : Type 0 where
  pub disk : h.disk.outcomes ≡ []
  pub open_key : h.open_fault ≡ none
  pub delete_value : h.delete_fault ≡ none

-- The file of this name is not there, if the name is not empty.
abbrev pub Gone : String → Host → Type 0
Gone p h = p ≢ "" → h.disk.files p ≡ none

-- What a step of `unlink` on a calm host does not undo.
pub record Clears (p : String) (h h' : Host) : Type 0 where
  pub calm : IsCalm h'
  pub kept : (q : String) → h.disk.files q ≡ none → h'.disk.files q ≡ none
  pub cleared : Gone p h'

-- The same for the configuration, whatever its name.
pub record ClearsAll (p : String) (h h' : Host) : Type 0 where
  pub kept : (q : String) → h.disk.files q ≡ none → h'.disk.files q ≡ none
  pub cleared : h'.disk.files p ≡ none

discard-Clears :
    (p : String) (h : Host) → IsCalm h → ((discard p h).0 ≡ ok tt) × Clears p h (discard p h).1
unfolding remove
discard-Clears p h c = (
  ground (arith, eq_iff p ""),
  record {
    calm = record { disk = ground arith; open_key = ground arith; delete_value = ground arith };
    kept = λ q k. ground (arith, eq_iff p q);
    cleared = λ n. ground (arith, eq_iff p "", eq_iff p p);
  },
)

load_calm :
    (json : Json) (path : String) (d : Disk) → d.outcomes ≡ [] → (load json path d).1.outcomes ≡ []
unfolding load read_file
load_calm json path d h = ground arith

clear_config-Clears :
    (path : String) (h : Host)
    → IsCalm h
    → ((clear_config path h).0 ≡ ok tt)
      × ((clear_config path h).1.registered ≡ false)
      × ClearsAll path h (clear_config path h).1
unfolding clear_config remove remove_logon_startup
clear_config-Clears path h c = (
  ground arith,
  ground arith,
  record {
    kept = λ q k. ground (arith, eq_iff path q);
    cleared = ground (arith, eq_iff path path);
  },
)

module _ (json : Json) (path : String) (h : Host) (cfg : Config.Config) where
  -- On a calm host whose configuration can be loaded, `unlink` succeeds; the configuration and the
  -- files that it names are gone, and the agent does not start at the next logon.
  pub run_unlink_clears :
      IsCalm h
      → (load json path h.disk).0 ≡ ok cfg
      → ((run_unlink json path h).0 ≡ ok tt)
        × ((run_unlink json path h).1.disk.files path ≡ none)
        × Gone cfg.cert_path (run_unlink json path h).1
        × Gone cfg.key_path (run_unlink json path h).1
        × Gone cfg.ca_path (run_unlink json path h).1
        × ((run_unlink json path h).1.registered ≡ false)
  unfolding run_unlink
  run_unlink_clears calm l =
      let h0 = record h { disk = (load json path h.disk).1 } in
      let c0 : IsCalm h0 = record {
        disk = load_calm json path h.disk calm.disk;
        open_key = calm.open_key;
        delete_value = calm.delete_value;
      } in
      let (r1, s1) = discard-Clears cfg.cert_path h0 c0 in
      let h1 = (discard cfg.cert_path h0).1 in
      let (r2, s2) = discard-Clears cfg.key_path h1 s1.calm in
      let h2 = (discard cfg.key_path h1).1 in
      let (r3, s3) = discard-Clears cfg.ca_path h2 s2.calm in
      let h3 = (discard cfg.ca_path h2).1 in
      let (r4, registered, s4) = clear_config-Clears path h3 s3.calm in
      let h4 = (clear_config path h3).1 in
      let same : run_unlink json path h ≡ (ok tt, h4) = ground arith in
      let disk : (run_unlink json path h).1 ≡ h4 = ground arith in
      (
        ground arith,
        ap (λ (x : Host). x.disk.files path) disk ∙ s4.cleared,
        λ n.
            ap (λ (x : Host). x.disk.files cfg.cert_path) disk
            ∙ s4.kept cfg.cert_path (s3.kept cfg.cert_path (s2.kept cfg.cert_path (s1.cleared n))),
        λ n.
            ap (λ (x : Host). x.disk.files cfg.key_path) disk
            ∙ s4.kept cfg.key_path (s3.kept cfg.key_path (s2.cleared n)),
        λ n. ap (λ (x : Host). x.disk.files cfg.ca_path) disk ∙ s4.kept cfg.ca_path (s3.cleared n),
        ap (λ (x : Host). x.registered) disk ∙ registered,
      )
