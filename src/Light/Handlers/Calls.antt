-- ===== src/Light/Handlers/Calls.antt =====
-- What a command does to the machine: at most the one call of its kind.
use readyfleet_lightagent.Base.{
  ℕ, String, Bool, true, false, ◌||◌, ◌≡◌, refl, ◌∙◌, Option, none, some, Result, ok, err, Act,
  arith, ◌==◌, if◌then◌else◌, wrap,
}
use readyfleet_lightagent.Base.Text.{Bytes}
use readyfleet_lightagent.Proto.{
  CommandData, ResultData, SolarbeamStartArgs, StopSolarbeamArgs, ShowNotificationArgs,
  cmd_inventory_refresh, cmd_start_solarbeam, cmd_stop_solarbeam, cmd_solarbeam_engine_update,
  cmd_update, cmd_show_notification,
}
use readyfleet_lightagent.Proto.Envelope.{Envelope, decode_data, decode_args}
use readyfleet_lightagent.Runtime.Link.{Link, now, since, send, make_envelope}
use readyfleet_lightagent.Runtime.Dispatch.{find, dispatch, Handler, run_handler}
use readyfleet_lightagent.Light.Handlers.{
  Codec, Services, decode_args_for, emit_result, with_result, report, report_inventory, start_body,
  stop_body, engine_update_body, self_update_body, notification_body, inventory_body,
  severity_from_wire, connection_request_kind, run_inventory_refresh, run_start_solarbeam,
  run_stop_solarbeam, run_solarbeam_engine_update, run_self_update, run_show_notification,
  light_handlers, light_dispatch,
}

module _ {S : Type 0} (codec : Codec) (svc : Services S) where
  -- The call for decoded arguments; none where there are none.
  abbrev when_ok : {A : Type 0} → Result A → (A → S → S) → S → S
  when_ok (ok a) f s = f a s
  when_ok (err e) f s = s

  abbrev start_effect : SolarbeamStartArgs → S → S
  start_effect a s =
      if a.session_id == "" || a.machine_id == "" || a.bundle_token == ""
      then s
      else (svc.start a s).1

  abbrev notify_effect : ShowNotificationArgs → S → S
  notify_effect a s =
      (svc.notify a.title a.body (severity_from_wire a.severity)
        (if a.url == "" then none else some a.url) s).1

  abbrev show_effect :
      Option (String → String → String → Act S (Unit {0})) → ShowNotificationArgs → S → S
  show_effect none a s = notify_effect a s
  show_effect (some prompt) a s =
      if a.kind == connection_request_kind
      then (prompt a.title a.body a.url s).1
      else notify_effect a s

  abbrev stop_effect : StopSolarbeamArgs → S → S
  stop_effect a s = if a.session_id == "" then s else (svc.stop a s).1

  abbrev notification_effect : ShowNotificationArgs → S → S
  notification_effect a s =
      if a.kind == "" || a.title == "" || a.body == ""
      then s
      else show_effect svc.connection_request a s

  -- What a command of the contract does to the machine.
  abbrev pub effect : CommandData → S → S
  effect cmd s =
      if cmd.kind == cmd_inventory_refresh
      then (svc.collect s).1
      else if cmd.kind == cmd_start_solarbeam
      then when_ok (decode_args cmd codec.decode_start) start_effect s
      else if cmd.kind == cmd_stop_solarbeam
      then when_ok (decode_args cmd codec.decode_stop) stop_effect s
      else if cmd.kind == cmd_solarbeam_engine_update
      then when_ok (decode_args cmd codec.decode_engine_update) (λ a s. (svc.engine_update a s).1) s
      else if cmd.kind == cmd_update
      then when_ok (decode_args cmd codec.decode_update) (λ a s. (svc.self_update a s).1) s
      else if cmd.kind == cmd_show_notification
      then when_ok (decode_args cmd codec.decode_notification) notification_effect s
      else s

  emit_result-host :
      (id : ℕ) (r : ResultData) (start : ℕ) (l : Link S)
      → (emit_result codec svc id r start l).1.host ≡ l.host
  unfolding emit_result
  emit_result-host id r start l = ground arith

  report-host :
      (start : ℕ) (env : Envelope) (r : Result (Unit {0})) (l : Link S)
      → (report codec svc start env r l).1.host ≡ l.host
  unfolding since
  report-host start env (ok u) l = emit_result-host env.id _ start _
  report-host start env (err e) l = emit_result-host env.id _ start l

  report_inventory-host :
      (start : ℕ) (env : Envelope) (r : Result (Unit {0})) (l : Link S)
      → (report_inventory codec svc start env r l).1.host ≡ l.host
  report_inventory-host start env (ok u) l = emit_result-host env.id _ start l
  report_inventory-host start env (err e) l = emit_result-host env.id _ start l

  -- A handler with this body changes the machine as its body does.
  with_result-host :
      (env : Envelope) (body : Act (Link S) (Unit {0})) (f : S → S)
      → ((l : Link S) → (body l).1.host ≡ f l.host)
      → (l : Link S) → (with_result codec svc env body l).1.host ≡ f l.host
  unfolding now
  with_result-host env body f h l =
      report-host l.clock env (body (now l).1).0 (body (now l).1).1 ∙ h (now l).1

  abbrev run_found : String → Envelope → Option (Handler S) → Act (Link S) (Unit {0})
  run_found kind env found = run_handler codec.decode_command codec.encode_result found kind env

  pick-host :
      (kind : String) (env : Envelope) (b : Bool) (h : Handler S) (rest : Option (Handler S))
      (l : Link S) (mine other : S)
      → (b ≡ true → (h env l).1.host ≡ mine)
      → (run_found kind env rest l).1.host ≡ other
      → (run_found kind env (if b then some h else rest) l).1.host ≡ (if b then mine else other)
  pick-host kind env true h rest l mine other p q = p refl
  pick-host kind env false h rest l mine other p q = q

  module _ (env : Envelope) (cmd : CommandData)
      (d : decode_data env codec.decode_command ≡ ok cmd) where
    abbrev wrapped : {A : Type 0} → Result A → Result A
    wrapped (ok a) = ok a
    wrapped (err e) = err (wrap "decode %s args: %w" e)

    decode_args_for_lem :
        {A : Type 0} (want : String) (unmarshal : Bytes → Result A) (l : Link S)
        → (cmd.kind == want) ≡ true
        → decode_args_for codec svc want env unmarshal l ≡ (wrapped (decode_args cmd unmarshal), l)
    unfolding decode_args_for
    decode_args_for_lem want unmarshal l k = ground arith

    start-host :
        (l : Link S)
        → (cmd.kind == cmd_start_solarbeam) ≡ true
        → (start_body codec svc env l).1.host
          ≡ when_ok (decode_args cmd codec.decode_start) start_effect l.host
    start-host l k =
        rw (decode_args_for_lem cmd_start_solarbeam codec.decode_start l k) (ground arith)

    stop-host :
        (l : Link S)
        → (cmd.kind == cmd_stop_solarbeam) ≡ true
        → (stop_body codec svc env l).1.host
          ≡ when_ok (decode_args cmd codec.decode_stop) stop_effect l.host
    stop-host l k = rw (decode_args_for_lem cmd_stop_solarbeam codec.decode_stop l k) (ground arith)

    engine_update-host :
        (l : Link S)
        → (cmd.kind == cmd_solarbeam_engine_update) ≡ true
        → (engine_update_body codec svc env l).1.host
          ≡ when_ok
              (decode_args cmd codec.decode_engine_update)
              (λ a s. (svc.engine_update a s).1)
              l.host
    engine_update-host l k =
        rw (decode_args_for_lem cmd_solarbeam_engine_update codec.decode_engine_update l k)
          (ground arith)

    self_update-host :
        (l : Link S)
        → (cmd.kind == cmd_update) ≡ true
        → (self_update_body codec svc env l).1.host
          ≡ when_ok (decode_args cmd codec.decode_update) (λ a s. (svc.self_update a s).1) l.host
    self_update-host l k =
        rw (decode_args_for_lem cmd_update codec.decode_update l k) (ground arith)

    notification-host :
        (l : Link S)
        → (cmd.kind == cmd_show_notification) ≡ true
        → (notification_body codec svc env l).1.host
          ≡ when_ok (decode_args cmd codec.decode_notification) notification_effect l.host
    notification-host l k =
        rw (decode_args_for_lem cmd_show_notification codec.decode_notification l k) (ground arith)

    inventory-host : (l : Link S) → (inventory_body codec svc env l).1.host ≡ (svc.collect l.host).1
    unfolding make_envelope send
    inventory-host l = ground arith

    run_inventory-host :
        (l : Link S) → (run_inventory_refresh codec svc env l).1.host ≡ (svc.collect l.host).1
    unfolding run_inventory_refresh now
    run_inventory-host l =
        report_inventory-host l.clock env (inventory_body codec svc env (now l).1).0
          (inventory_body codec svc env (now l).1).1
        ∙ inventory-host (now l).1

    unsupported-host : (l : Link S) → (run_found cmd.kind env none l).1.host ≡ l.host
    unfolding make_envelope send
    unsupported-host l = ground arith

    -- A command that can be decoded changes the machine by the one call of its kind, where its
    -- arguments are complete, and not at all otherwise; a command of any other kind does nothing.
    pub light_dispatch-host :
        (l : Link S) → (light_dispatch codec svc env l).1.host ≡ effect cmd l.host
    unfolding light_dispatch dispatch find light_handlers run_start_solarbeam run_stop_solarbeam
        run_solarbeam_engine_update run_self_update run_show_notification
    light_dispatch-host l =
        let pick = λ (b : Bool) (h : Handler S). pick-host cmd.kind env b h in
        rw d (
          pick (cmd.kind == cmd_inventory_refresh) _ _ l _ _ (λ k. run_inventory-host l)
            (pick (cmd.kind == cmd_start_solarbeam) _ _ l _ _
              (λ k.
                with_result-host env _ (when_ok (decode_args cmd codec.decode_start) start_effect)
                  (λ l'. start-host l' k) l)
              (pick (cmd.kind == cmd_stop_solarbeam) _ _ l _ _
                (λ k.
                  with_result-host env _ (when_ok (decode_args cmd codec.decode_stop) stop_effect)
                    (λ l'. stop-host l' k) l)
                (pick (cmd.kind == cmd_solarbeam_engine_update) _ _ l _ _
                  (λ k.
                    with_result-host env _
                      (when_ok (decode_args cmd codec.decode_engine_update)
                        (λ a s. (svc.engine_update a s).1))
                      (λ l'. engine_update-host l' k) l)
                  (pick (cmd.kind == cmd_update) _ _ l _ _
                    (λ k.
                      with_result-host env _
                        (when_ok (decode_args cmd codec.decode_update)
                          (λ a s. (svc.self_update a s).1))
                        (λ l'. self_update-host l' k) l)
                    (pick (cmd.kind == cmd_show_notification) _ _ l _ _
                      (λ k.
                        with_result-host env _
                          (when_ok (decode_args cmd codec.decode_notification) notification_effect)
                          (λ l'. notification-host l' k) l)
                      (unsupported-host l)))))))
