-- ===== src/Light/Handlers/Replies.antt =====
-- Every command is answered once.
use readyfleet_lightagent.Base.{
  ℕ, suc, String, Bool, true, false, ◌&&◌, ◌≡◌, ◌∙◌, ap, Option, none, some, [], Result, ok, err,
  Act, arith, eqb, eqb_iff, ◌-◌, if◌then◌else◌, ◌==◌,
}
use readyfleet_lightagent.Base.Text.{Bytes}
use readyfleet_lightagent.Base.Lists.{count}
use readyfleet_lightagent.Proto.{
  ResultData, CommandData, msg_result, cmd_inventory_refresh, cmd_start_solarbeam,
  cmd_stop_solarbeam, cmd_solarbeam_engine_update, cmd_update, cmd_show_notification,
}
use readyfleet_lightagent.Proto.Envelope.{Envelope, decode_data}
use readyfleet_lightagent.Runtime.Link.{Link, now, since, send, make_envelope}
use readyfleet_lightagent.Runtime.Dispatch.{find, dispatch, Handler, unsupported, run_handler}
use readyfleet_lightagent.Light.Handlers.{
  Codec, Services, decode_args_for, emit_result, with_result, report, report_inventory, failure,
  success, start_body, stop_body, engine_update_body, self_update_body, notification_body,
  inventory_body, run_inventory_refresh, run_start_solarbeam, run_stop_solarbeam,
  run_solarbeam_engine_update, run_self_update, run_show_notification, light_handlers,
  light_dispatch,
}

abbrev answers : Option ℕ → ℕ → Bool
answers none id = false
answers (some p) id = eqb p id

-- An envelope that carries the result of the command with this id.
abbrev pub is_reply : ℕ → Envelope → Bool
is_reply id e = (e.type == msg_result) && answers e.in_reply_to id

-- json.Marshal never fails on a ResultData, a struct of numbers and texts.
pub record Encodes (codec : Codec) : Type 0 where
  pub raw : ResultData → Bytes
  pub encodes : (r : ResultData) → codec.encode_result r ≡ ok (raw r)

module _ {S : Type 0} where
  abbrev pub replies : ℕ → Link S → ℕ
  replies id l = count (is_reply id) l.sent

  -- A call that answers nothing on a connection that works, and leaves it working.
  record IsQuiet (id : ℕ) (body : Act (Link S) (Unit {0})) : Type 0 where
    kept : (l : Link S) → l.failures ≡ [] → replies id (body l).1 ≡ replies id l
    works : (l : Link S) → l.failures ≡ [] → (body l).1.failures ≡ []

  -- A call that answers once there.
  record AnswersOnce (id : ℕ) (body : Act (Link S) (Unit {0})) : Type 0 where
    once : (l : Link S) → l.failures ≡ [] → replies id (body l).1 ≡ suc (replies id l)

module _ {S : Type 0} (codec : Codec) (svc : Services S) (total : Encodes codec) where
  start-IsQuiet : (env : Envelope) → IsQuiet env.id (start_body codec svc env)
  unfolding decode_args_for
  start-IsQuiet env = record { kept = λ l h. ground arith; works = λ l h. ground arith }

  stop-IsQuiet : (env : Envelope) → IsQuiet env.id (stop_body codec svc env)
  unfolding decode_args_for
  stop-IsQuiet env = record { kept = λ l h. ground arith; works = λ l h. ground arith }

  engine_update-IsQuiet : (env : Envelope) → IsQuiet env.id (engine_update_body codec svc env)
  unfolding decode_args_for
  engine_update-IsQuiet env = record { kept = λ l h. ground arith; works = λ l h. ground arith }

  self_update-IsQuiet : (env : Envelope) → IsQuiet env.id (self_update_body codec svc env)
  unfolding decode_args_for
  self_update-IsQuiet env = record { kept = λ l h. ground arith; works = λ l h. ground arith }

  notification-IsQuiet : (env : Envelope) → IsQuiet env.id (notification_body codec svc env)
  unfolding decode_args_for
  notification-IsQuiet env = record { kept = λ l h. ground arith; works = λ l h. ground arith }

  -- The inventory itself is sent too, and is no result.
  inventory-IsQuiet : (env : Envelope) → IsQuiet env.id (inventory_body codec svc env)
  unfolding make_envelope send
  inventory-IsQuiet env = record { kept = λ l h. ground arith; works = λ l h. ground arith }

  emit_result_once :
      (id : ℕ) (r : ResultData) (start : ℕ) → AnswersOnce id (emit_result codec svc id r start)
  unfolding emit_result
  emit_result_once id r start = record {
    once = λ l h. ground (
      arith,
      total.encodes r,
      total.encodes (record r { duration = l.clock - start }),
      eqb_iff id id,
    );
  }

  report_once :
      (start : ℕ) (env : Envelope) (r : Result (Unit {0}))
      → AnswersOnce env.id (report codec svc start env r)
  unfolding since
  report_once start env (ok u) = record {
    once = λ l h.
        (emit_result_once env.id (record success { duration = l.clock - start }) start).once
          (now l).1 h;
  }
  report_once start env (err e) = emit_result_once env.id (failure e) start

  report_inventory_once :
      (start : ℕ) (env : Envelope) (r : Result (Unit {0}))
      → AnswersOnce env.id (report_inventory codec svc start env r)
  report_inventory_once start env (ok u) = emit_result_once env.id success start
  report_inventory_once start env (err e) = emit_result_once env.id (failure e) start

  with_result_once :
      (env : Envelope) (body : Act (Link S) (Unit {0}))
      → IsQuiet env.id body
      → AnswersOnce env.id (with_result codec svc env body)
  unfolding now
  with_result_once env body q = record {
    once = λ l h.
        let l1 = (now l).1 in
        (report_once l.clock env (body l1).0).once (body l1).1 (q.works l1 h)
        ∙ ap suc (q.kept l1 h);
  }

  run_inventory_once : (env : Envelope) → AnswersOnce env.id (run_inventory_refresh codec svc env)
  unfolding run_inventory_refresh now
  run_inventory_once env = record {
    once = λ l h.
        let l1 = (now l).1 in
        let q = inventory-IsQuiet env in
        (report_inventory_once l.clock env (inventory_body codec svc env l1).0).once
          (inventory_body codec svc env l1).1 (q.works l1 h)
        ∙ ap suc (q.kept l1 h);
  }

  abbrev run_found : String → Envelope → Option (Handler S) → Act (Link S) (Unit {0})
  run_found kind env found = run_handler codec.decode_command codec.encode_result found kind env

  unsupported_once : (kind : String) (env : Envelope) → AnswersOnce env.id (run_found kind env none)
  unfolding make_envelope send
  unsupported_once kind env = record {
    once = λ l h. rw (total.encodes (unsupported kind)) (ground (arith, eqb_iff env.id env.id));
  }

  pick_once :
      (kind : String) (env : Envelope) (b : Bool) (h : Handler S) (rest : Option (Handler S))
      → AnswersOnce env.id (h env)
      → AnswersOnce env.id (run_found kind env rest)
      → AnswersOnce env.id (run_found kind env (if b then some h else rest))
  pick_once kind env true h rest mine other = mine
  pick_once kind env false h rest mine other = other

  light_handlers_once :
      (kind : String) (env : Envelope)
      → AnswersOnce env.id (run_found kind env (find kind (light_handlers codec svc)))
  unfolding light_handlers find run_start_solarbeam run_stop_solarbeam run_solarbeam_engine_update
      run_self_update run_show_notification
  light_handlers_once kind env =
      let once =
        λ (body : Act (Link S) (Unit {0})) (q : IsQuiet env.id body). with_result_once env body q in
      pick_once kind env (kind == cmd_inventory_refresh) _ _ (run_inventory_once env) (
        pick_once kind env (kind == cmd_start_solarbeam) _ _ (once _ (start-IsQuiet env)) (
          pick_once kind env (kind == cmd_stop_solarbeam) _ _ (once _ (stop-IsQuiet env)) (
            pick_once kind env (kind == cmd_solarbeam_engine_update) _ _
              (once _ (engine_update-IsQuiet env))
              (pick_once kind env (kind == cmd_update) _ _ (once _ (self_update-IsQuiet env)) (
                pick_once kind env (kind == cmd_show_notification) _ _
                  (once _ (notification-IsQuiet env)) (unsupported_once kind env))))))

  -- On a connection that works, every command that can be decoded, of any kind and with any
  -- arguments, is answered by exactly one result that names it.
  pub light_dispatch_once :
      (env : Envelope) (l : Link S)
      → l.failures ≡ []
      → (cmd : CommandData) → decode_data env codec.decode_command ≡ ok cmd
      → replies env.id (light_dispatch codec svc env l).1 ≡ suc (replies env.id l)
  unfolding light_dispatch dispatch
  light_dispatch_once env l h cmd d = rw d ((light_handlers_once cmd.kind env).once l h)
