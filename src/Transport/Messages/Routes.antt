-- ===== src/Transport/Messages/Routes.antt =====
-- Which messages are answered, and which start a handler.
use readyfleet_lightagent.Base.{
  ℕ, String, Bool, true, false, ◌≡◌, ◌≢◌, ◌↔◌, if◌then◌else◌, refl, ap, inl, inr, none, some, [],
  Result, arith, eq_iff, ◌==◌, Bool-cases,
}
use readyfleet_lightagent.Proto.{HelloAckData, msg_ping, msg_pong, msg_command, msg_hello_ack}
use readyfleet_lightagent.Proto.Envelope.{Envelope, new_envelope, decode_data}
use readyfleet_lightagent.Transport.Messages.{
  Config, Codec, command, terminal, screen, Routed, start, reply, logged, dispatch, is_terminal,
  is_screen, greeted, replied,
}

-- The cascade of dispatch, over its tests and its branches.
abbrev cascade :
    Bool → Bool → Bool → Bool → Bool → Routed → Routed → Routed → Routed → Routed → Routed
cascade a b c d e g p q t s =
    if a then g else if b then p else if c then q else if d then t else if e then s else logged

-- The branches other than a ping's do not reply.
cascade-reply :
    (a b c d e : Bool) (g p q t s r : Routed)
    → cascade a b c d e g p q t s ≡ r
    → b ≡ false
    → g ≢ r
    → q ≢ r
    → t ≢ r
    → s ≢ r
    → logged ≢ r
    → ⊥
cascade-reply a b c d e g p q t s r h f kg kq kt ks kl = ground arith

-- The branches other than a command's do not start its handler.
cascade-command :
    (a b c d e : Bool) (g p q t s r : Routed)
    → cascade a b c d e g p q t s ≡ r
    → c ≡ false
    → g ≢ r
    → p ≢ r
    → t ≢ r
    → s ≢ r
    → logged ≢ r
    → ⊥
cascade-command a b c d e g p q t s r h f kg kp kt ks kl = ground arith

module _ (cfg : Config) where
  greeted-reply : (a : Result HelloAckData) (e : Envelope) → greeted cfg a ≢ reply e
  greeted-reply a e h = ground arith

  greeted-command : (a : Result HelloAckData) (e : Envelope) → greeted cfg a ≢ start (command e)
  greeted-command a e h = ground arith

module _ (cfg : Config) (k : Codec) (fresh now : ℕ) (env : Envelope) where
  -- A message is answered on the spot exactly if it is a ping, by a pong that names it.
  pub dispatch_replies :
      ((e : Envelope) × (dispatch cfg k fresh now env ≡ reply e)
        × (e.type ≡ msg_pong)
        × (e.in_reply_to ≡ some env.id))
      ↔ (env.type ≡ msg_ping)
  unfolding dispatch new_envelope
  dispatch_replies = (
    λ (e, h, t, i). elim (Bool-cases (env.type == msg_ping)) [
      | inl p ↦ (eq_iff env.type msg_ping).0 p
      | inr p ↦ absurd (
          cascade-reply (env.type == msg_hello_ack) (env.type == msg_ping) (env.type == msg_command)
            (is_terminal env.type) (is_screen env.type)
            (greeted cfg (decode_data env k.unmarshal_ack))
            (replied (new_envelope fresh now msg_pong 0 (some env.id) none))
            (if cfg.command_handler then start (command env) else logged)
            (if cfg.terminal_handler then start (terminal env) else logged)
            (if cfg.screen_handler then start (screen env) else logged) (reply e) h p
            (greeted-reply cfg (decode_data env k.unmarshal_ack) e) (λ x. ground arith)
            (λ x. ground arith) (λ x. ground arith) (λ x. ground arith))
    ],
    λ p. (
      record {
        id = fresh;
        type = msg_pong;
        in_reply_to = some env.id;
        timestamp = now;
        payload = [];
      },
      ground (arith, (eq_iff env.type msg_ping).1 p, ap (λ (t : String). t == msg_hello_ack) p),
      refl,
      refl,
    ),
  )

  -- A message starts the command handler exactly if it is a command and there is a handler, and then
  -- with itself.
  pub dispatch_starts :
      (e : Envelope)
      → (dispatch cfg k fresh now env ≡ start (command e))
        ↔ ((env.type ≡ msg_command) × (cfg.command_handler ≡ true) × (e ≡ env))
  unfolding dispatch new_envelope decode_data
  dispatch_starts e = (
    λ h. elim (Bool-cases (env.type == msg_command)) [
      | inl p ↦
          let t = (eq_iff env.type msg_command).0 p in
          (
            t,
            ground (
              arith,
              ap (λ (t : String). t == msg_hello_ack) t,
              ap (λ (t : String). t == msg_ping) t,
            ),
            ground (
              arith,
              ap (λ (t : String). t == msg_hello_ack) t,
              ap (λ (t : String). t == msg_ping) t,
            ),
          )
      | inr p ↦ absurd (
          cascade-command (env.type == msg_hello_ack) (env.type == msg_ping)
            (env.type == msg_command) (is_terminal env.type) (is_screen env.type)
            (greeted cfg (decode_data env k.unmarshal_ack))
            (replied (new_envelope fresh now msg_pong 0 (some env.id) none))
            (if cfg.command_handler then start (command env) else logged)
            (if cfg.terminal_handler then start (terminal env) else logged)
            (if cfg.screen_handler then start (screen env) else logged) (start (command e)) h p
            (greeted-command cfg (decode_data env k.unmarshal_ack) e) (λ x. ground arith)
            (λ x. ground arith) (λ x. ground arith) (λ x. ground arith))
    ],
    λ (t, c, s). ground (
      arith,
      (eq_iff env.type msg_command).1 t,
      ap (λ (t : String). t == msg_hello_ack) t,
      ap (λ (t : String). t == msg_ping) t,
    ),
  )
