-- ===== src/Control/Client/Handshake/Exchange.antt =====
-- Which exchanges let a client in, and when it gives its token away.
use lan_commander.Base.{
  ◌≡◌, ◌≢◌, refl, sym, ap, ◌∙◌, ◌↔◌, Bool, true, false, Option, none, some, List, [], ◌∷◌, ◌++◌,
  if◌then◌else◌, arith,
}
use lan_commander.Base.Exec.{Result, ok, pure, raise, ◌>>=◌}
use lan_commander.Base.Text.{Text, is_empty}
use lan_commander.Control.Client.Protocol.{
  MessageType, Message, msg_agent_info, msg_auth_required, msg_auth_ok, msg_error,
  msg_system_update, other_type,
}
use lan_commander.Control.Client.Handshake.{
  Conn, HandshakeError, verdict, decided, await_verdict, read_verdict, send_credentials,
  authenticate, answer, read_json, handshake,
}

module _ {Json : Type 0} where
  -- The answers that let a client in: it is told that its token is right, perhaps after the agent
  -- has described itself.
  pub data LetIn : List (Option (Message Json)) → Type 0 where
    accepted :
        (m : Message Json) (ms : List (Option (Message Json)))
        → m.kind ≡ msg_auth_ok
        → LetIn (some m ∷ ms)
    informed :
        (m : Message Json) (ms : List (Option (Message Json)))
        → m.kind ≡ msg_agent_info
        → LetIn ms
        → LetIn (some m ∷ ms)

  -- What an agent delivers to a client that it lets in, and the tokens that the client sends it.
  pub data Exchange (token : Text) : List (Option (Message Json)) → List Text → Type 0 where
    anonymous :
        (m : Message Json) (ms : List (Option (Message Json)))
        → m.kind ≡ msg_agent_info
        → Exchange token (some m ∷ ms) []
    authenticated :
        (m : Message Json) (ms : List (Option (Message Json)))
        → m.kind ≡ msg_auth_required
        → is_empty token ≡ false
        → LetIn ms
        → Exchange token (some m ∷ ms) (token ∷ [])

  await_ok : (ms : List (Option (Message Json))) → (await_verdict ms).0 ≡ ok tt → LetIn ms
  unfolding await_verdict
  await_ok [] h = absurd cc
  await_ok (none ∷ ms) h = absurd cc
  await_ok (some m ∷ ms) h = go m.kind refl (await_ok ms) h
    where
      go :
          (k : MessageType)
          → m.kind ≡ k
          → ((await_verdict ms).0 ≡ ok tt → LetIn ms)
          → (decided (verdict k m.error) ms (await_verdict ms)).0 ≡ ok tt
          → LetIn (some m ∷ ms)
      go msg_agent_info e ih h = informed m ms e (ih h)
      go msg_auth_ok e ih h = accepted m ms e
      go msg_auth_required e ih h = absurd cc
      go msg_error e ih h = absurd cc
      go msg_system_update e ih h = absurd cc
      go other_type e ih h = absurd cc

  ok_await : {ms : List (Option (Message Json))} → LetIn ms → (await_verdict ms).0 ≡ ok tt
  unfolding await_verdict
  ok_await (accepted m ms e) =
      ap (λ (k : MessageType). (decided (verdict k m.error) ms (await_verdict ms)).0) e
  ok_await (informed m ms e l) =
      ap (λ (k : MessageType). (decided (verdict k m.error) ms (await_verdict ms)).0) e ∙ ok_await l

  -- The connection with what is left to deliver.
  abbrev pub left : List (Option (Message Json)) → Conn Json → Conn Json
  left ms c = record c { incoming = ms }

  pub authenticate_sent :
      (token : Text) (c : Conn Json)
      → c.takes_writes ≡ true
      → (authenticate token c).1.sent ≡ c.sent ++ token ∷ []
  unfolding authenticate ◌>>=◌
  authenticate_sent token c w = ground arith

  authenticate_result :
      (token : Text) (c : Conn Json)
      → c.takes_writes ≡ true
      → (authenticate token c).0 ≡ (await_verdict c.incoming).0
  unfolding authenticate ◌>>=◌
  authenticate_result token c w = ground arith

  pub handshake_next :
      (token : Text) (c : Conn Json) (m : Message Json) (ms : List (Option (Message Json)))
      → c.takes_deadline ≡ true
      → c.incoming ≡ some m ∷ ms
      → handshake token c ≡ answer m.kind token (left ms c)
  unfolding handshake ◌>>=◌
  handshake_next token c m ms d e = ground arith

  pub silent :
      (token : Text) (c : Conn Json)
      → c.takes_writes ≡ false
      → (authenticate token c).1.sent ≡ c.sent
  unfolding authenticate ◌>>=◌
  silent token c w = ground arith

  -- Without a first message there is no greeting.
  abbrev pub Mute : List (Option (Message Json)) → Type 0
  Mute [] = Unit {0}
  Mute (none ∷ ms) = Unit {0}
  Mute (some m ∷ ms) = ⊥

  Mute-fails :
      (token : Text) (c : Conn Json) (i : List (Option (Message Json)))
      → c.incoming ≡ i
      → Mute i
      → (handshake token c).0 ≢ ok tt
  unfolding handshake ◌>>=◌
  Mute-fails token c [] e m h = ground arith
  Mute-fails token c (none ∷ ms) e m h = ground arith
  Mute-fails token c (some x ∷ ms) e m h = m

  pub Mute-sent :
      (token : Text) (c : Conn Json) (i : List (Option (Message Json)))
      → c.incoming ≡ i
      → Mute i
      → (handshake token c).1.sent ≡ c.sent
  unfolding handshake ◌>>=◌
  Mute-sent token c [] e m = ground arith
  Mute-sent token c (none ∷ ms) e m = ground arith
  Mute-sent token c (some x ∷ ms) e m = absurd m

  pub no_deadline_sent :
      (token : Text) (c : Conn Json)
      → c.takes_deadline ≡ false
      → (handshake token c).1.sent ≡ c.sent
  unfolding handshake ◌>>=◌
  no_deadline_sent token c d = ground arith

  -- Where the connection takes a deadline and what is written, the handshake succeeds exactly if the
  -- agent opens with a description of itself, or asks for credentials, of which there are some, and
  -- accepts them, with nothing else in between than descriptions of itself.
  pub handshake_iff :
      (token : Text) (c : Conn Json)
      → c.takes_deadline ≡ true
      → c.takes_writes ≡ true
      → ((handshake token c).0 ≡ ok tt) ↔ ((t : List Text) × Exchange token c.incoming t)
  unfolding pure raise
  handshake_iff token c d w = (λ h. accept c.incoming refl h, λ x. admit c.incoming x.0 refl x.1)
    where
      on_greeting :
          (m : Message Json) (ms : List (Option (Message Json))) (k : MessageType) (b : Bool)
          → m.kind ≡ k
          → is_empty token ≡ b
          → (answer k token (left ms c)).0 ≡ ok tt
          → (t : List Text) × Exchange token (some m ∷ ms) t
      on_greeting m ms msg_agent_info b e f h = ([], anonymous m ms e)
      on_greeting m ms msg_auth_required true e f h = absurd (ground arith)
      on_greeting m ms msg_auth_required false e f h = (
        token ∷ [],
        authenticated m ms e f (
            await_ok ms (
              sym (authenticate_result token (left ms c) w)
              ∙ ap
                  (λ (x : Bool).
                    ((if x
                        then raise lan_commander.Control.Client.Handshake.auth_required
                        else authenticate token)
                      (left ms c)).0)
                  (sym f)
              ∙ h)),
      )
      on_greeting m ms msg_auth_ok b e f h = absurd cc
      on_greeting m ms msg_error b e f h = absurd cc
      on_greeting m ms msg_system_update b e f h = absurd cc
      on_greeting m ms other_type b e f h = absurd cc

      accept :
          (i : List (Option (Message Json)))
          → c.incoming ≡ i
          → (handshake token c).0 ≡ ok tt
          → (t : List Text) × Exchange token i t
      accept [] e h = absurd (Mute-fails token c [] e tt h)
      accept (none ∷ ms) e h = absurd (Mute-fails token c (none ∷ ms) e tt h)
      accept (some m ∷ ms) e h = on_greeting m ms m.kind (is_empty token) refl refl (
          sym (
            ap (λ (o : Result HandshakeError (Unit {0}) × Conn Json). o.0)
              (handshake_next token c m ms d e))
          ∙ h)

      admit :
          (i : List (Option (Message Json))) (t : List Text)
          → c.incoming ≡ i
          → Exchange token i t
          → (handshake token c).0 ≡ ok tt
      admit i t e (anonymous m ms k) =
          ap (λ (o : Result HandshakeError (Unit {0}) × Conn Json). o.0)
            (handshake_next token c m ms d e)
          ∙ ap (λ (x : MessageType). (answer x token (left ms c)).0) k
      admit i t e (authenticated m ms k f l) =
          ap (λ (o : Result HandshakeError (Unit {0}) × Conn Json). o.0)
            (handshake_next token c m ms d e)
          ∙ ap (λ (x : MessageType). (answer x token (left ms c)).0) k
          ∙ ap
              (λ (x : Bool).
                ((if x
                    then raise lan_commander.Control.Client.Handshake.auth_required
                    else authenticate token)
                  (left ms c)).0)
              f
          ∙ authenticate_result token (left ms c) w
          ∙ ok_await l
