-- ===== src/Control/Client/Handshake/Token.antt =====
-- When a client gives its token away.
use lan_commander.Base.{
  ◌≡◌, refl, sym, subst, Bool, true, false, Option, none, some, List, [], ◌∷◌, ◌++◌, ◌⊎◌, inl, inr,
  if◌then◌else◌, Bool-cases,
}
use lan_commander.Base.Exec.{Result, pure, raise}
use lan_commander.Base.Text.{Text, is_empty}
use lan_commander.Control.Client.Protocol.{
  MessageType, Message, msg_agent_info, msg_auth_required, msg_auth_ok, msg_error,
  msg_system_update, other_type,
}
use lan_commander.Control.Client.Handshake.{
  Conn, HandshakeError, verdict, decided, await_verdict, read_verdict, send_credentials,
  authenticate, answer, read_json, handshake,
}
use lan_commander.Control.Client.Handshake.Exchange.{
  left, authenticate_sent, silent, Mute-sent, no_deadline_sent, handshake_next,
}

module _ {Json : Type 0} where
  abbrev pub Asked : Text → List (Option (Message Json)) → Type 0
  Asked token incoming =
      (m : Message Json) × (ms : List (Option (Message Json))) × (incoming ≡ some m ∷ ms)
      × (m.kind ≡ msg_auth_required)
      × (is_empty token ≡ false)

  -- Whatever the agent delivers, and whatever fails, the token is written once at most, and only to an
  -- agent whose first message asks for credentials.
  pub token_on_demand :
      (token : Text) (c : Conn Json)
      → ((handshake token c).1.sent ≡ c.sent)
        ⊎ (((handshake token c).1.sent ≡ c.sent ++ token ∷ []) × Asked token c.incoming)
  unfolding pure raise
  token_on_demand token c = on_deadline (Bool-cases c.takes_deadline)
    where
      Kept : Conn Json → Type 0
      Kept c' = (c'.sent ≡ c.sent) ⊎ ((c'.sent ≡ c.sent ++ token ∷ []) × Asked token c.incoming)

      asked :
          (m : Message Json) (ms : List (Option (Message Json)))
          → c.incoming ≡ some m ∷ ms
          → m.kind ≡ msg_auth_required
          → is_empty token ≡ false
          → (b : Bool) → c.takes_writes ≡ b
          → Kept (authenticate token (left ms c)).1
      asked m ms e k f true w = inr (authenticate_sent token (left ms c) w, (m, ms, e, k, f))
      asked m ms e k f false w = inl (silent token (left ms c) w)

      on_greeting :
          (m : Message Json) (ms : List (Option (Message Json))) (k : MessageType) (b : Bool)
          → c.incoming ≡ some m ∷ ms
          → m.kind ≡ k
          → is_empty token ≡ b
          → Kept (answer k token (left ms c)).1
      on_greeting m ms msg_agent_info b i e f = inl refl
      on_greeting m ms msg_auth_required b i e f =
          subst
            (λ (x : Bool).
              Kept
                ((if x
                    then raise lan_commander.Control.Client.Handshake.auth_required
                    else authenticate token)
                  (left ms c)).1)
            (sym f) (tried b f)
        where
          tried :
              (b : Bool)
              → is_empty token ≡ b
              → Kept
                  ((if b
                      then raise lan_commander.Control.Client.Handshake.auth_required
                      else authenticate token)
                    (left ms c)).1
          tried true f = inl refl
          tried false f = asked m ms i e f c.takes_writes refl
      on_greeting m ms msg_auth_ok b i e f = inl refl
      on_greeting m ms msg_error b i e f = inl refl
      on_greeting m ms msg_system_update b i e f = inl refl
      on_greeting m ms other_type b i e f = inl refl

      read :
          c.takes_deadline ≡ true
          → (i : List (Option (Message Json))) → c.incoming ≡ i
          → Kept (handshake token c).1
      read d [] e = inl (Mute-sent token c [] e tt)
      read d (none ∷ ms) e = inl (Mute-sent token c (none ∷ ms) e tt)
      read d (some m ∷ ms) e =
          subst (λ (o : Result HandshakeError (Unit {0}) × Conn Json). Kept o.1)
            (sym (handshake_next token c m ms d e))
            (on_greeting m ms m.kind (is_empty token) e refl refl)

      on_deadline :
          (c.takes_deadline ≡ true) ⊎ (c.takes_deadline ≡ false) → Kept (handshake token c).1
      on_deadline (inl d) = read d c.incoming refl
      on_deadline (inr d) = inl (no_deadline_sent token c d)
