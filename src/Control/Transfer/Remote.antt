-- ===== src/Control/Transfer/Remote.antt =====
-- The agent as the one that a transfer talks to: a request of the operator is a message to the session
-- of agent/internal/server/handlers.go, and its answer is what the session then queues.
pub mod Chunks
pub mod Loop
pub mod Arrival
pub mod Success
pub mod Delivery
pub mod Answers
pub mod Replies
pub mod Fetch
pub mod Taken
pub mod Roundtrip
mod Tests
use lan_commander.Base.{
  ℕ, ◌≡◌, ◌≢◌, refl, sym, ap, subst, ◌∙◌, Bool, true, false, Option, none, some, List, [], ◌∷◌,
  ◌++◌, if◌then◌else◌, ltb, length, arith, Bool-cases, inl, inr, ◌||◌,
}
use lan_commander.Base.Int.{ℤ, pos}
use lan_commander.Base.Exec.{Result, ok, err}
use lan_commander.Base.Text.{Text, is_empty}
use lan_commander.Os.Disk.{Disk}
use lan_commander.Agent.Files.Host.{FileError}
use lan_commander.Agent.Files.Upload.{eq_ℤ, write_atomic_upload_chunk}
use lan_commander.Agent.Server.{
  Client, Session, Reply, Body, Failure, FileAck, error_body, file_ack, file_chunk,
  authentication_required, with_client, with_disk, send_msg, send_error, send_response,
  record_event,
}
use lan_commander.Agent.Server.Handlers
use lan_commander.Agent.Server.Handlers.{
  Env, Message, send_file_kind, get_file_kind, cancel_file_kind, decoded, dispatch,
  handle_send_file, handle_kind, handle_message, send_file_reply, store_chunk,
}
use lan_commander.Control.Transfer.{SendFile, Chunk, Ack, Requester}

-- The payload on the agent's side.
abbrev pub received : SendFile → Handlers.SendFile
received p = record {
  path = p.path;
  content = p.content;
  offset = p.offset;
  total_size = p.total_size;
  final = p.final;
  checksum = p.checksum;
  transfer_id = p.transfer_id;
}

-- The send queue after the write pump has emptied it.
abbrev pub drained : Client → Client
drained c = record {
  id = c.id;
  remote = c.remote;
  ip = c.ip;
  ip_tracked = c.ip_tracked;
  user = c.user;
  authed = c.authed;
  auth_attempts = c.auth_attempts;
  send = [];
  closed = c.closed;
}

-- What the request returns: an error that the agent reports is an error, and an answer of another type
-- than file_ack is `none`.
abbrev pub of_body : Body → Result (Unit {0}) (Option Ack)
of_body (file_ack a) =
    ok
      (some (record { path = a.path; offset = a.offset; final = a.final; committed = a.committed }))
of_body (error_body f) = err tt
of_body _ = ok none

-- No answer is a timeout.
abbrev pub answer : List Reply → Result (Unit {0}) (Option Ack)
answer [] = err tt
answer (r ∷ rs) = of_body r.body

-- The same for a chunk of a download. (Its caller does not look at the type, but the agent answers a
-- request for a chunk with a chunk or an error.)
abbrev pub chunk_of_body : Body → Result (Unit {0}) (Option Chunk)
chunk_of_body (file_chunk c) = ok (
    some (record {
      content = c.content;
      offset = c.offset;
      total_size = pos c.total_size;
      final = c.final;
      checksum = c.checksum;
    }))
chunk_of_body (error_body f) = err tt
chunk_of_body _ = ok none

abbrev pub chunk_answer : List Reply → Result (Unit {0}) (Option Chunk)
chunk_answer [] = err tt
chunk_answer (r ∷ rs) = chunk_of_body r.body

-- What passes between the two programs: the message's id and time, and the JSON of a payload. Between
-- two requests the agent may do anything else, for this operator or for others.
pub record Link (Json : Type 0) : Type 0 where
  pub env : Env Json
  pub now : ℕ
  pub msg_id : Text
  pub encode : SendFile → Json
  pub encode_get : Text → ℤ → ℕ → Json
  pub encode_cancel : Text → Text → Json
  pub meanwhile : Session → Session

module _ {Json : Type 0} (l : Link Json) where
  abbrev pub awaiting : Session → Session
  awaiting s = with_client (drained (l.meanwhile s).client) (l.meanwhile s)

  unfoldable pub remote_send : SendFile → Session → Result (Unit {0}) (Option Ack) × Session
  remote_send p s =
      let t =
        handle_message l.env l.now
          (record { id = l.msg_id; kind = send_file_kind; payload = l.encode p }) (awaiting s) in
      (answer t.client.send, t)

  unfoldable pub remote_get : Text → ℤ → ℕ → Session → Result (Unit {0}) (Option Chunk) × Session
  remote_get path offset size s =
      let t =
        handle_message l.env l.now
          (record { id = l.msg_id; kind = get_file_kind; payload = l.encode_get path offset size })
          (awaiting s) in
      (chunk_answer t.client.send, t)

  unfoldable pub remote_cancel : Text → Text → Session → Session
  remote_cancel path id s =
      handle_message l.env l.now
        (record { id = l.msg_id; kind = cancel_file_kind; payload = l.encode_cancel path id })
        (awaiting s)

  abbrev pub agent : Requester Session
  agent = record { get_file = remote_get; send_file = remote_send; cancel_file = remote_cancel }

-- What the agent did with a chunk, and its reply.
module _ {Json : Type 0} (env : Env Json) (id : Text) (p : Handlers.SendFile) where
  reply_ok :
      (r : Result FileError (Unit {0})) (s : Session) {a : Ack}
      → s.client.send ≡ []
      → answer (send_file_reply env id p r s).client.send ≡ ok (some a)
      → r ≡ ok tt
  unfolding send_error send_msg
  reply_ok (err e) s q h = absurd (ground arith)
  reply_ok (ok u) s q h = refl

  pub reply-disk :
      (r : Result FileError (Unit {0})) (s : Session) → (send_file_reply env id p r s).disk ≡ s.disk
  unfolding send_error send_response send_msg record_event
  reply-disk (err e) s = refl
  reply-disk (ok u) s = elim (Bool-cases (eq_ℤ p.offset (pos 0) || p.final)) [
    | inl e ↦ rw e refl
    | inr e ↦ rw e refl
  ]

error_unanswered :
    (id : Text) (f : Failure) (s : Session) {a : Ack}
    → s.client.send ≡ []
    → answer (send_error id f s).client.send ≢ ok (some a)
unfolding send_error send_msg
error_unanswered id f s q = λ h. ground arith

module _ {Json : Type 0} (l : Link Json)
    (decodes : (p : SendFile) → l.env.as_send_file (l.encode p) ≡ some (received p)) where
  abbrev pub message : SendFile → Message Json
  message p = record { id = l.msg_id; kind = send_file_kind; payload = l.encode p }

  abbrev pub written : SendFile → Session → Result FileError (Unit {0}) × Disk
  written p s =
      write_atomic_upload_chunk l.env.host p.path p.transfer_id p.content p.offset p.total_size
        p.final p.checksum (l.meanwhile s).disk

  pub handled :
      (p : SendFile) (s : Session)
      → is_empty p.transfer_id ≡ false
      → (l.meanwhile s).client.authed ≡ true
      → handle_message l.env l.now (message p) (awaiting l s)
        ≡ send_file_reply l.env l.msg_id
            (received p)
            (written p s).0
            (with_disk (written p s).1 (awaiting l s))
  unfolding handle_message handle_kind dispatch handle_send_file store_chunk
  handled p s atomic e = rw (e, decodes p, atomic) refl

  barred :
      (p : SendFile) (s : Session)
      → (l.meanwhile s).client.authed ≡ false
      → handle_message l.env l.now (message p) (awaiting l s)
        ≡ send_error l.msg_id authentication_required (awaiting l s)
  unfolding handle_message handle_kind
  barred p s e = rw e refl

  -- A chunk that is acknowledged was written by the agent, as its files component says.
  pub remote_send_ok :
      (p : SendFile) (s t : Session) {a : Ack}
      → is_empty p.transfer_id ≡ false
      → remote_send l p s ≡ (ok (some a), t)
      → written p s ≡ (ok tt, t.disk)
  unfolding remote_send handle_message handle_kind
  remote_send_ok p s t {a} atomic h = elim (Bool-cases (l.meanwhile s).client.authed) [
    | inl e ↦
        let same = handled p s atomic e in
        let said =
          reply_ok l.env l.msg_id (received p) (written p s).0
            (with_disk (written p s).1 (awaiting l s)) refl
            (subst (λ (x : Session). answer x.client.send ≡ ok (some a)) same
              (ap (λ (x : Result (Unit {0}) (Option Ack) × Session). x.0) h)) in
        let there : (written p s).1 ≡ t.disk =
          sym (
            reply-disk l.env l.msg_id (received p) (written p s).0
              (with_disk (written p s).1 (awaiting l s)))
          ∙ ap (λ (x : Session). x.disk) (sym same)
          ∙ ap (λ (x : Result (Unit {0}) (Option Ack) × Session). x.1.disk) h in
        λ i. (said i, there i)
    | inr e ↦ absurd (
        error_unanswered l.msg_id authentication_required (awaiting l s) refl (
          subst (λ (x : Session). answer x.client.send ≡ ok (some a)) (barred p s e)
            (ap (λ (x : Result (Unit {0}) (Option Ack) × Session). x.0) h)))
  ]
