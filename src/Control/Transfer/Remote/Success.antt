-- ===== src/Control/Transfer/Remote/Success.antt =====
-- An upload by both programs together, where neither's system refuses anything.
use lan_commander.Base.{
  ◌≡◌, refl, ap, ◌∙◌, true, false, none, some, [], if◌then◌else◌, ◌∷◌, arith, nat_eq, ◌||◌,
  Bool-cases, inl, inr,
}
use lan_commander.Base.Int.{pos}
use lan_commander.Base.Exec.{ok}
use lan_commander.Base.Text.{Text, is_empty}
use lan_commander.Os.Disk.{Files, Disk, calm_disk}
use lan_commander.Agent.Files.Upload.{eq_ℤ, write_atomic_upload_chunk}
use lan_commander.Agent.Server.{
  Session, Client, Reply, file_ack, with_disk, send_response, send_msg, record_event,
}
use lan_commander.Agent.Server.Handlers.{Env, send_file_reply}
use lan_commander.Control.Transfer.{SendFile}
use lan_commander.Control.Transfer.Upload.Chunk.{acknowledged}
use lan_commander.Control.Transfer.Remote.{
  Link, received, answer, awaiting, remote_send, written, handled, reply-disk,
}

-- A session of an authenticated operator, on a disk that refuses nothing.
pub record Serving (s : Session) (files : Files) : Type 0 where
  pub on_disk : s.disk ≡ calm_disk files
  pub authed : s.client.authed ≡ true
  pub opened : s.client.closed ≡ false

-- A reply into an empty queue is all that is in it.
pub queue_ok :
    (r : Reply) (c : Client)
    → c.send ≡ []
    → c.closed ≡ false
    → ((send_msg r c).send ≡ r ∷ [])
      × ((send_msg r c).authed ≡ c.authed)
      × ((send_msg r c).closed ≡ false)
unfolding send_msg
queue_ok r c waits opened = (ground arith, ground arith, ground arith)

-- The reply to a chunk that was stored.
module _ {Json : Type 0} (env : Env Json) (id : Text) (p : SendFile) (s : Session)
    (atomic : is_empty p.transfer_id ≡ false) (waits : s.client.send ≡ [])
    (opened : s.client.closed ≡ false) where
  abbrev replied : Session
  replied = send_file_reply env id (received p) (ok tt) s

  abbrev reply : Reply
  reply = record {
    id = id;
    body = file_ack (record {
      path = p.path;
      offset = p.offset;
      final = p.final;
      committed = if is_empty p.transfer_id then none else some p.final;
    });
  }

  replied_client : replied.client ≡ send_msg reply s.client
  unfolding send_response record_event
  replied_client = elim (Bool-cases (eq_ℤ p.offset (pos 0) || p.final)) [
    | inl e ↦ rw e refl
    | inr e ↦ rw e refl
  ]

  reply_acks :
      (answer replied.client.send ≡ ok (some (acknowledged p)))
      × (replied.client.authed ≡ s.client.authed)
      × (replied.client.closed ≡ false)
  reply_acks =
      let (heard, authed, open') = queue_ok reply s.client waits opened in
      (
        ap (λ (c : Client). answer c.send) replied_client ∙ ap answer heard ∙ (λ i. ok (
            some (record {
              path = p.path;
              offset = p.offset;
              final = p.final;
              committed = if atomic i then none else some p.final;
            }))),
        ap (λ (c : Client). c.authed) replied_client ∙ authed,
        ap (λ (c : Client). c.closed) replied_client ∙ open',
      )

module _ {Json : Type 0} (l : Link Json)
    (decodes : (p : SendFile) → l.env.as_send_file (l.encode p) ≡ some (received p))
    (idle : (s : Session)
      → ((l.meanwhile s).disk ≡ s.disk)
        × ((l.meanwhile s).client.authed ≡ s.client.authed)
        × ((l.meanwhile s).client.closed ≡ s.client.closed)) where
  -- A chunk that the agent stores is acknowledged.
  pub remote_send_calm :
      (p : SendFile) (s : Session) (files g : Files)
      → is_empty p.transfer_id ≡ false
      → Serving s files
      → write_atomic_upload_chunk l.env.host p.path p.transfer_id p.content p.offset p.total_size
          p.final p.checksum
          (calm_disk files)
        ≡ (ok tt, calm_disk g)
      → (t : Session) × (remote_send l p s ≡ (ok (some (acknowledged p)), t)) × Serving t g
  unfolding remote_send
  remote_send_calm p s files g atomic serving stored =
      let (disk, authed, closed) = idle s in
      let run : written l decodes p s ≡ (ok tt, calm_disk g) =
        ap
          (λ (d : Disk).
            write_atomic_upload_chunk l.env.host p.path p.transfer_id p.content p.offset
              p.total_size p.final p.checksum d)
          (disk ∙ serving.on_disk)
        ∙ stored in
      let s' = with_disk (calm_disk g) (awaiting l s) in
      let t = send_file_reply l.env l.msg_id (received p) (ok tt) s' in
      let same = handled l decodes p s atomic (authed ∙ serving.authed) ∙ (λ i.
        send_file_reply l.env l.msg_id (received p) (run i).0
          (with_disk (run i).1 (awaiting l s))) in
      let (heard, authed', closed') =
        reply_acks l.env l.msg_id p s' atomic refl (closed ∙ serving.opened) in
      (
        t,
        (λ i. (answer (same i).client.send, same i)) ∙ (λ i. (heard i, t)),
        record {
          on_disk = reply-disk l.env l.msg_id (received p) (ok tt) s';
          authed = authed' ∙ authed ∙ serving.authed;
          opened = closed';
        },
      )
