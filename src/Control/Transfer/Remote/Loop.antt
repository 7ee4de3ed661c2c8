-- ===== src/Control/Transfer/Remote/Loop.antt =====
-- The loop of an upload that returned, sending to the agent.
use lan_commander.Base.{
  ℕ, zero, suc, ◌+◌, ◌≤◌, ◌≡◌, ◌≢◌, refl, sym, ap, subst, ◌∙◌, Bool, true, false, none, some, [],
  ◌∷◌, ◌++◌, if◌then◌else◌, length, length-append, drop, arith, ◌==◌, ==_iff, nat_eq,
}
use lan_commander.Base.Int.{max_int64}
use lan_commander.Base.Exec.{ok, pure, raise, ◌>>◌}
use lan_commander.Base.Exec.Outcome.{ok_bind, ok_must}
use lan_commander.Base.Text.{Text, is_empty}
use lan_commander.Os.Disk.{Bytes, Files, file, Disk}
use lan_commander.Os.Disk.Effect.{read_ok}
use lan_commander.Agent.Files.SafePath.{safe_path}
use lan_commander.Agent.Files.Upload.{temp_path, meta_path}
use lan_commander.Agent.Files.Upload.Commit.{Delivered}
use lan_commander.Agent.Server.{Session}
use lan_commander.Control.Transfer.{source_ended, SendFile, World, check_ctx}
use lan_commander.Control.Transfer.Upload.{
  Sending, payload, source_end, send_all, tagged, send_upload_chunk,
}
use lan_commander.Control.Transfer.Steps.{local_inv, check_ctx_inv, all_there, goes_on}
use lan_commander.Control.Transfer.Upload.Steps.{ok_tagged}
use lan_commander.Control.Transfer.Remote.{Link, received, agent}
use lan_commander.Control.Transfer.Remote.Chunks.{Held, Held-file, next, chunk_ok}

is_nil : (x : Bytes) → length x ≡ 0 → x ≡ []
is_nil [] e = refl
is_nil (b ∷ bs) e = absurd (omega arith)

module _ {Json : Type 0} (l : Link Json) (digest : Bytes → Text) (remote id safe : Text)
    (decodes : (p : SendFile) → l.env.as_send_file (l.encode p) ≡ some (received p))
    (quiet : (s : Session)
      → (l.meanwhile s).disk.files (temp_path safe id) ≡ s.disk.files (temp_path safe id))
    (atomic : is_empty id ≡ false) (there : safe_path l.env.host.cwd remote ≡ ok safe)
    (ts : temp_path safe id ≢ safe) (ms : safe ≢ meta_path safe id)
    (own : safe_path l.env.host.cwd (temp_path safe id) ≡ ok (temp_path safe id)) where
  abbrev temp : Text
  temp = temp_path safe id

  module _ (source : Text) (b : Bytes) (small : length b ≤ max_int64) where
    -- The destination holds the source, and the temporary file is gone.
    abbrev pub Arrived : World Session → Type 0
    Arrived v =
        (v.remote.disk.files safe ≡ some (file b))
        × (v.remote.disk.files temp ≡ none)
        × (v.disk.files source ≡ some (file b))

    -- The final chunk has arrived, or the rest of the loop is to come.
    finish :
        (f : Bool) (x rest : Bytes) (sum : Text) (go_on : Sending Session) (u v : World Session)
        → b ≡ x ++ rest
        → (f ≡ true → length x ≡ length b)
        → u.disk.files source ≡ some (file b)
        → ((u : World Session)
            → u.disk.files source ≡ some (file b)
            → Held x (u.remote.disk.files temp)
            → go_on u ≡ (ok tt, v)
            → Arrived v)
        → Delivered l.env.host temp safe f x sum u.remote.disk
        → (if f then pure tt else go_on) u ≡ (ok tt, v)
        → Arrived v
    unfolding pure
    finish true x rest sum go_on u v split whole src again ((there', gone), _) h =
        let same : u ≡ v = cc h in
        subst Arrived same (
          there' ∙ ap (λ (y : Bytes). some (file y)) (all_there b x rest split (whole refl)),
          gone,
          src,
        )
    finish false x rest sum go_on u v split whole src again out h =
        again u src (Held-file x _ out) h

    chunk_arrives :
        (seen chunk rest : Bytes) (go_on : Sending Session) (w v : World Session)
        → b ≡ (seen ++ chunk) ++ rest
        → w.disk.files source ≡ some (file b)
        → Held seen (w.remote.disk.files temp)
        → ((u : World Session)
            → u.disk.files source ≡ some (file b)
            → Held (seen ++ chunk) (u.remote.disk.files temp)
            → go_on u ≡ (ok tt, v)
            → Arrived v)
        → (tagged true
                (send_upload_chunk digest (agent l) (next l digest remote id (length b) seen chunk))
              >> (if length seen + length chunk == length b then pure tt else go_on))
            w
          ≡ (ok tt, v)
        → Arrived v
    chunk_arrives seen chunk rest go_on w v split src held again h =
        let (_, u, e, h1) = ok_bind _ _ w h in
        let (disk, out) =
          chunk_ok l digest remote id safe decodes quiet atomic there ts ms own (length b) seen
            chunk w u small
            (omega (
              arith,
              ap length split,
              length-append (seen ++ chunk) rest,
              length-append seen chunk,
            ))
            held (ok_tagged true _ w e) in
        finish _ (seen ++ chunk) rest _ go_on u v split
          (λ f. length-append seen chunk ∙ (==_iff (length seen + length chunk) (length b)).0 f)
          (ap (λ (d : Disk). d.files source) disk ∙ src) again out h1

    empty_arrives :
        (w v : World Session)
        → length b ≡ 0
        → w.disk.files source ≡ some (file b)
        → tagged true
            (send_upload_chunk digest (agent l) (payload digest (agent l) remote id 0 0 [] []))
            w
          ≡ (ok tt, v)
        → Arrived v
    unfolding nat_eq
    empty_arrives w v e src h =
        let (disk, out) =
          chunk_ok l digest remote id safe decodes quiet atomic there ts ms own 0 [] [] w v
            (omega arith) (omega arith) tt (ok_tagged true _ w h) in
        (
          out.0.0 ∙ ap (λ (x : Bytes). some (file x)) (sym (is_nil b e)),
          out.0.1,
          ap (λ (d : Disk). d.files source) disk ∙ src,
        )

    -- The end of the source: only an empty one has been sent by then.
    end_arrives :
        (seen rest : Bytes) (sent : Bool) (w v : World Session)
        → b ≡ seen ++ rest
        → w.disk.files source ≡ some (file b)
        → source_end digest (agent l) remote id (length b) sent seen w ≡ (ok tt, v)
        → Arrived v
    unfolding source_end raise nat_eq
    end_arrives seen rest sent w v split src h = go (length b == 0) refl h
      where
        go :
            (t : Bool)
            → (length b == 0) ≡ t
            → (if t
                  then tagged true (
                      send_upload_chunk digest
                        (agent l)
                        (payload digest (agent l) remote id 0 0 [] seen))
                  else raise (sent, source_ended))
                w
              ≡ (ok tt, v)
            → Arrived v
        go true e q =
            let none_left : length b ≡ 0 = (==_iff (length b) 0).0 e in
            let nothing_seen : seen ≡ [] =
              is_nil seen (omega (arith, none_left, ap length split, length-append seen rest)) in
            empty_arrives w v none_left src (
              subst
                (λ (x : Bytes).
                  tagged true
                    (send_upload_chunk digest (agent l)
                      (payload digest (agent l) remote id 0 0 [] x))
                    w
                  ≡ (ok tt, v))
                nothing_seen q)
        go false e q = absurd cc

    after_read :
        (o : ℕ) (seen rest c more : Bytes) (go_on : Sending Session) (sent : Bool)
        (w v : World Session)
        → o ≡ length seen
        → b ≡ seen ++ rest
        → drop o b ≡ c ++ more
        → w.disk.files source ≡ some (file b)
        → Held seen (w.remote.disk.files temp)
        → ((u : World Session)
            → u.disk.files source ≡ some (file b)
            → Held (seen ++ c) (u.remote.disk.files temp)
            → go_on u ≡ (ok tt, v)
            → Arrived v)
        → (if is_empty c
              then source_end digest (agent l) remote id (length b) sent seen
              else (tagged true (
                    send_upload_chunk digest
                      (agent l)
                      (payload digest (agent l) remote id (length b) o c (seen ++ c)))
                  >> (if o + length c == length b then pure tt else go_on)))
            w
          ≡ (ok tt, v)
        → Arrived v
    after_read o seen rest [] more go_on sent w v at split follows src held again h =
        end_arrives seen rest sent w v split src h
    after_read o seen rest (x ∷ xs) more go_on sent w v at split follows src held again h =
        chunk_arrives seen (x ∷ xs) more go_on w v
          (goes_on b o seen rest (x ∷ xs) more at split follows) src held again
          (subst
            (λ (n : ℕ).
              (tagged true (
                    send_upload_chunk digest (agent l)
                      (payload digest (agent l) remote id (length b) n (x ∷ xs) (seen ++ (x ∷ xs))))
                  >> (if n + length (x ∷ xs) == length b then pure tt else go_on))
                w
              ≡ (ok tt, v))
            at h)

    -- The loop, from any point on.
    pub loop_arrives :
        (fuel : ℕ) (sent : Bool) (seen rest : Bytes) (o : ℕ) (w v : World Session)
        → o ≡ length seen
        → b ≡ seen ++ rest
        → w.disk.files source ≡ some (file b)
        → Held seen (w.remote.disk.files temp)
        → send_all digest (agent l) fuel source remote id (length b) sent o seen w ≡ (ok tt, v)
        → Arrived v
    unfolding send_all raise
    loop_arrives zero sent seen rest o w v at split src held h = absurd cc
    loop_arrives (suc fuel) sent seen rest o w v at split src held h =
        let (_, w1, e1, h1) = ok_bind _ _ w h in
        let (disk1, remote1) = check_ctx_inv w w1 (ok_tagged sent check_ctx w e1) in
        let (c, w2, e2, h2) = ok_bind _ _ w1 h1 in
        let (run, remote2) = local_inv _ w1 w2 (ok_must _ _ _ w1 (ok_tagged sent _ w1 e2)) in
        let (files2, (more, follows)) =
          read_ok source o _ w1.disk w2.disk b c (ap (λ (d : Disk). d.files source) disk1 ∙ src)
            run in
        after_read o seen rest c more
          (send_all digest (agent l) fuel source remote id (length b) true (o + length c)
            (seen ++ c))
          sent w2 v at split follows
          (ap (λ (f : Files). f source) files2 ∙ ap (λ (d : Disk). d.files source) disk1 ∙ src)
          (subst (λ (x : Session). Held seen (x.disk.files temp)) (sym (remote2 ∙ remote1)) held)
          (λ u src'' held''.
            loop_arrives fuel true (seen ++ c) more (o + length c) u v
              (omega (arith, at, length-append seen c))
              (goes_on b o seen rest c more at split follows) src'' held'')
          h2
