-- ===== src/Control/Transfer/Download/Arrival.antt =====
-- A download that returned, from an agent whose chunks are pieces of one file.
use lan_commander.Base.{
  ℕ, zero, suc, ◌+◌, ◌≤◌, ◌≡◌, ◌≢◌, refl, sym, ap, subst, ◌∙◌, Bool, true, false, none, some, [],
  ◌++◌, if◌then◌else◌, length, length-append, arith, nat_eq,
}
use lan_commander.Base.Int.{ℤ, pos, negsuc, leb_ℤ, ◌+64◌, +64_exact, max_int64}
use lan_commander.Base.Exec.{ok, raise, ◌>>◌, refuse_if}
use lan_commander.Base.Exec.Outcome.{ok_bind, ok_must, ok_refuse_if}
use lan_commander.Base.Text.{Text}
use lan_commander.Os.Disk.{Bytes, Disk, file, flush}
use lan_commander.Os.Disk.Frame.{Keeps-flush}
use lan_commander.Os.Disk.Effect.{Begins, kept, write_at_ok, rename_ok, open_create_ok}
use lan_commander.Agent.Files.Upload.Bounds.{splice_end}
use lan_commander.Control.Transfer.{
  Chunk, Requester, World, Transfer, default_chunk_size, nothing, bad_local_path, final_too_late,
}
use lan_commander.Control.Transfer.Steps.{
  local_inv, remotely_inv, check_ctx_inv, present_inv, validate_request_same, all_there, goes_on,
}
use lan_commander.Control.Transfer.Download.Steps.{check_chunk_same, check_final_ok, or_remove_ok}
use lan_commander.Control.Transfer.Download.{
  Local, check_final, fetch, receive_file, download_to, download,
}

module _ {S : Type 0} (l : Local) (requester : Requester S) where
  -- The requests answer with what follows the offset, none of it perhaps, while the agent's state is one
  -- of a set `Q`.
  module _ (b : Bytes) (remote part : Text) (small : length b ≤ max_int64) (Q : S → Type 0)
      (honest : (o : ℕ) (s t : S) (c : Chunk)
        → Q s
        → requester.get_file remote (pos o) default_chunk_size s ≡ (ok (some c), t)
        → Begins b o c.content × (c.total_size ≡ pos (length b)) × Q t) where
    abbrev Got : World S → Type 0
    Got v = (v.disk.files part ≡ some (file b)) × Q v.remote

    finish :
        (final : Bool) (seen rest : Bytes) (n : ℕ) (c : Chunk) (go_on : Transfer S (Unit {0}))
        (w v : World S)
        → n ≡ length seen
        → b ≡ seen ++ rest
        → c.total_size ≡ pos (length b)
        → w.disk.files part ≡ some (file seen)
        → Q w.remote
        → ((u : World S)
            → u.disk.files part ≡ some (file seen)
            → Q u.remote
            → go_on u ≡ (ok tt, v)
            → Got v)
        → (if final
              then check_final l requester part (pos n) c
              else (refuse_if (leb_ℤ c.total_size (pos n)) nothing final_too_late >> go_on))
            w
          ≡ (ok tt, v)
        → Got v
    finish true seen rest n c go_on w v at split size here q again h =
        let (ended, files, remote_same) =
          check_final_ok l requester part part n (length b) c w v size h in
        (
          files
              ∙ here
              ∙ ap (λ (x : Bytes). some (file x)) (all_there b seen rest split (sym at ∙ ended)),
          subst Q (sym remote_same) q,
        )
    finish false seen rest n c go_on w v at split size here q again h =
        let (_, w1, e1, h1) = ok_bind _ _ w h in
        let (_, same) = ok_refuse_if _ _ _ w e1 in
        again w1 (ap (λ (x : World S). x.disk.files part) (sym same) ∙ here)
          (subst (λ (x : World S). Q x.remote) same q) h1

    fetch_arrives :
        (fuel : ℕ) (seen rest : Bytes) (o : ℕ) (total : ℤ) (w v : World S)
        → o ≡ length seen
        → b ≡ seen ++ rest
        → w.disk.files part ≡ some (file seen)
        → Q w.remote
        → fetch l requester fuel remote part o (pos o) total w ≡ (ok tt, v)
        → Got v
    unfolding fetch raise
    fetch_arrives zero seen rest o total w v at split here q h = absurd cc
    fetch_arrives (suc fuel) seen rest o total w v at split here q h =
        let (_, w1, e1, h1) = ok_bind _ _ w h in
        let (disk1, remote1) = check_ctx_inv w w1 e1 in
        let (response, w2, e2, h2) = ok_bind _ _ w1 h1 in
        let (asked, disk2) = remotely_inv _ w1 w2 (ok_must _ _ _ w1 e2) in
        let (c, w3, e3, h3) = ok_bind _ _ w2 h2 in
        let (there, same3) = present_inv response _ w2 w3 e3 in
        let (_, w4, e4, h4) = ok_bind _ _ w3 h3 in
        let same4 = check_chunk_same l requester (pos o) total c w3 w4 e4 in
        let (n, w5, e5, h5) = ok_bind _ _ w4 h4 in
        let (wrote, remote5) = local_inv _ w4 w5 (ok_must _ _ _ w4 e5) in
        let (follows, size, q2) =
          honest o w1.remote w2.remote c (subst Q (sym remote1) q)
            (asked ∙ (λ i. (ok (there i), w2.remote))) in
        let (more, next) = follows in
        let piece = goes_on b o seen rest c.content more at split next in
        let before : w4.disk.files part ≡ some (file seen) =
          ap (λ (x : World S). x.disk.files part) (sym (same3 ∙ same4))
          ∙ ap (λ (d : Disk). d.files part) (disk2 ∙ disk1)
          ∙ here in
        let after : w5.disk.files part ≡ some (file (seen ++ c.content)) =
          write_at_ok part c.content o w4.disk w5.disk seen before wrote
          ∙ ap (λ (x : Bytes). some (file x)) (splice_end seen c.content o (sym at)) in
        let q5 : Q w5.remote =
          subst Q (sym remote5) (subst (λ (x : World S). Q x.remote) (same3 ∙ same4) q2) in
        let reach : o + length c.content ≡ length (seen ++ c.content) =
          omega (arith, at, length-append seen c.content) in
        let exact : pos o +64 pos (length c.content) ≡ pos (o + length c.content) =
          +64_exact o (length c.content) (
            omega (arith, small, reach, ap length piece, length-append (seen ++ c.content) more)) in
        finish c.final (seen ++ c.content) more (o + length c.content) c
          (fetch l requester fuel remote part (o + length c.content) (pos (o + length c.content))
            c.total_size)
          w5 v reach piece size after q5
          (λ u here' q'.
            fetch_arrives fuel (seen ++ c.content) more (o + length c.content) c.total_size u v
              reach piece here' q')
          (subst
            (λ (z : ℤ).
              (if c.final
                  then check_final l requester part z c
                  else (refuse_if (leb_ℤ c.total_size z) nothing final_too_late
                      >> fetch l requester fuel remote part (o + length c.content) z c.total_size))
                w5
              ≡ (ok tt, v))
            exact h5)

    receive_file_taken :
        (fuel : ℕ) (destination : Text) (w v : World S)
        → part ≢ destination
        → w.disk.files part ≡ some (file [])
        → Q w.remote
        → receive_file l requester fuel remote part destination w ≡ (ok tt, v)
        → (v.disk.files destination ≡ some (file b)) × (v.disk.files part ≡ none) × Q v.remote
    unfolding receive_file
    receive_file_taken fuel destination w v ne here q h =
        let (_, w1, e1, h1) = ok_bind _ _ w h in
        let (got, q1) = fetch_arrives fuel [] b 0 (negsuc 0) w w1 refl refl here q e1 in
        let (_, w2, e2, h2) = ok_bind _ _ w1 h1 in
        let (flushed, remote2) = local_inv flush w1 w2 (ok_must _ _ _ w1 e2) in
        let (_, w3, e3, h3) = ok_bind _ _ w2 h2 in
        let (closed, remote3) = local_inv flush w2 w3 (ok_must _ _ _ w2 e3) in
        let (renamed, remote4) = local_inv _ w3 v (ok_must _ _ _ w3 h3) in
        let still : w3.disk.files part ≡ some (file b) =
          kept (Keeps-flush {q = part}) closed ∙ kept (Keeps-flush {q = part}) flushed ∙ got in
        let (there, gone) = rename_ok part destination w3.disk v.disk ne still renamed in
        (there, gone, subst Q (sym (remote4 ∙ remote3 ∙ remote2)) q1)

  -- From the local path on.
  pub download_taken :
      (b : Bytes) (remote : Text) (Q : S → Type 0) (fuel : ℕ) (agent path destination : Text)
      (w v : World S)
      → length b ≤ max_int64
      → ((o : ℕ) (s t : S) (c : Chunk)
          → Q s
          → requester.get_file remote (pos o) default_chunk_size s ≡ (ok (some c), t)
          → Begins b o c.content × (c.total_size ≡ pos (length b)) × Q t)
      → l.absolute path ≡ some destination
      → l.temp_name destination ≢ destination
      → Q w.remote
      → download l requester fuel agent remote path w ≡ (ok tt, v)
      → (v.disk.files destination ≡ some (file b))
        × (v.disk.files (l.temp_name destination) ≡ none)
        × Q v.remote
  unfolding download download_to
  download_taken b remote Q fuel agent path destination w v small honest resolves ne q h =
      let (_, w1, e1, h1) = ok_bind _ _ w h in
      let same1 = validate_request_same agent remote path w w1 e1 in
      let (found, w2, e2, h2) = ok_bind _ _ w1 h1 in
      let resolved : (l.absolute path ≡ some found) × (w1 ≡ w2) =
        present_inv (l.absolute path) bad_local_path w1 w2 e2 in
      let (abs, same2) = resolved in
      let target : found ≡ destination = cc (sym abs ∙ resolves) in
      let (_, w3, e3, h3) = ok_bind _ _ w2 h2 in
      let (_, remote3) = local_inv _ w2 w3 (ok_must _ _ _ w2 e3) in
      let (_, w4, e4, h4) = ok_bind _ _ w3 h3 in
      let (_, same4) = ok_refuse_if _ _ _ w3 e4 in
      let (_, w5, e5, h5) = ok_bind _ _ w4 h4 in
      let (made, remote5) = local_inv _ w4 w5 (ok_must _ _ _ w4 e5) in
      let q5 : Q w5.remote = subst Q (sym remote5) (
        subst (λ (x : World S). Q x.remote) same4
          (subst Q (sym remote3) (subst (λ (x : World S). Q x.remote) (same1 ∙ same2) q))) in
      subst
        (λ (x : Text).
          l.temp_name x ≢ x
          → (v.disk.files x ≡ some (file b)) × (v.disk.files (l.temp_name x) ≡ none) × Q v.remote)
        target
        (λ ne'.
          receive_file_taken b remote (l.temp_name found) small Q honest fuel found w5 v ne'
            (open_create_ok (l.temp_name found) w4.disk w5.disk made) q5
            (or_remove_ok l requester (l.temp_name found) _ w5 v h5))
        ne
