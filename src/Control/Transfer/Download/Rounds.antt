-- ===== src/Control/Transfer/Download/Rounds.antt =====
-- The loop of a download from an agent that serves a file, in every state of a set `P` that it does
-- not leave.
use lan_commander.Base.{
  ℕ, zero, suc, ◌+◌, ◌-◌, ◌≤◌, ◌<◌, ◌≡◌, ◌≢◌, refl, ap, ◌∙◌, Bool, false, not, some, [],
  if◌then◌else◌, ◌⊎◌, inl, inr, length, leb, take, take_all, length-take, take-append-take-drop,
  arith, list_eq, nat_eq, Bool-cases,
}
use lan_commander.Base.Int.{ℤ, pos, negsuc, leb_ℤ, ◌+64◌, max_int64}
use lan_commander.Base.Exec.{ok, pure, ◌>>◌, refuse_if}
use lan_commander.Base.Exec.Outcome.{bind_ok, must_ok, refuse_if_ok}
use lan_commander.Base.Text.{Text, is_empty, equal_fold_refl}
use lan_commander.Os.Disk.{Bytes, file, Files, put, splice, read_file}
use lan_commander.Os.Disk.Calm.{write_at_calm, read_file_calm}
use lan_commander.Agent.Files.Upload.{eq_ℤ}
use lan_commander.Agent.Files.Upload.Bounds.{splice_end}
use lan_commander.Control.Transfer.{
  Chunk, Requester, default_chunk_size, check_ctx, nothing, final_too_late,
}
use lan_commander.Control.Transfer.Download.{Local, verify_checksum, check_final, fetch}
use lan_commander.Control.Transfer.Download.Served.{
  Due, Due-le, served, calm_world, local_ok, remotely_ok, put_same, put_other, length-served,
  eq_ℤ_refl, chunk_end, check_chunk_ok,
}

module _ {S : Type 0} (l : Local) (requester : Requester S) (b : Bytes)
    (small : length b ≤ max_int64) where
  module _ (remote part : Text) (hashed : is_empty (l.digest b) ≡ false) (P : S → Type 0)
      (answers : (o : ℕ) (s : S)
        → P s
        → Due b o
        → (t : S) × (requester.get_file remote (pos o) default_chunk_size s
            ≡ (ok (some (served l.digest b o)), t))
          × P t) where
    verified :
        (files : Files) (s : S)
        → files part ≡ some (file b)
        → verify_checksum l requester part (l.digest b) (calm_world files s)
          ≡ (ok tt, calm_world files s)
    unfolding verify_checksum
    verified files s e =
        bind_ok _ _ _ _ _ (
          must_ok _ _ _ _ _ _
            (local_ok (read_file part) files files s b (read_file_calm part files b e)))
        ∙ refuse_if_ok _ _ _ _ (ap not (equal_fold_refl (l.digest b)))

    last_ok :
        (files : Files) (s : S) (c : Chunk) (z : ℤ)
        → files part ≡ some (file b)
        → z ≡ pos (length b)
        → c.total_size ≡ pos (length b)
        → c.checksum ≡ l.digest b
        → check_final l requester part z c (calm_world files s) ≡ (ok tt, calm_world files s)
    unfolding check_final
    last_ok files s c z e z_is t_is sum =
        bind_ok _ _ _ _ _ (
          refuse_if_ok _ _ _ _ (
            ap (λ (y : ℤ). not (eq_ℤ y c.total_size)) z_is
            ∙ ap (λ (y : ℤ). not (eq_ℤ (pos (length b)) y)) t_is
            ∙ eq_ℤ_refl (length b)))
        ∙ bind_ok _ _ _ _ _ (refuse_if_ok _ _ _ _ (ap is_empty sum ∙ hashed))
        ∙ ap (λ (y : Text). verify_checksum l requester part y (calm_world files s)) sum
        ∙ verified files s e

    -- The loop up to the test of `Final`.
    fetch_round :
        (fuel o : ℕ) (total : ℤ) (files : Files) (s t : S)
        → requester.get_file remote (pos o) default_chunk_size s
          ≡ (ok (some (served l.digest b o)), t)
        → Due b o
        → (total ≡ negsuc 0) ⊎ (total ≡ pos (length b))
        → files part ≡ some (file (take o b))
        → let c = served l.digest b o in
          let next = pos o +64 pos (length c.content) in
          fetch l requester (suc fuel) remote part o (pos o) total (calm_world files s)
          ≡ (if c.final
                then check_final l requester part next c
                else (refuse_if (leb_ℤ c.total_size next) nothing final_too_late
                    >> fetch l requester fuel remote part (o + length c.content) next c.total_size))
              (calm_world (put files part (file (splice (take o b) o c.content))) t)
    unfolding fetch check_ctx pure
    fetch_round fuel o total files s u got due t e =
        let h = Due-le b o due in
        let c = served l.digest b o in
        bind_ok _ _ _ _ _ refl
        ∙ bind_ok _ _ _ _ _ (must_ok _ _ _ _ _ _ (remotely_ok _ files s u (some c) got))
        ∙ bind_ok _ _ _ _ _ refl
        ∙ bind_ok _ _ _ _ _ (check_chunk_ok l requester b small o total (calm_world files u) h t)
        ∙ bind_ok _ _ _ _ _ (
            must_ok _ _ _ _ _ _
              (local_ok _ files _ u _ (write_at_calm part files (take o b) c.content o e)))

    abbrev Fetched : Files → ℕ → ℕ → ℤ → S → Type 0
    Fetched files fuel o total s =
        (files' : Files) × (s' : S) × (fetch l requester fuel remote part o (pos o) total
            (calm_world files s)
          ≡ (ok tt, calm_world files' s'))
        × P s'
        × (files' part ≡ some (file b))
        × ((q : Text) → q ≢ part → files' q ≡ files q)

    pub fetch_ok :
        (fuel o : ℕ) (total : ℤ) (files : Files) (s : S)
        → P s
        → Due b o
        → length b < o + fuel
        → (total ≡ negsuc 0) ⊎ (total ≡ pos (length b))
        → files part ≡ some (file (take o b))
        → Fetched files fuel o total s
    fetch_ok zero o total files s p due room t e = absurd (omega (arith, Due-le b o due))
    fetch_ok (suc fuel) o total files s p due room t e =
        let (u, acked, p') = answers o s p due in
        elim (Bool-cases (leb (length b) (o + default_chunk_size))) [
          | inl final ↦ (
            files',
            u,
            fetch_round fuel o total files s u acked due t e
                ∙ ap
                    (λ (x : Bool).
                      (if x
                          then check_final l requester part next c
                          else (refuse_if (leb_ℤ c.total_size next) nothing final_too_late
                              >> fetch l requester fuel remote part (o + length c.content) next
                                  c.total_size))
                        (calm_world files' u))
                    final
                ∙ last_ok files' u c next
                    (holds
                      ∙ ap (λ (x : Bytes). some (file x))
                          (take_all (o + default_chunk_size) b (ground (arith, final))))
                    (chunk_end l requester b small o h ∙ ap pos (ground (arith, final))) refl
                    (ap (λ (x : Bool). if x then l.digest b else []) final),
            p',
            holds
                ∙ ap (λ (x : Bytes). some (file x))
                    (take_all (o + default_chunk_size) b (ground (arith, final))),
            λ q ne. put_other files part q _ ne,
          )
          | inr more ↦
              let far : o + default_chunk_size < length b = ground (arith, more) in
              let next_is : next ≡ pos (o + default_chunk_size) =
                chunk_end l requester b small o h ∙ ap pos (omega arith) in
              let written : o + length c.content ≡ o + default_chunk_size =
                omega (arith, length-served b o h) in
              let (files'', v, run, p'', whole, others) =
                fetch_ok fuel (o + default_chunk_size) (pos (length b)) files' u p' (inr far)
                  (omega arith) (inr refl) holds in
              (
                files'',
                v,
                fetch_round fuel o total files s u acked due t e
                    ∙ ap
                        (λ (x : Bool).
                          (if x
                              then check_final l requester part next c
                              else (refuse_if (leb_ℤ c.total_size next) nothing final_too_late
                                  >> fetch l requester fuel remote part (o + length c.content) next
                                      c.total_size))
                            (calm_world files' u))
                        more
                    ∙ bind_ok _ _ _ _ _
                        (refuse_if_ok _ _ _ _ (ap (leb_ℤ (pos (length b))) next_is ∙ ground arith))
                    ∙ ap
                        (λ (n : ℕ).
                          fetch l requester fuel remote part n next c.total_size
                            (calm_world files' u))
                        written
                    ∙ ap
                        (λ (z : ℤ).
                          fetch l requester fuel remote part (o + default_chunk_size) z c.total_size
                            (calm_world files' u))
                        next_is
                    ∙ run,
                p'',
                whole,
                λ q ne. others q ne ∙ put_other files part q _ ne,
              )
        ]
      where
        h : o ≤ length b
        h = Due-le b o due

        c : Chunk
        c = served l.digest b o

        next : ℤ
        next = pos o +64 pos (length c.content)

        files' : Files
        files' = put files part (file (splice (take o b) o c.content))

        holds : files' part ≡ some (file (take (o + default_chunk_size) b))
        holds =
            put_same files part _
            ∙ ap (λ (x : Bytes). some (file x))
                (splice_end (take o b) c.content o (omega (arith, length-take o b))
                  ∙ take-append-take-drop o (o + default_chunk_size - o) b (o + default_chunk_size)
                      (omega arith))
