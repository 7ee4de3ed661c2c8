-- ===== src/Control/Transfer/Upload/Rounds.antt =====
-- The loop of an upload to a requester that acknowledges every chunk in turn.
use lan_commander.Base.{
  ℕ, zero, suc, ◌+◌, ◌-◌, ◌≤◌, ◌<◌, ◌≡◌, refl, ap, ◌∙◌, Bool, true, false, some, [], ◌∷◌, ◌++◌,
  if◌then◌else◌, inl, inr, length, leb, take, arith, list_eq, nat_eq, Bool-cases, min, ◌==◌,
}
use lan_commander.Base.Exec.{ok, pure, ◌>>◌}
use lan_commander.Base.Exec.Outcome.{bind_ok, must_ok, catch_ok, refuse_if_ok}
use lan_commander.Base.Text.{Text, is_empty}
use lan_commander.Os.Disk.{Bytes, file, Files}
use lan_commander.Os.Disk.Calm.{read_calm, open_read_calm, stat_calm}
use lan_commander.Control.Transfer.{
  SendFile, Requester, validate_request, default_chunk_size, check_ctx,
}
use lan_commander.Control.Transfer.Download.Served.{calm_world, local_ok, length-served}
use lan_commander.Control.Transfer.Upload.{
  Sending, or_cancel, upload, tagged, send_upload_chunk, source_end, send_all,
}
use lan_commander.Control.Transfer.Upload.Chunk.{
  acknowledged, send_ok, next_chunk, chunk_at, chunk_final, chunk_middle, chunk_seen, eq_true,
  eq_false, Accepts,
}

module _ {S : Type 0} (digest : Bytes → Text) (requester : Requester S) (source remote id : Text)
    (b : Bytes) (files : Files) (there : files source ≡ some (file b)) (P : ℕ → S → Type 0)
    (Q : S → Type 0) (accepts : Accepts digest requester remote id b P Q) where
  abbrev loop : ℕ → Bool → ℕ → Bytes → Sending S
  loop fuel sent o seen = send_all digest requester fuel source remote id (length b) sent o seen

  abbrev sent_at : ℕ → SendFile
  sent_at o = chunk_at digest remote id b o

  abbrev Done : ℕ → ℕ → Bool → S → Type 0
  Done fuel o sent s =
      (t : S) × (loop fuel sent o (take o b) (calm_world files s) ≡ (ok tt, calm_world files t))
      × Q t

  not_at_end : (o : ℕ) → o < length b → is_empty (next_chunk b o) ≡ false
  not_at_end o h = go (next_chunk b o) (length-served b o (omega arith))
    where
      go : (c : Bytes) → length c ≡ min default_chunk_size (length b - o) → is_empty c ≡ false
      go [] e = absurd (omega arith)
      go (x ∷ xs) e = refl

  -- What follows the sending of a chunk.
  abbrev rest_of : ℕ → ℕ → Sending S
  rest_of fuel o =
      if o + length (next_chunk b o) == length b
      then pure tt
      else loop fuel true (o + length (next_chunk b o)) (take o b ++ next_chunk b o)

  -- One round of the loop, up to the test of `final`.
  send_round :
      (fuel o : ℕ) (sent : Bool) (s t : S)
      → o < length b
      → requester.send_file (sent_at o) s ≡ (ok (some (acknowledged (sent_at o))), t)
      → loop (suc fuel) sent o (take o b) (calm_world files s) ≡ rest_of fuel o (calm_world files t)
  unfolding send_all tagged check_ctx
  send_round fuel o sent s t h acked =
      bind_ok _ _ _ _ _ (catch_ok check_ctx _ _ _ _ refl)
      ∙ bind_ok _ _ _ _ _ (
          catch_ok _ _ _ _ _ (
            must_ok _ _ _ _ _ _
              (local_ok _ files files s _ (read_calm source files b o default_chunk_size there))))
      ∙ ap
          (λ (x : Bool).
            (if x
                then source_end digest requester remote id (length b) sent (take o b)
                else (tagged true (send_upload_chunk digest requester (sent_at o))
                    >> rest_of fuel o))
              (calm_world files s))
          (not_at_end o h)
      ∙ bind_ok _ _ _ _ _
          (catch_ok _ _ _ _ _ (send_ok digest requester (sent_at o) o files s t refl acked))

  last_round :
      (fuel o : ℕ) (sent : Bool) (s : S)
      → o < length b
      → length b ≤ o + default_chunk_size
      → P o s
      → Done (suc fuel) o sent s
  unfolding pure
  last_round fuel o sent s h all p =
      let (t, acked, q) = accepts.on_last o s (omega arith) all p in
      (
        t,
        send_round fuel o sent s t h acked
            ∙ ap
                (λ (x : Bool).
                  (if x
                      then pure tt
                      else loop fuel true (o + length (next_chunk b o))
                          (take o b ++ next_chunk b o))
                    (calm_world files t))
                (eq_true _ _ (chunk_final b o (omega arith) all)),
        q,
      )

  middle_round :
      (fuel o : ℕ) (sent : Bool) (s : S)
      → o + default_chunk_size < length b
      → P o s
      → ((t : S) → P (o + default_chunk_size) t → Done fuel (o + default_chunk_size) true t)
      → Done (suc fuel) o sent s
  middle_round fuel o sent s h p again =
      let (t, acked, p') = accepts.on_middle o s h p in
      let (v, run, q) = again t p' in
      (
        v,
        send_round fuel o sent s t (omega arith) acked
            ∙ ap
                (λ (x : Bool).
                  (if x
                      then pure tt
                      else loop fuel true (o + length (next_chunk b o))
                          (take o b ++ next_chunk b o))
                    (calm_world files t))
                (eq_false _ _ (λ e. absurd (omega (arith, e, chunk_middle b o h))))
            ∙ (λ i. loop fuel true (chunk_middle b o h i) (chunk_seen b o i) (calm_world files t))
            ∙ run,
        q,
      )

  rounds :
      (fuel o : ℕ) (sent : Bool) (s : S)
      → o < length b
      → length b < o + fuel
      → P o s
      → Done fuel o sent s
  rounds zero o sent s h room p = absurd (omega arith)
  rounds (suc fuel) o sent s h room p =
      elim (Bool-cases (leb (length b) (o + default_chunk_size))) [
        | inl final ↦ last_round fuel o sent s h (ground (arith, final)) p
        | inr more ↦
            let far : o + default_chunk_size < length b = ground (arith, more) in
            middle_round fuel o sent s far p
              (λ t p'. rounds fuel (o + default_chunk_size) true t far (omega arith) p')
      ]

module _ {S : Type 0} (digest : Bytes → Text) (requester : Requester S) (source remote id : Text)
    (files : Files) (P : ℕ → S → Type 0) (Q : S → Type 0) where
  -- An empty file is one chunk.
  empty_ok :
      (fuel : ℕ) (s t : S)
      → files source ≡ some (file [])
      → 0 < fuel
      → requester.send_file (chunk_at digest remote id [] 0) s
        ≡ (ok (some (acknowledged (chunk_at digest remote id [] 0))), t)
      → send_all digest requester fuel source remote id 0 false 0 [] (calm_world files s)
        ≡ (ok tt, calm_world files t)
  unfolding send_all tagged source_end nat_eq check_ctx
  empty_ok zero s t there h acked = absurd (omega arith)
  empty_ok (suc fuel) s t there h acked =
      bind_ok _ _ _ _ _ (catch_ok check_ctx _ _ _ _ refl)
      ∙ bind_ok _ _ _ _ _ (
          catch_ok _ _ _ _ _ (
            must_ok _ _ _ _ _ _
              (local_ok _ files files s _ (read_calm source files [] 0 default_chunk_size there))))
      ∙ catch_ok _ _ _ _ _
          (send_ok digest requester (chunk_at digest remote id [] 0) 0 files s t refl acked)

  all_sent :
      (b : Bytes) (fuel : ℕ) (s : S)
      → files source ≡ some (file b)
      → Accepts digest requester remote id b P Q
      → length b < fuel
      → P 0 s
      → (t : S) × (send_all digest requester fuel source remote id
            (length b)
            false
            0
            []
            (calm_world files s)
          ≡ (ok tt, calm_world files t))
        × Q t
  all_sent [] fuel s there accepts h p =
      let (t, acked, q) = accepts.on_last 0 s (omega arith) (omega arith) p in
      (t, empty_ok fuel s t there h acked, q)
  all_sent (x ∷ xs) fuel s there accepts h p =
      rounds digest requester source remote id (x ∷ xs) files there P Q accepts fuel 0 false s
        (omega arith) (omega arith) p

  -- An upload of `b` returns.
  pub upload_accepted :
      (agent : Text) (b : Bytes) (fuel : ℕ) (s : S)
      → files source ≡ some (file b)
      → Accepts digest requester remote id b P Q
      → validate_request {S = S} agent source remote (calm_world files s)
        ≡ (ok tt, calm_world files s)
      → length b < fuel
      → P 0 s
      → (t : S) × (upload digest requester fuel id agent source remote (calm_world files s)
          ≡ (ok tt, calm_world files t))
        × Q t
  unfolding upload or_cancel
  upload_accepted agent b fuel s there accepts valid enough p =
      let (t, run, q) = all_sent b fuel s there accepts enough p in
      (
        t,
        bind_ok _ _ _ _ _ valid
            ∙ bind_ok _ _ _ _ _ (
                must_ok _ _ _ _ _ _
                  (local_ok _ files files s _ (open_read_calm source files (file b) there)))
            ∙ bind_ok _ _ _ _ _ (
                must_ok _ _ _ _ _ _
                  (local_ok _ files files s _ (stat_calm source files (file b) there)))
            ∙ bind_ok _ _ _ _ _ (refuse_if_ok _ _ _ _ refl)
            ∙ catch_ok _ _ _ _ _ run,
        q,
      )
