-- ===== src/Control/Transfer/Download/Destination.antt =====
-- What a download does to the file it replaces.
use lan_commander.Base.{
  ℕ, zero, suc, ◌+◌, ◌≡◌, ◌≢◌, refl, sym, ap, subst, ◌∙◌, Bool, true, false, not, Option, none,
  some, List, [], ◌∷◌, if◌then◌else◌, ◌⊎◌, inl, inr, length, arith, list_eq, nat_eq,
}
use lan_commander.Base.Int.{ℤ, pos, negsuc}
use lan_commander.Base.Exec.{
  Exec, Result, ok, err, pure, raise, ◌>>=◌, ◌>>◌, catch, ignore, must, refuse_if,
}
use lan_commander.Base.Exec.Keeps.{Keeps, Keeps-pure, Keeps-raise, keeps_rules}
use lan_commander.Base.Exec.Outcome.{bind_cases, must_cases}
use lan_commander.Base.Text.{Text}
use lan_commander.Os.Path.{dir}
use lan_commander.Os.Disk.{Node, OsError, Sys, stat, open_create, flush, rename, remove}
use lan_commander.Os.Disk.Frame.{At, disk_frame}
use lan_commander.Agent.Files.Host.{is_directory}
use lan_commander.Control.Transfer.{
  TransferError, out_of_fuel, Chunk, Requester, World, Transfer, local, remotely, check_ctx,
  nothing, fails_as, present, validate_request, bad_local_path, cannot_finalize, first_answer,
  later_answers, cancelled_or_not,
}
use lan_commander.Control.Transfer.Download.{
  Local, verify_checksum, check_chunk, check_final, fetch, receive_file, or_remove, download_to,
  download,
}

-- The node of a path on the local disk.
abbrev Here : {S : Type 0} → Text → Option Node → World S → Type 0
Here q x w = w.disk.files q ≡ x

rename_failed :
    {S : Type 0} (p q : Text) (v u : World S) (e : OsError)
    → local (rename p q) v ≡ (err e, u)
    → u.disk.files q ≡ v.disk.files q
unfolding local rename
rename_failed p q v u e h = ground arith

module _ {S : Type 0} {q : Text} {x : Option Node} where
  Keeps-local : {A : Type 0} (m : Sys A) → Keeps (At q x) m → Keeps (Here q x) (local {S = S} m)
  unfolding local
  Keeps-local m k = record { at = λ w h. k.at w.disk h }

  Keeps-remotely : {A : Type 0} (m : S → Result (Unit {0}) A × S) → Keeps (Here q x) (remotely m)
  unfolding remotely
  Keeps-remotely m = record { at = λ w h. h }

  Keeps-check_ctx : Keeps (Here {S = S} q x) check_ctx
  unfolding check_ctx
  Keeps-check_ctx = record {
    at = λ w h.
        go (first_answer w.ctx)
          (record { disk = w.disk; remote = w.remote; ctx = later_answers w.ctx }) h;
  }
    where
      go : (b : Bool) (w : World S) → Here q x w → Here q x (cancelled_or_not b w).1
      go true w h = h
      go false w h = h

  Keeps-present :
      {A : Type 0} (o : Option A) (e : TransferError) → Keeps (Here {S = S} q x) (present o e)
  Keeps-present none e = Keeps-raise e
  Keeps-present (some a) e = Keeps-pure a

  ruleset local_frame = (Keeps-local, Keeps-remotely, Keeps-check_ctx, Keeps-present)

  module _ (l : Local) (requester : Requester S) where
    Keeps-verify_checksum :
        (part sum : Text) → Keeps (Here q x) (verify_checksum l requester part sum)
    unfolding verify_checksum
    Keeps-verify_checksum part sum = search (keeps_rules, local_frame, disk_frame) depth 8

    Keeps-check_chunk :
        (offset total : ℤ) (c : Chunk) → Keeps (Here q x) (check_chunk l requester offset total c)
    unfolding check_chunk
    Keeps-check_chunk offset total c = search keeps_rules depth 9

    Keeps-check_final :
        (part : Text) (offset : ℤ) (c : Chunk)
        → Keeps (Here q x) (check_final l requester part offset c)
    unfolding check_final
    Keeps-check_final part offset c = search (keeps_rules, Keeps-verify_checksum) depth 8

    Keeps-fetch :
        (fuel : ℕ) (remote part : Text) (written : ℕ) (offset total : ℤ)
        → q ≢ part
        → Keeps (Here q x) (fetch l requester fuel remote part written offset total)
    unfolding fetch
    Keeps-fetch zero remote part written offset total ne = Keeps-raise out_of_fuel
    Keeps-fetch (suc fuel) remote part written offset total ne =
        let again = λ (w : ℕ) (o t : ℤ). Keeps-fetch fuel remote part w o t ne in
        search (keeps_rules, local_frame, disk_frame, Keeps-check_chunk, Keeps-check_final, again)
          depth 12

  Safe-bind :
      {A : Type 0} (m : Transfer S A) (f : A → Transfer S (Unit {0})) (w : World S)
      → Keeps (Here q x) m
      → ((a : A) (v : World S) → Here q x v → Here q x (f a v).1 ⊎ ((f a v).0 ≡ ok tt))
      → Here q x w
      → Here q x ((m >>= f) w).1 ⊎ (((m >>= f) w).0 ≡ ok tt)
  Safe-bind m f w k rest h =
      bind_cases (λ o. Here q x o.1 ⊎ (o.0 ≡ ok tt)) m f w
        (λ e v s. inl (subst (λ (o : _ × World S). Here q x o.1) s (k.at w h)))
        (λ a v s. rest a v (subst (λ (o : _ × World S). Here q x o.1) s (k.at w h)))

  renamed :
      (p : Text) (w : World S)
      → Here q x w
      → let o = fails_as {S = S} (local (rename p q)) cannot_finalize w in
        Here q x o.1 ⊎ (o.0 ≡ ok tt)
  unfolding pure raise ◌>>=◌
  renamed p w h =
      must_cases (λ o. Here q x o.1 ⊎ (o.0 ≡ ok tt)) (local (rename p q)) nothing cannot_finalize w
        (λ e v s. inl (rename_failed p q w v e s ∙ h)) (λ a v s. inr refl)

  -- The deferred removal runs only after a failure.
  or_remove_safe :
      (l : Local) (requester : Requester S) (part : Text) (m : Transfer S (Unit {0})) (w : World S)
      → q ≢ part
      → Here q x (m w).1 ⊎ ((m w).0 ≡ ok tt)
      → Here q x (or_remove l requester part m w).1 ⊎ ((or_remove l requester part m w).0 ≡ ok tt)
  unfolding or_remove catch
  or_remove_safe l requester part m w ne h = go (m w).0 (m w).1 h
    where
      undo : TransferError → Transfer S (Unit {0})
      undo e = ignore (local flush) >> ignore (local (remove part)) >> raise e

      kept : (e : TransferError) → Keeps (Here q x) (undo e)
      kept e = search (keeps_rules, local_frame, disk_frame) depth 8

      go :
          (r : Result TransferError (Unit {0})) (v : World S)
          → Here q x v ⊎ (r ≡ ok tt)
          → let o = lan_commander.Base.Exec.resume r undo v in Here q x o.1 ⊎ (o.0 ≡ ok tt)
      go (ok u) v h = inr refl
      go (err e) v (inl h) = inl ((kept e).at v h)
      go (err e) v (inr i) = absurd cc

  module _ (l : Local) (requester : Requester S) (fuel : ℕ) (remote part : Text)
      (ne : q ≢ part) where
    receive_file_safe :
        (w : World S)
        → Here q x w
        → let o = receive_file l requester fuel remote part q w in Here q x o.1 ⊎ (o.0 ≡ ok tt)
    unfolding receive_file
    receive_file_safe w h =
        Safe-bind _ _ w (Keeps-fetch l requester fuel remote part 0 (pos 0) (negsuc 0) ne)
          (λ _ v h.
            Safe-bind _ _ v (keeps_flush _)
              (λ _ v h. Safe-bind _ _ v (keeps_flush _) (λ _ v h. renamed part v h) h) h)
          h
      where
        keeps_flush : (e : TransferError) → Keeps (Here q x) (fails_as {S = S} (local flush) e)
        keeps_flush e = search (keeps_rules, local_frame, disk_frame) depth 8

  download_to_safe :
      (l : Local) (requester : Requester S) (fuel : ℕ) (remote : Text) (w : World S)
      → q ≢ l.temp_name q
      → Here q x w
      → let o = download_to l requester fuel remote q w in Here q x o.1 ⊎ (o.0 ≡ ok tt)
  unfolding download_to
  download_to_safe l requester fuel remote w ne h =
      Safe-bind _ _ w (keeps_stat _)
        (λ info v h.
          Safe-bind _ _ v (keeps_check info _)
            (λ _ v h.
              Safe-bind _ _ v (keeps_create _)
                (λ _ v h.
                  or_remove_safe l requester (l.temp_name q) _ v ne
                    (receive_file_safe l requester fuel remote (l.temp_name q) ne v h))
                h)
            h)
        h
    where
      keeps_stat :
          (e : TransferError) → Keeps (Here q x) (fails_as {S = S} (local (stat (dir q))) e)
      keeps_stat e = search (keeps_rules, local_frame, disk_frame) depth 8

      keeps_check :
          (info : Node) (e : TransferError)
          → Keeps (Here {S = S} q x) (refuse_if (not (is_directory info)) nothing e)
      keeps_check info e = search keeps_rules depth 8

      keeps_create :
          (e : TransferError)
          → Keeps (Here q x) (fails_as {S = S} (local (open_create (l.temp_name q) true)) e)
      keeps_create e = search (keeps_rules, local_frame, disk_frame) depth 8

-- A download changes the file it is to replace only if it returns without an error. A failure at any
-- step, of the agent, of the network, of the local disk or by a cancelled context, leaves it as it
-- was. (The temporary file is another one.)
pub download_keeps_destination :
    {S : Type 0} (l : Local) (requester : Requester S) (fuel : ℕ) (agent remote path : Text)
    (destination : Text) (w : World S)
    → l.absolute path ≡ some destination
    → destination ≢ l.temp_name destination
    → let o = download l requester fuel agent remote path w in
      (o.1.disk.files destination ≡ w.disk.files destination) ⊎ (o.0 ≡ ok tt)
unfolding download pure ◌>>=◌
download_keeps_destination {S} l requester fuel agent remote path destination w e ne =
    Safe-bind (validate_request agent remote path) _ w keeps_validate
      (λ _ v h.
        subst
          (λ (o : Option Text).
            let r = (present o bad_local_path >>= download_to l requester fuel remote) v in
            Here destination (w.disk.files destination) r.1 ⊎ (r.0 ≡ ok tt))
          (sym e) (download_to_safe l requester fuel remote v ne h))
      refl
  where
    keeps_validate :
        Keeps
          (Here destination (w.disk.files destination))
          (validate_request {S = S} agent remote path)
    keeps_validate = unfold validate_request in search keeps_rules depth 8
