-- ===== src/Control/Transfer/Download/Delivery.antt =====
-- A download from an agent that serves a file.
use lan_commander.Base.{
  ℕ, ◌≤◌, ◌<◌, ◌≡◌, ◌≢◌, refl, sym, ap, subst, ◌∙◌, true, false, none, some, List, [], inl, length,
  ◌⊎◌, arith, list_eq, nat_eq,
}
use lan_commander.Base.Int.{pos, negsuc, max_int64}
use lan_commander.Base.Exec.{ok, pure}
use lan_commander.Base.Exec.Outcome.{bind_ok, must_ok, refuse_if_ok, catch_ok}
use lan_commander.Base.Text.{Text, is_empty}
use lan_commander.Os.Path.{dir}
use lan_commander.Os.Disk.{Bytes, DirItem, file, directory, cut, Files, put}
use lan_commander.Os.Disk.Calm.{IsFree, stat_calm, open_create_calm, rename_calm, flush_calm}
use lan_commander.Control.Transfer.{
  Requester, default_chunk_size, present, validate_request, bad_local_path,
}
use lan_commander.Control.Transfer.Download.{Local, receive_file, or_remove, download_to, download}
use lan_commander.Control.Transfer.Download.Served.{
  served, calm_world, local_ok, put_same, put_other, cut_other,
}
use lan_commander.Control.Transfer.Download.Rounds.{fetch_ok}

-- A download from an agent whose state changes, within a set `P`.
pub download_kept :
    {S : Type 0} (l : Local) (requester : Requester S) (b : Bytes) (agent remote path : Text)
    (destination : Text) (z : ℕ) (items : List DirItem) (files : Files) (s : S) (fuel : ℕ)
    (P : S → Type 0)
    → length b ≤ max_int64
    → is_empty (l.digest b) ≡ false
    → ((o : ℕ) (t : S)
        → P t
        → (o ≡ 0) ⊎ (o < length b)
        → (t' : S) × (requester.get_file remote (pos o) default_chunk_size t
            ≡ (ok (some (served l.digest b o)), t'))
          × P t')
    → P s
    → validate_request agent remote path (calm_world files s) ≡ (ok tt, calm_world files s)
    → l.absolute path ≡ some destination
    → files (dir destination) ≡ some (directory z items)
    → IsFree (files destination)
    → files (l.temp_name destination) ≡ none
    → l.temp_name destination ≢ destination
    → length b < fuel
    → (files' : Files) × (s' : S) × (download l requester fuel agent remote path
          (calm_world files s)
        ≡ (ok tt, calm_world files' s'))
      × P s'
      × (files' destination ≡ some (file b))
      × (files' (l.temp_name destination) ≡ none)
      × ((q : Text) → q ≢ l.temp_name destination → q ≢ destination → files' q ≡ files q)
unfolding download download_to receive_file or_remove pure
download_kept l requester b agent remote path destination z items files s fuel P small hashed
      answers p valid abs parent free fresh ne enough =
    let part = l.temp_name destination in
    let created = put files part (file []) in
    let (got, t, run, p', whole, others) =
      fetch_ok l requester b small remote part hashed P answers fuel 0 (negsuc 0) created s p
        (inl refl) (omega arith) (inl refl) (put_same files part (file [])) in
    let still : got destination ≡ files destination =
      others destination (λ e. ne (sym e))
      ∙ put_other files part destination (file []) (λ e. ne (sym e)) in
    let moved = rename_calm part destination (file b) got whole (subst IsFree (sym still) free) in
    let last = put (cut got part) destination (file b) in
    (
      last,
      t,
      bind_ok _ _ _ _ _ valid
          ∙ bind_ok _ _ _ _ _ (ap (λ o. present o bad_local_path (calm_world files s)) abs)
          ∙ bind_ok _ _ _ _ _ (
              must_ok _ _ _ _ _ _
                (local_ok _ files files s _ (stat_calm (dir destination) files _ parent)))
          ∙ bind_ok _ _ _ _ _ (refuse_if_ok _ _ _ _ refl)
          ∙ bind_ok _ _ _ _ _ (
              must_ok _ _ _ _ _ _
                (local_ok _ files created s tt (open_create_calm part true files fresh)))
          ∙ catch_ok _ _ _ _ _ (
              bind_ok _ _ _ _ _ run
              ∙ bind_ok _ _ _ _ _ (must_ok _ _ _ _ _ _ (local_ok _ got got t tt (flush_calm got)))
              ∙ bind_ok _ _ _ _ _ (must_ok _ _ _ _ _ _ (local_ok _ got got t tt (flush_calm got)))
              ∙ must_ok _ _ _ _ _ _ (local_ok _ got last t tt moved)),
      p',
      put_same (cut got part) destination (file b),
      put_other (cut got part) destination part (file b) ne ∙ ground arith,
      λ q np nd.
          put_other (cut got part) destination q (file b) nd
          ∙ cut_other got part q np
          ∙ others q np
          ∙ put_other files part q (file []) np,
    )

-- From an agent that serves a file of `b`, chunk by chunk, where it is empty or has something left, on
-- a local disk that refuses nothing and without a cancellation, a download returns, in as many rounds
-- as `b` has bytes and one more at most. Then the destination holds exactly `b`, the temporary file is
-- gone, and no other file has changed. (The system's name for the temporary file is one that no file
-- has.)
download_delivers :
    {S : Type 0} (l : Local) (requester : Requester S) (b : Bytes) (agent remote path : Text)
    (destination : Text) (z : ℕ) (items : List DirItem) (files : Files) (s : S) (fuel : ℕ)
    → length b ≤ max_int64
    → is_empty (l.digest b) ≡ false
    → ((o : ℕ) (t : S)
        → (o ≡ 0) ⊎ (o < length b)
        → requester.get_file remote (pos o) default_chunk_size t
          ≡ (ok (some (served l.digest b o)), t))
    → validate_request agent remote path (calm_world files s) ≡ (ok tt, calm_world files s)
    → l.absolute path ≡ some destination
    → files (dir destination) ≡ some (directory z items)
    → IsFree (files destination)
    → files (l.temp_name destination) ≡ none
    → l.temp_name destination ≢ destination
    → length b < fuel
    → (files' : Files) × (download l requester fuel agent remote path (calm_world files s)
        ≡ (ok tt, calm_world files' s))
      × (files' destination ≡ some (file b))
      × (files' (l.temp_name destination) ≡ none)
      × ((q : Text) → q ≢ l.temp_name destination → q ≢ destination → files' q ≡ files q)
download_delivers {S} l requester b agent remote path destination z items files s fuel small hashed
      answers valid abs parent free fresh ne enough =
    let (files', t, run, same, whole, gone, others) =
      download_kept l requester b agent remote path destination z items files s fuel (λ t. t ≡ s)
        small hashed (λ o t e due. (t, answers o t due, e)) refl valid abs parent free fresh ne
        enough in
    (files', run ∙ ap (λ (x : S). (ok tt, calm_world files' x)) same, whole, gone, others)
