-- ===== src/Agent/Files/Upload/Tests.antt =====
-- Uploads at concrete inputs.
use lan_commander.Base.{
  ◌≡◌, ◌≢◌, refl, ap, ◌∙◌, Bool, true, false, none, some, [], ◌∷◌, ◌++◌, arith, ◌⊎◌, list_eq,
  nat_eq, ne_of_==_false, subst, sym,
}
use lan_commander.Base.Int.{ℤ, pos, ◌+64◌}
use lan_commander.Base.Exec.{
  Result, ok, err, ◌>>◌, ◌>>=◌, refuse_if, must, catch, ignore, lift, pure, raise,
}
use lan_commander.Base.Text.{
  Text, codes, equal_fold, trim_space, any, contains, has_prefix, is_space, nonempty, split,
  to_lower_ascii, trim_left, trim_right, fields_func,
}
use lan_commander.Os.Disk.{
  Bytes, file, Disk, write_file, flush, open_write, read_file, remove, rename, stat, syscall,
  write_at, open_read,
}
use lan_commander.Agent.Files.SafePath.{safe_path, has_dotdot}
use lan_commander.Agent.Files.Host.{FileError, Op, file_sha256, resolve_path, checksum_mismatch}
use lan_commander.Agent.Files.Upload.{
  temp_path, meta_path, check_transfer_id, write_atomic_upload_chunk, deliver, receive,
  check_bounds, begin, cleanup, close_cleanup, continue_upload, finalize, store, verify,
  write_chunk,
}
use lan_commander.Agent.Files.Upload.Frame.{upload_shape, upload_frame, upload_keeps_destination}
use lan_commander.Agent.Files.Upload.Commit.{upload_ok, Delivered}
use lan_commander.Agent.Files.Upload.Bounds.{Accepted}
use lan_commander.Agent.Files.Upload.Receive.{Origin}
use lan_commander.Agent.Files.Upload.Assembly.{Uploading, begun, upload_assembles}
use lan_commander.Agent.Files.Upload.Cleanup.{upload_cleans_up, Calm}
use lan_commander.Agent.Files.Upload.Machine.{
  machine, target, transfer, temp, meta, other, fresh, temp_is, resolves, temp_not_target, meta_is,
  not_meta, own,
}
use lan_commander.Base.Decimal.{format_int, parse_int}
use lan_commander.Os.Path.{clean}

at_paths : Bytes → ℤ → ℤ → Bool → Text → Disk → Result FileError (Unit {0}) × Disk
at_paths chunk offset total final checksum =
    check_transfer_id transfer >> deliver machine target temp meta chunk offset total final checksum

call : Bytes → ℤ → ℤ → Bool → Text → Disk → Result FileError (Unit {0}) × Disk
call = write_atomic_upload_chunk machine target transfer

call_shape :
    (chunk : Bytes) (offset total : ℤ) (final : Bool) (checksum : Text)
    → call chunk offset total final checksum ≡ at_paths chunk offset total final checksum
unfolding call at_paths meta_path
call_shape chunk offset total final checksum =
    upload_shape machine target transfer chunk offset total final checksum target resolves
    ∙ ap
        (λ (x : Text).
          check_transfer_id transfer
          >> deliver machine target x (x ++ codes ".meta") chunk offset total final checksum)
        temp_is

abbrev digest_of : Bytes → Text
digest_of b = codes "d" ++ b

middle : Disk
middle = (at_paths (1 ∷ 2 ∷ []) (pos 0) (pos 3) false [] fresh).1

first_run : call (1 ∷ 2 ∷ []) (pos 0) (pos 3) false [] fresh ≡ (ok tt, middle)
unfolding middle at_paths ◌>>=◌ check_transfer_id refuse_if trim_space any contains deliver receive
    check_bounds ◌+64◌ begin must write_file file_sha256 has_dotdot safe_path cleanup close_cleanup
    continue_upload finalize store verify write_chunk format_int parse_int catch ignore lift pure
    raise equal_fold has_prefix is_space nonempty split to_lower_ascii trim_left trim_right flush
    open_write read_file remove rename stat syscall write_at list_eq nat_eq resolve_path fields_func
    clean open_read
first_run = ap (λ (m : Op (Unit {0})). m fresh) (call_shape (1 ∷ 2 ∷ []) (pos 0) (pos 3) false [])

last : Disk
last = (at_paths (3 ∷ []) (pos 2) (pos 3) true (digest_of (1 ∷ 2 ∷ 3 ∷ [])) middle).1

second_run : call (3 ∷ []) (pos 2) (pos 3) true (digest_of (1 ∷ 2 ∷ 3 ∷ [])) middle ≡ (ok tt, last)
unfolding last middle at_paths ◌>>=◌ check_transfer_id refuse_if trim_space any contains deliver
    receive check_bounds ◌+64◌ begin must write_file file_sha256 has_dotdot safe_path cleanup
    close_cleanup continue_upload finalize store verify write_chunk format_int parse_int catch
    ignore lift pure raise equal_fold has_prefix is_space nonempty split to_lower_ascii trim_left
    trim_right flush open_write read_file remove rename stat syscall write_at list_eq nat_eq
    resolve_path fields_func clean open_read
second_run =
    ap (λ (m : Op (Unit {0})). m middle)
      (call_shape (3 ∷ []) (pos 2) (pos 3) true (digest_of (1 ∷ 2 ∷ 3 ∷ [])))

wrong : Disk
wrong = (at_paths (3 ∷ []) (pos 2) (pos 3) true (codes "0") middle).1

wrong_run : call (3 ∷ []) (pos 2) (pos 3) true (codes "0") middle ≡ (err checksum_mismatch, wrong)
unfolding wrong middle at_paths ◌>>=◌ check_transfer_id refuse_if trim_space any contains deliver
    receive check_bounds ◌+64◌ begin must write_file file_sha256 has_dotdot safe_path cleanup
    close_cleanup continue_upload finalize store verify write_chunk format_int parse_int catch
    ignore lift pure raise equal_fold has_prefix is_space nonempty split to_lower_ascii trim_left
    trim_right flush open_write read_file remove rename stat syscall write_at list_eq nat_eq
    resolve_path fields_func clean open_read
wrong_run =
    ap (λ (m : Op (Unit {0})). m middle) (call_shape (3 ∷ []) (pos 2) (pos 3) true (codes "0"))

valid : check_transfer_id transfer middle ≡ (ok tt, middle)
unfolding check_transfer_id trim_space any contains list_eq nat_eq has_prefix is_space trim_left
    trim_right ◌>>=◌ refuse_if
valid = refl

Calm-at : Calm temp meta middle
unfolding middle at_paths ◌>>=◌ check_transfer_id refuse_if trim_space any contains deliver receive
    check_bounds ◌+64◌ begin must write_file file_sha256 has_dotdot safe_path cleanup close_cleanup
    continue_upload finalize store verify write_chunk format_int parse_int catch ignore lift pure
    raise equal_fold has_prefix is_space nonempty split to_lower_ascii trim_left trim_right flush
    open_write read_file remove rename stat syscall write_at list_eq nat_eq resolve_path fields_func
    clean open_read
Calm-at = (refl, tt, tt)

Calm-middle : Calm (temp_path target transfer) (meta_path target transfer) middle
Calm-middle =
    subst (λ (x : Text). Calm x (meta_path target transfer) middle) (sym temp_is)
      (subst (λ (x : Text). Calm temp x middle) (sym meta_is) Calm-at)

upload_frame_example :
    (write_atomic_upload_chunk machine target transfer
        (1 ∷ [])
        (pos 0)
        (pos 1)
        true
        []
        fresh).1.files
      other
    ≡ none
unfolding list_eq nat_eq
upload_frame_example =
    upload_frame machine target transfer (1 ∷ []) (pos 0) (pos 1) true [] fresh target other
      resolves (subst (λ (x : Text). other ≢ x) (sym temp_is) (ne_of_==_false other temp refl))
      (subst (λ (x : Text). other ≢ x) (sym meta_is) (ne_of_==_false other meta refl))
      (ne_of_==_false other target refl)

upload_keeps_destination_example :
    let o =
      write_atomic_upload_chunk machine target transfer (1 ∷ []) (pos 0) (pos 1) true [] fresh in
    (o.1.files target ≡ some (file (9 ∷ []))) ⊎ ((o.0 ≡ ok tt) × (true ≡ true))
unfolding list_eq nat_eq
upload_keeps_destination_example =
    upload_keeps_destination machine target transfer (1 ∷ []) (pos 0) (pos 1) true [] fresh target
      resolves (λ e. temp_not_target (sym e)) not_meta

under_way : Uploading machine target transfer (temp_path target transfer) (1 ∷ 2 ∷ []) middle
unfolding call
under_way = begun (1 ∷ 2 ∷ []) (pos 3) [] fresh middle (omega arith, omega arith) first_run

upload_assembles_example :
    (last.files target ≡ some (file (1 ∷ 2 ∷ 3 ∷ [])))
    × (last.files (temp_path target transfer) ≡ none)
    × (pos 3 ≡ pos 3)
    × (equal_fold (digest_of (1 ∷ 2 ∷ 3 ∷ [])) (digest_of (1 ∷ 2 ∷ 3 ∷ [])) ≡ true)
unfolding call
upload_assembles_example =
    upload_assembles machine target transfer target resolves temp_not_target not_meta own
      (1 ∷ 2 ∷ []) (3 ∷ []) (pos 2) (pos 3) (digest_of (1 ∷ 2 ∷ 3 ∷ [])) middle last under_way
      (λ e. absurd cc) (omega arith, omega arith) (omega arith, omega arith) second_run

upload_cleans_up_example :
    (wrong.files (temp_path target transfer) ≡ none)
    × (wrong.files (meta_path target transfer) ≡ none)
unfolding call
upload_cleans_up_example =
    upload_cleans_up machine target transfer (3 ∷ []) (pos 2) (pos 3) true (codes "0") middle wrong
      target checksum_mismatch resolves valid (λ e. temp_not_target (sym e)) not_meta Calm-middle
      wrong_run

upload_ok_example :
    (old : Bytes) × Origin (middle.files (temp_path target transfer)) (pos 2) old
    × Accepted (3 ∷ []) (pos 2) (pos 3) true
    × Delivered machine
        (temp_path target transfer)
        target
        true
        (old ++ (3 ∷ []))
        (digest_of (1 ∷ 2 ∷ 3 ∷ []))
        last
unfolding call
upload_ok_example =
    upload_ok machine target transfer (3 ∷ []) (pos 2) (pos 3) true (digest_of (1 ∷ 2 ∷ 3 ∷ []))
      middle last target resolves temp_not_target not_meta own (omega arith, omega arith)
      (omega arith, omega arith) second_run
