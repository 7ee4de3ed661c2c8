-- ===== src/Control/Transfer/Remote/Tests.antt =====
-- An upload to an agent at a concrete input.
use lan_commander.Base.{
  ◌≡◌, refl, sym, subst, true, false, none, some, [], ◌∷◌, ◌==◌, if◌then◌else◌, list_eq, nat_eq,
  arith,
}
use lan_commander.Base.Int.{pos}
use lan_commander.Base.Exec.{ok, err, ◌>>=◌, refuse_if}
use lan_commander.Base.Text.{
  Text, codes, trim_space, any, contains, is_space, trim_left, trim_right, has_prefix,
}
use lan_commander.Os.Disk.{Bytes, Files, file, calm_disk}
use lan_commander.Os.Disk.Calm.{IsFree}
use lan_commander.Agent.Executor.{Run}
use lan_commander.Agent.IpGuard.{new_ip_guard}
use lan_commander.Agent.Files.Upload.{temp_path, meta_path}
use lan_commander.Agent.Files.Upload.Machine.{
  machine, target, transfer, temp_is, meta_is, resolves, temp_not_target, not_meta, own,
}
use lan_commander.Agent.Files.Upload.Success.{IsTransferId}
use lan_commander.Agent.Server.{Session}
use lan_commander.Control.Transfer.{SendFile, validate_request}
use lan_commander.Control.Transfer.Download.Served.{calm_world}
use lan_commander.Control.Transfer.Upload.{upload}
use lan_commander.Control.Transfer.Remote.{Link, received, agent}
use lan_commander.Control.Transfer.Remote.Arrival.{upload_arrives}
use lan_commander.Control.Transfer.Remote.Success.{Serving}
use lan_commander.Base.{ne_of_==_false, ◌≢◌}
use lan_commander.Os.Path.{dir, clean}
use lan_commander.Os.Disk.{directory}
use lan_commander.Control.Transfer.Download.{Local, download}
use lan_commander.Control.Transfer.Remote.Fetch.{download_fetches}
use lan_commander.Control.Transfer.Remote.Taken.{download_arrives}
use lan_commander.Control.Transfer.Remote.Roundtrip.{download-upload}
use lan_commander.Control.Transfer.Remote.Delivery.{upload_delivers}

abbrev nothing_run : Run
nothing_run = record {
  out = [];
  err_out = [];
  failure = none;
  deadline_exceeded = false;
  duration = 0;
}

-- Payloads are the records themselves, and the agent is idle between two requests.
abbrev link : Link SendFile
link = record {
  env = record {
    auth_token = codes "secret";
    host = machine;
    windows = false;
    run = λ c d. (nothing_run, d);
    capture = λ d. err [];
    as_auth = λ p. none;
    as_exec = λ p. none;
    as_list_dir = λ p. none;
    as_get_file =
        λ p. some (record { path = p.path; offset = p.offset; chunk_size = p.total_size });
    as_send_file = λ p. some (received p);
    as_cancel_file = λ p. none;
  };
  now = 0;
  msg_id = codes "1";
  encode = λ p. p;
  encode_get = λ path offset size. record {
    path = path;
    content = [];
    offset = offset;
    total_size = pos size;
    final = false;
    checksum = [];
    transfer_id = [];
  };
  encode_cancel = λ path id. record {
    path = path;
    content = [];
    offset = pos 0;
    total_size = pos 0;
    final = false;
    checksum = [];
    transfer_id = id;
  };
  meanwhile = λ s. s;
}

abbrev b : Bytes
b = 1 ∷ 2 ∷ 3 ∷ []

-- The destination holds something else before.
abbrev before : Files
before q = if q == target then some (file (9 ∷ [])) else none

abbrev here : Files
here q = if q == codes "/l" then some (file b) else none

abbrev session : Session
session = record {
  client = record {
    id = codes "c";
    remote = codes "r";
    ip = "r";
    ip_tracked = true;
    user = codes "op";
    authed = true;
    auth_attempts = 0;
    send = [];
    closed = false;
  };
  guard = new_ip_guard;
  audit = [];
  disk = calm_disk before;
}

serving : Serving session before
serving = record { on_disk = refl; authed = refl; opened = refl }

accepted : IsTransferId transfer
unfolding trim_space any contains list_eq nat_eq has_prefix is_space trim_left trim_right
accepted = (refl, refl)

temp-IsFree : IsFree (before (temp_path target transfer))
unfolding list_eq nat_eq
temp-IsFree = subst (λ (q : Text). IsFree (before q)) (sym temp_is) tt

meta-IsFree : IsFree (before (meta_path target transfer))
unfolding list_eq nat_eq
meta-IsFree = subst (λ (q : Text). IsFree (before q)) (sym meta_is) tt

delivered :
    (t : Session) × (upload machine.digest
        (agent link)
        4
        transfer
        (codes "pc")
        (codes "/l")
        target
        (calm_world here session)
      ≡ (ok tt, calm_world here t))
    × (t.disk.files target ≡ some (file b))
    × (t.disk.files (temp_path target transfer) ≡ none)
unfolding list_eq nat_eq validate_request ◌>>=◌ refuse_if trim_space
delivered =
    upload_delivers link target transfer target b (λ p. refl) (λ s. (refl, refl, refl)) refl
      accepted resolves (λ e. temp_not_target (sym e)) not_meta own (omega arith) refl 4
      (codes "pc") (codes "/l") here before session refl refl (omega arith) serving tt temp-IsFree
      meta-IsFree

abbrev after : Session
after = delivered.0

upload_arrives_example :
    (after.disk.files target ≡ some (file b))
    × (after.disk.files (temp_path target transfer) ≡ none)
    × (here (codes "/l") ≡ some (file b))
unfolding list_eq nat_eq
upload_arrives_example =
    upload_arrives link machine.digest target transfer target (λ p. refl) (λ s. refl) refl resolves
      temp_not_target not_meta own 4 (codes "pc") (codes "/l") b (calm_world here session)
      (calm_world here after) (omega arith) refl delivered.1

upload_delivers_example :
    (t : Session) × (upload machine.digest
        (agent link)
        4
        transfer
        (codes "pc")
        (codes "/l")
        target
        (calm_world here session)
      ≡ (ok tt, calm_world here t))
    × (t.disk.files target ≡ some (file b))
    × (t.disk.files (temp_path target transfer) ≡ none)
unfolding list_eq nat_eq validate_request ◌>>=◌ refuse_if trim_space
upload_delivers_example =
    upload_delivers link target transfer target b (λ p. refl) (λ s. (refl, refl, refl)) refl
      accepted resolves (λ e. temp_not_target (sym e)) not_meta own (omega arith) refl 4
      (codes "pc") (codes "/l") here before session refl refl (omega arith) serving tt temp-IsFree
      meta-IsFree

-- The control center's machine.
abbrev desk : Local
desk = record { digest = machine.digest; absolute = λ p. some p; temp_name = λ d. codes "/.t" }

abbrev desk_files : Files
desk_files q = if q == codes "/" then some (directory 0 []) else none

temp_not_local : codes "/.t" ≢ codes "/l"
unfolding list_eq nat_eq
temp_not_local = ne_of_==_false (codes "/.t") (codes "/l") refl

download_fetches_example :
    (files' : Files) × (t : Session) × (download desk
        (agent link)
        2
        (codes "pc")
        target
        (codes "/l")
        (calm_world desk_files session)
      ≡ (ok tt, calm_world files' t))
    × (files' (codes "/l") ≡ some (file (9 ∷ [])))
    × (files' (codes "/.t") ≡ none)
    × ((q : Text) → q ≢ codes "/.t" → q ≢ codes "/l" → files' q ≡ desk_files q)
    × (t.disk ≡ calm_disk before)
unfolding list_eq nat_eq validate_request ◌>>=◌ refuse_if trim_space dir clean
download_fetches_example =
    download_fetches link desk target target (9 ∷ []) (λ path o n. refl) (λ s. (refl, refl, refl))
      resolves (omega arith) refl refl 2 (codes "pc") (codes "/l") (codes "/l") 0 [] desk_files
      before session refl refl refl tt refl temp_not_local (omega arith) serving refl

fetched :
    (files' : Files) × (t : Session) × (download desk
        (agent link)
        2
        (codes "pc")
        target
        (codes "/l")
        (calm_world desk_files session)
      ≡ (ok tt, calm_world files' t))
    × (files' (codes "/l") ≡ some (file (9 ∷ [])))
    × (files' (codes "/.t") ≡ none)
    × ((q : Text) → q ≢ codes "/.t" → q ≢ codes "/l" → files' q ≡ desk_files q)
    × (t.disk ≡ calm_disk before)
unfolding list_eq nat_eq validate_request ◌>>=◌ refuse_if trim_space dir clean
fetched =
    download_fetches link desk target target (9 ∷ []) (λ path o n. refl) (λ s. (refl, refl, refl))
      resolves (omega arith) refl refl 2 (codes "pc") (codes "/l") (codes "/l") 0 [] desk_files
      before session refl refl refl tt refl temp_not_local (omega arith) serving refl

download_arrives_example :
    (fetched.0 (codes "/l") ≡ some (file (9 ∷ [])))
    × (fetched.0 (codes "/.t") ≡ none)
    × (fetched.1.disk.files target ≡ some (file (9 ∷ [])))
unfolding list_eq nat_eq
download_arrives_example =
    download_arrives link desk target target (9 ∷ []) (λ path o n. refl) (λ s. refl) resolves
      (omega arith) 2 (codes "pc") (codes "/l") (codes "/l") (calm_world desk_files session)
      (calm_world fetched.0 fetched.1) refl temp_not_local refl fetched.2

-- The file to upload and the directory for the download.
abbrev desk_with_file : Files
desk_with_file q = if q == codes "/l" then some (file b) else desk_files q

temp_not_copy : codes "/.t" ≢ codes "/m"
unfolding list_eq nat_eq
temp_not_copy = ne_of_==_false (codes "/.t") (codes "/m") refl

download-upload_example :
    (t t' : Session) × (files' : Files) × (upload machine.digest
        (agent link)
        4
        transfer
        (codes "pc")
        (codes "/l")
        target
        (calm_world desk_with_file session)
      ≡ (ok tt, calm_world desk_with_file t))
    × (download desk (agent link) 4 (codes "pc") target (codes "/m") (calm_world desk_with_file t)
        ≡ (ok tt, calm_world files' t'))
    × (files' (codes "/m") ≡ some (file b))
unfolding list_eq nat_eq validate_request ◌>>=◌ refuse_if trim_space dir clean
download-upload_example =
    download-upload link desk target transfer target b (λ p. refl) (λ path o n. refl)
      (λ s. (refl, refl, refl)) refl accepted resolves (λ e. temp_not_target (sym e)) not_meta own
      (omega arith) refl refl 4 (codes "pc") (codes "/l") (codes "/m") (codes "/m") 0 []
      desk_with_file before session (λ t. refl) (λ t. refl) refl (omega arith) serving tt
      temp-IsFree meta-IsFree refl refl tt refl temp_not_copy
