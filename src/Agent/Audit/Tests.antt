-- ===== src/Agent/Audit/Tests.antt =====
-- An audit log at concrete inputs: a line is the action of its event.
use lan_commander.Base.{
  ℕ, ◌≢◌, refl, none, some, Option, List, [], ◌∷◌, arith, if◌then◌else◌, ◌==◌, nat_eq, list_eq,
  ne_of_==_false,
}
use lan_commander.Base.Text.{Text, codes}
use lan_commander.Os.Path.{dir}
use lan_commander.Os.Disk.{Bytes, file, directory, Files, calm_disk}
use lan_commander.Agent.Audit.{Event, backup}
use lan_commander.Agent.Audit.Rotation.{Stands, logger}
use lan_commander.Agent.Audit.Newest.{KeepsNewest, lines_of, log_all, log_all-KeepsNewest}

abbrev path : Text
path = codes "/v/a"

abbrev files : Files
files p =
    if p == codes "/v" then some (directory 0 []) else if p == path then some (file []) else none

apart : path ≢ dir path
unfolding dir nat_eq list_eq
apart = ne_of_==_false _ _ refl

backup_apart : backup path ≢ dir path
unfolding dir nat_eq list_eq
backup_apart = ne_of_==_false _ _ refl

abbrev event : ℕ → Event
event n = record {
  time = n;
  action = codes "exec";
  result = codes "ok";
  remote = [];
  client = [];
  user = [];
  detail = [];
}

abbrev marshal : Event → Option Bytes
marshal e = some e.action

abbrev events : List (ℕ × Event)
events = (1, event 0) ∷ (2, event 0) ∷ (3, event 0) ∷ []

start : Stands path [] none files
unfolding dir nat_eq list_eq
start = record { log_is = refl; backup_is = refl; free = tt; size = 0; items = []; dir_is = refl }

log_all-KeepsNewest_example :
    let w = log_all marshal events (logger path 12 0, calm_disk files) in
    KeepsNewest path 12 apart backup_apart ([] ∷ lines_of marshal events) w.0 w.1
log_all-KeepsNewest_example =
    log_all-KeepsNewest path 12 apart backup_apart marshal events files [] none start (omega arith)
      (omega arith, (omega arith, (omega arith, tt)))
