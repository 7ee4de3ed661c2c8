-- ===== src/Lib.antt =====
-- Verification library of LAN Commander: an agent, agent/, that runs on each managed machine, and a
-- control center, control-center/, from which an operator runs commands on the agents, browses their
-- disks and moves files. The two talk by messages over a WebSocket.
--
-- The modules:
--   Base        what the others share: numbers, lists, dictionaries, results and actions that change a
--               state and may fail (Base.Exec), texts as lists of code points (Base.Text), decimal
--               numbers (Base.Decimal), the int64 of Go with its wrap-around (Base.Int).
--   Os          the standard library that the code calls: path/filepath on Unix (Os.Path), and package
--               os on the files of one machine (Os.Disk). Every call takes a fault from a list: it
--               passes, is refused without effect, or, if it writes, stops after some bytes. Theorems
--               without a condition on that list hold whatever the system does.
--   Agent.IpGuard   agent/internal/server/ipguard.go, a method for each function.
--   Agent.Files     agent/internal/filesystem/fs.go: SafePath is safePath, Listing is ListDir, Chunks
--               ReadFileChunk and WriteFileChunk, Upload WriteAtomicUploadChunk and CancelAtomicUpload,
--               Host the rest. A function becomes an action on the disk with the same guards in the
--               same order; the statements that undo a step before an error is returned stand beside
--               the error.
--   Agent.Executor  agent/internal/executor/executor.go. The run of the process is an argument.
--   Agent.Server    agent/internal/server/server.go and handlers.go: Server the clients and their
--               queues, Handlers the handlers, Connections the goroutines of the server as actions on
--               one state, in any order: the guard's answer to a new connection, the end of its
--               upgrade, the removal from the table and the release of the slot are actions each.
--   Agent.Audit     agent/internal/audit/audit.go: the log file and its rotation.
--   Agent.Startup   agent/cmd/lan-agent/main.go: the checks of the flags, and where the token comes from.
--   Control.Listing listDirPages of control-center/app.go.
--   Control.Transfer  control-center/backend/transfer/transfer.go: Download and Upload, with the rest of
--               the file beside the one that calls it. A transfer is an action on the local disk, on
--               the agent behind a requester, and on the answers that ctx.Err() is going to give. Remote
--               puts the session of the agent's handlers behind the requester.
--   Control.Client  control-center/backend/client/client.go: Handshake the greeting on a connection,
--               Agent the methods of one connection, Manager and Pumps those of the manager, Actions the
--               callers and goroutines as actions on one state, in any order, of which the begin of a
--               dial of reconnect and its end are two, and Reconnect the loop of reconnect as a whole.
--   Control.Audit   control-center/backend/audit/audit.go: the ring buffer, and the calls on a database
--               that is an interface, with the laws of a table where a theorem needs them.
--   Control.Scripts control-center/backend/scripting/engine.go: the store of scripts, in memory and on the
--               disk, and Execute the run of a script.
--   Control.Sessions  control-center/backend/session/session.go: the SQL statements are functions on the
--               rows of the table, each of which may be refused.
--
-- How the parts interact: Connections admits and releases connections by the guard and gives every
-- message to Handlers, which call Files and Executor on the disk of the machine and report failed
-- authentications to the guard. Control.Listing takes a request as an argument, and its theorem gives
-- it the agent's ListDir. Control.Transfer takes the requests as an argument too, and its Remote has them
-- answered by the agent's handleMessage.
-- The events that Agent.Server keeps are those that Agent.Audit writes, and the token that Agent.Startup
-- ends with is that of Agent.Server. Control.Scripts takes the execution of a command as an argument.
--
-- Bounds: time is in nanoseconds from a common origin, of which the zero time is 0. The loop of
-- listDirPages makes at most 12 requests, as in the source; its theorem shows that they are enough for
-- 5000 items. The loops of Download and Upload take fuel, one more than the file has bytes: a chunk that
-- is not the last has at least one, and the theorems that they return show that the fuel is enough.
--
-- Not modelled: Windows paths; texts that are not UTF-8; the order in which Go visits a map; details
-- of error texts and audit entries; timestamps of messages. The negative totals that a foreign agent
-- could send to listDirPages are left out. SHA-256 is any function, so its collisions are possible.
-- The absolute form of a local path, and the names that os.CreateTemp and uuid.NewString choose, are
-- arguments. strings.EqualFold is that of ASCII, since one of its arguments is hexadecimal. A
-- directory does not list the files that are created in it: theorems on a listing take it as
-- given. JSON, text/template, SQLite, the environment and the clock are arguments. The opening and
-- the migration of the database of sessions, its backups, Wake-on-LAN and the rest of the
-- application are not modelled; the system monitor, the screenshots, mDNS, the user interfaces and
-- the installers are calls of other libraries.
pub mod Base
pub mod Os
pub mod Agent
pub mod Control
