-- ===== src/Ipc/Server.antt =====
-- src/ipc/socket.rs: the life of the socket, `IpcServer`. The state is whether a file is at the
-- path, and whether the server listens; each call of the file system can fail. `run` is the
-- sequence of the connections that are accepted.
use palingenesis.Prelude.{Bool, true, false, Option, List, [], ◌∷◌, Result, ok, err}
use palingenesis.Prelude.Io.{Io, ◌>>◌, give, call_or}
use palingenesis.Prelude.Text.{Text, codes}
use palingenesis.Monitor.Frontmatter.{IoError, other}
use palingenesis.Ipc.Protocol.{DaemonStatus}
use palingenesis.Ipc.Socket.{DaemonStateAccess, Read, handle_connection}

pub data IpcError : Type 0 where
  ipc_io : IoError → IpcError
  already_bound not_bound : IpcError

pub record IpcServer : Type 0 where
  pub exists : Bool
  pub listener : Bool

-- `IpcServer::new` and `with_path`, at a path.
abbrev pub new_server : (exists : Bool) → IpcServer
new_server exists = record { exists = exists; listener = false }

pub record BindFaults : Type 0 where
  pub remove_stale : Option IoError
  pub has_parent : Bool
  pub create_dir_all : Option IoError
  pub set_parent_permissions : Option IoError
  pub bind : Option IoError
  pub set_permissions : Option IoError

abbrev pub Step : Type 0
Step = Io IpcServer IpcError (Unit {0})

abbrev pub call : Option IoError → Step
call = call_or ipc_io

abbrev pub set_exists : Bool → Step
set_exists exists s = (ok tt, record s { exists = exists })

-- `remove_file`, if the path exists.
unfoldable pub cleanup : Option IoError → Step
cleanup fault s = elim (s.exists) [
  | false ↦ (ok tt, s)
  | true ↦ (do call fault; set_exists false) s
]

abbrev pub need_parent : Bool → Step
need_parent true = give (ok tt)
need_parent false = give (err (ipc_io (other (codes "Socket path has no parent directory"))))

abbrev pub bind_new : BindFaults → Step
bind_new faults = do
  cleanup faults.remove_stale
  need_parent faults.has_parent
  call faults.create_dir_all
  call faults.set_parent_permissions
  call faults.bind
  set_exists true
  call faults.set_permissions
  λ s. (ok tt, record s { listener = true })

unfoldable pub bind : BindFaults → Step
unfolding cleanup codes
bind faults s = elim (s.listener) [ true ↦ (err already_bound, s) | false ↦ bind_new faults s ]

-- `Drop`: an error is logged.
unfoldable pub drop_server : Option IoError → IpcServer → IpcServer
unfolding cleanup
drop_server fault s = (cleanup fault s).1

-- What `accept` gives, until the cancellation.
pub data Accepted : Type 0 where
  accepted : Read → Accepted
  accept_failed : IoError → Accepted

module _ {F T : Type 0} (access : DaemonStateAccess F T) (json : DaemonStatus F → Text) where
  abbrev pub accept_all : List Accepted → T → List (Result (Option Text) IoError) × T
  accept_all [] t = ([], t)
  accept_all (accept_failed e ∷ inputs) t = accept_all inputs t
  accept_all (accepted input ∷ inputs) t =
      let (answer, t') = handle_connection access json input t in
      let (answers, t'') = accept_all inputs t' in (answer ∷ answers, t'')

  -- The answers of the connections, taken one after the other.
  unfoldable pub run :
      IpcServer → List Accepted → T → Result (List (Result (Option Text) IoError)) IpcError × T
  unfolding handle_connection
  run s inputs t = elim (s.listener) [
    | false ↦ (err not_bound, t)
    | true ↦ let (answers, t') = accept_all inputs t in (ok answers, t')
  ]
