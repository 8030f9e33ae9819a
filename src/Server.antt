-- ===== src/Server.antt =====
-- ocssd_libevent_server.cc: the server, which keeps the devices, accepts clients and hands each event of
-- a socket to the connection that it belongs to.
pub mod Start
pub mod Whole
pub mod Events
pub mod Runs
use light_nvm.Base.{
  is_same, ℕ, zero, suc, ◌+◌, List, [], ◌∷◌, ◌++◌, drop, length, map, set, get_elem?, Bool, true,
  false, Option, none, some, if◌then◌else◌, ◌||◌,
}
use light_nvm.Base.Int.{ℤ, pos, negsuc, is_negative}
use light_nvm.Base.Partial.{◌>>=◌}
use light_nvm.Vssd.Member.{NvmGeo}
use light_nvm.Conn.Publish.{Entity, entity_of}
use light_nvm.Device.Manager.{OcssdManager, add_ocssd}
use light_nvm.Device.Manager
use light_nvm.Conn.Nvm.{Nvm}
use light_nvm.Conn.Queue.{Bufferq, WriteResult}
use light_nvm.Conn.Queue
use light_nvm.Conn.Queue.Runs.{fired}
use light_nvm.Conn.Receive.{ReadResult}
use light_nvm.Conn.Handlers.{Conn, Handled, returned, raised, connect, process_incoming_requests}

-- An entry of the list that `getifaddrs` gives: the name, and the text of the address if it is an IPv4 one.
pub record Interface : Type 0 where
  pub name : List ℕ
  pub ipv4 : Option (List ℕ)

-- The loop over the list, which is empty where `getifaddrs` fails.
unfoldable pub get_ip : List Interface → List ℕ
get_ip [] = []
get_ip (i ∷ rest) = elim i.ipv4 [
  | none ↦ get_ip rest
  | some text ↦ if is_same (b'e' ∷ b'n' ∷ b'o' ∷ b'1' ∷ []) i.name then text else get_ip rest
]

-- The function of the same name in this file: the same as that of a connection.
unfoldable pub publish_resource : OcssdManager → List Entity × ℕ
unfolding entity_of
publish_resource m = (map entity_of m.ocssds, length m.ocssds)

-- `"/dev/nvme" + std::to_string(i) + "n1"`, of an `i` below 10.
abbrev pub device_path : ℕ → List ℕ
device_path i =
    (b'/' ∷ b'd' ∷ b'e' ∷ b'v' ∷ b'/' ∷ b'n' ∷ b'v' ∷ b'm' ∷ b'e' ∷ [])
    ++ ((b'0' + i) ∷ b'n' ∷ b'1' ∷ [])

-- The rounds of the loop that are left, from `i` on; `none` is the exception of a device that cannot be
-- opened, which ends the process. `exists` says which paths there are.
unfoldable pub add_devices :
    (List ℕ → Bool) → (List ℕ → Option NvmGeo) → ℕ → ℕ → OcssdManager → Option OcssdManager
unfolding add_ocssd
add_devices exists opened zero i m = some m
add_devices exists opened (suc rounds) i m =
    (if exists (device_path i) then add_ocssd opened m (device_path i) else some m) >>= λ m'.
    add_devices exists opened rounds (i + 1) m'

-- The manager, and what is published; `new` never gives NULL.
unfoldable pub initialize_ocssd_manager :
    (List ℕ → Bool)
    → (List ℕ → Option NvmGeo)
    → List Interface
    → Option (OcssdManager × List Entity)
unfolding add_devices get_ip Manager.make publish_resource
initialize_ocssd_manager exists opened interfaces = do
  m ← add_devices exists opened 1 1 (Manager.make (get_ip interfaces))
  some (m, (publish_resource m).0)

-- What `fcntl` gives for F_GETFL, and for F_SETFL of the flags that it is handed; `nonblock` is
-- `flags | O_NONBLOCK`.
unfoldable pub setnonblock : (ℤ → ℤ) → ℤ → (ℤ → ℤ) → ℤ
setnonblock nonblock getfl setfl =
    if is_negative getfl
    then getfl
    else if is_negative (setfl (nonblock getfl))
    then negsuc 0
    else pos 0

-- How `main` comes to the event loop: it returns early, `err`, an exception or undefined behaviour ends the process, or the
-- loop starts.
pub data Started : Type 0 where
  early : ℤ → Started
  ended : Started
  ready : OcssdManager → List Entity → Started

-- What the system gives for the listening socket: the results of `socket`, `setsockopt`, `bind`, `listen`
-- and of the two calls of `fcntl`.
pub record Listening : Type 0 where
  pub socket : ℤ
  pub setsockopt : ℤ
  pub bind : ℤ
  pub listen : ℤ
  pub getfl : ℤ
  pub setfl : ℤ → ℤ

-- `setsockopt(...) == -1`
abbrev pub is_minus_one : ℤ → Bool
is_minus_one (pos n) = false
is_minus_one (negsuc zero) = true
is_minus_one (negsuc (suc n)) = false

-- `main` from `socket` on to the event loop.
unfoldable pub listen_on : (ℤ → ℤ) → Listening → Started → Started
unfolding setnonblock
listen_on nonblock l loop =
    if is_negative l.socket
    then ended
    else if is_minus_one l.setsockopt
    then ended
    else if is_negative l.bind
    then ended
    else if is_negative l.listen
    then ended
    else if is_negative (setnonblock nonblock l.getfl l.setfl)
    then ended
    else loop

-- `main` before the event loop; `base_given` says that `event_base_new` gave a base. -12 is -ENOMEM.
unfoldable pub main :
    (ℤ → ℤ)
    → Bool
    → (List ℕ → Bool)
    → (List ℕ → Option NvmGeo)
    → List Interface
    → Listening
    → Started
unfolding initialize_ocssd_manager listen_on
main nonblock base_given exists opened interfaces l =
    if base_given
    then elim (initialize_ocssd_manager exists opened interfaces) [
      | none ↦ ended
      | some (m, published) ↦ listen_on nonblock l (ready m published)
    ]
    else early (negsuc 11)

module _ (nvm : Nvm) (malloc : ℕ → Option (List ℕ)) where
  -- The manager and the devices are those that all connections share: what a connection holds of them is
  -- put in place when an event is handed to it.
  pub record Server : Type 0 where
    pub manager : OcssdManager
    pub dev : nvm.Device
    pub clients : List (Conn nvm malloc)

  -- The server as it comes to the event loop.
  abbrev pub started : OcssdManager → nvm.Device → Server
  started m d = record { manager = m; dev = d; clients = [] }

  -- What libevent reports: a connection to accept, or a socket of a client that is ready, with the results
  -- of the calls that the handler makes. `fuel` is for the loop of `initialize_vssd_blocks`.
  pub data Event : Type 0 where
    accept_ready : ℤ → Event
    read_ready : ℕ → ℕ → List ReadResult → Event
    write_ready : ℕ → WriteResult → Event

  -- The server goes on, or the process ends by `err` or an exception.
  pub data Reacted : Type 0 where
    running : Server → Reacted
    exited : Reacted

  abbrev pub lend : Server → Conn nvm malloc → Conn nvm malloc
  lend s c = record c { manager = s.manager; blocks = record (c.blocks) { dev = s.dev } }

  abbrev pub give_back : ℕ → Conn nvm malloc → Server → Server
  give_back i c s = record { manager = c.manager; dev = c.blocks.dev; clients = set s.clients i c }

  -- `client_fd` is what `accept` gives. A socket that cannot be set to non-blocking is only warned about.
  unfoldable pub on_accept : ℤ → Server → Server
  unfolding connect
  on_accept client_fd s =
      if is_minus_one client_fd
      then s
      else record s { clients = s.clients ++ connect nvm malloc s.manager s.dev ∷ [] }

  -- The event is reported for the client of index `i`.
  unfoldable pub on_read : ℕ → ℕ → List ReadResult → Server → Option Reacted
  unfolding process_incoming_requests
  on_read fuel i reads s = do
    c ← get_elem? s.clients i
    (h, rest) ← process_incoming_requests nvm malloc fuel reads (lend s c)
    elim h [ raised ↦ some exited | returned n c' ↦ some (running (give_back i c' s)) ]

  unfoldable pub on_write : ℕ → WriteResult → Server → Option Reacted
  unfolding Queue.on_write
  on_write i result s = do
    c ← get_elem? s.clients i
    o ← Queue.on_write result (fired c.writer)
    elim o [
      | Queue.exited ↦ some exited
      | Queue.returned w ↦
          some (running (record s { clients = set s.clients i (record c { writer = w }) }))
    ]

  -- The event loop hands an event to its handler.
  unfoldable pub react : Event → Server → Option Reacted
  unfolding on_accept on_read on_write
  react (accept_ready client_fd) s = some (running (on_accept client_fd s))
  react (read_ready fuel i reads) s = on_read fuel i reads s
  react (write_ready i result) s = on_write i result s
