-- ===== src/Server.antt =====
-- server/src/server/ClientManager and BasicThread, with the calls of epoll in
-- server/src/epoll/EPollManager.cpp that change what a thread waits for. The kernel's epoll instance
-- is a parameter, and so are the addresses of new objects. What is pushed to a queue is a list.
pub mod Clients
pub mod Messages
pub mod Threads
pub mod Acceptor
pub mod Erase
pub mod Tests
use tin_locus.Base.{
  ℕ, ◌+◌, ◌^◌, Bool, true, false, List, [], ◌∷◌, ◌++◌, Option, none, some, Result, ok, throws,
  ◌>>=◌, if◌then◌else◌, nat_eq,
}
use tin_locus.Base.Dict.{Dict, lookup, insert, erase}
use tin_locus.Message
use tin_locus.Message.{Message, MessageType}
use tin_locus.Message.Names.{unexpected}

-- What `epoll_ctl` does with a descriptor, for the flags and the pointer of an `epoll_event`; `none`
-- is an error. `EPOLL_CTL_DEL` is not checked.
pub record EpollOs : Type 1 where
  pub Interest : Type 0
  pub ctl_add : (fd flags event : ℕ) → Interest → Option Interest
  pub ctl_mod : (fd flags event : ℕ) → Interest → Option Interest
  pub ctl_del : ℕ → Interest → Interest

-- Whether `readMessage` returns at a message, and whether it makes the thread end.
pub returns : MessageType → Bool
returns MessageType.empty = true
returns MessageType.close = true
returns _ = false

pub exits : MessageType → Bool
exits MessageType.close = true
exits _ = false

-- `EPOLLIN`, `EPOLLOUT` and `EPOLLET`: bits that `|` joins.
abbrev pub epollin : ℕ
epollin = 1

abbrev pub epollout : ℕ
epollout = 4

abbrev pub epollet : ℕ
epollet = 2 ^ 31

module _ (os : EpollOs) (fd_of : ℕ → ℕ) where
  -- `BasicThread`, of which `fd_of` gives the descriptor of the event at an address.
  pub record BasicThread : Type 0 where
    pub exit : Bool
    pub flags : ℕ
    pub interest : os.Interest

  -- `BasicThread(name)` and `setFlags(flags)` in the constructors of `Server`, `Receiver` and `Sender`,
  -- with the new epoll instance.
  pub new_thread : ℕ → os.Interest → BasicThread
  new_thread flags interest = record { exit = false; flags = flags; interest = interest }

  pub new_server : os.Interest → BasicThread
  unfolding new_thread
  new_server interest = new_thread (epollin + epollet) interest

  pub new_receiver : os.Interest → BasicThread
  unfolding new_thread
  new_receiver interest = new_thread (epollin + epollet) interest

  pub new_sender : os.Interest → BasicThread
  unfolding new_thread
  new_sender interest = new_thread (epollout + epollet) interest

  pub changed : BasicThread → Option os.Interest → Result BasicThread
  changed t none = throws
  changed t (some i) = ok (record t { interest = i })

  -- `addEPollEvent(newEvent)` and `changeEPollEvent(newEvent)`
  pub add_epoll_event : ℕ → BasicThread → Result BasicThread
  unfolding changed
  add_epoll_event event t = changed t (os.ctl_add (fd_of event) t.flags event t.interest)

  pub change_epoll_event : ℕ → BasicThread → Result BasicThread
  unfolding changed
  change_epoll_event event t = changed t (os.ctl_mod (fd_of event) t.flags event t.interest)

  -- `eraseFileDescriptor(socketID)`
  pub erase_file_descriptor : ℕ → BasicThread → BasicThread
  erase_file_descriptor fd t = record t { interest = os.ctl_del fd t.interest }

  -- What is done with the pointer that a message carries, if it does.
  abbrev pub on_some : BasicThread → (ℕ → Result BasicThread) → Option ℕ → Result BasicThread
  on_some t f none = ok t
  on_some t f (some x) = f x

  -- A message of a type that `readMessage` handles without leaving its loop.
  pub handle : MessageType → Message → BasicThread → Result BasicThread
  unfolding add_epoll_event change_epoll_event erase_file_descriptor unexpected
  handle MessageType.add_epoll_event m t = on_some t (λ e. add_epoll_event e t) m.epoll_event
  handle MessageType.change_epoll_event m t = on_some t (λ e. change_epoll_event e t) m.epoll_event
  handle MessageType.erase_file_descriptor m t =
      on_some t (λ fd. ok (erase_file_descriptor fd t)) m.file_descriptor
  handle kind m t = unexpected t kind

  -- `readMessage()`, on the messages that are in the queue: the thread, and those that are left.
  pub read_message : List Message → BasicThread → Result (BasicThread × List Message)
  unfolding handle returns exits
  read_message [] t = ok (t, [])
  read_message (m ∷ ms) t =
      if t.exit
      then ok (t, m ∷ ms)
      else if returns m.type
      then ok (record t { exit = exits m.type }, ms)
      else (handle m.type m t >>= λ u. read_message ms u)

pub record ClientManager : Type 0 where
  pub clients_map : Dict ℕ ℕ
  pub to_server : List Message
  pub to_receiver : List Message
  pub to_sender : List Message

-- A message `AddEPollEvent` with an event.
pub event_message : ℕ → Message
event_message event = record (Message.new MessageType.add_epoll_event) { epoll_event = some event }

-- A message `EraseClient` with a descriptor, as `SimpleClient::closeConnection` and `main` push it.
pub erase_message : ℕ → Message
unfolding Message.new
erase_message fd = record (Message.new MessageType.erase_client) { file_descriptor = some fd }

-- `addClient(fileDescriptor, sock_addr)`, where the new client and its buffer stand at two addresses
-- unless the constructor of one of the layers throws. `emplace` keeps a client that is there and
-- destroys the new one with its buffer, which the receiver and the sender are told of all the same.
pub add_client : ℕ → Result (ℕ × ℕ) → ClientManager → Result ClientManager
unfolding event_message
add_client fd created c =
    (created >>= λ (client, client_buffer).
    let m = insert fd client c.clients_map in
    let at : ℕ = elim (lookup fd c.clients_map) [ none ↦ client | some old ↦ old ] in
    ok (record {
      clients_map = m;
      to_server = c.to_server ++ event_message at ∷ [];
      to_receiver = c.to_receiver ++ event_message client_buffer ∷ [];
      to_sender = c.to_sender ++ event_message client_buffer ∷ [];
    }))

-- `eraseClient(fileDescriptor)`
pub erase_client : ℕ → ClientManager → ClientManager
erase_client fd c = elim (lookup fd c.clients_map) [
  | none ↦ c
  | some client ↦ record c { clients_map = erase fd c.clients_map }
]

-- `recv()`, on the message that `pop_for` returned.
pub recv : Message → Result (ℕ × ℕ) → ClientManager → Result ClientManager
unfolding add_client erase_client unexpected
recv m created c = elim m.type [
  | MessageType.add_client ↦ elim m.file_descriptor [
    | none ↦ ok c
    | some fd ↦ elim m.sock_addr [ none ↦ ok c | some addr ↦ add_client fd created c ]
  ]
  | MessageType.erase_client ↦ elim m.file_descriptor [
    | none ↦ ok c
    | some fd ↦ ok (erase_client fd c)
  ]
  | MessageType.empty ↦ ok c
  | MessageType.close ↦ ok c
  | _ ↦ unexpected c m.type
]
