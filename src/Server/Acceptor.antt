-- ===== src/Server/Acceptor.antt =====
-- server/src/server/Acceptor.cpp: the listening socket, and what becomes of each connection. What the
-- kernel answers is given; `close` is recorded.
use tin_locus.Base.{
  ℕ, ◌+◌, ◌/◌, ◌%◌, ◌≤◌, ◌<◌, ◌≡◌, refl, ◌⊎◌, inl, inr, Bool, false, List, [], ◌∷◌, ◌++◌, Option,
  none, some, Result, ok, throws, ◌==◌, if◌then◌else◌, arith, length, Bool-cases, ap,
}
use tin_locus.Message
use tin_locus.Message.{Message, MessageType}
use tin_locus.PipeBuffer.{PipeOs}
use tin_locus.BlockingQueue.{BlockingQueue, Wait, waits, done, push}
use tin_locus.BlockingQueue.Invariant.{Appends, push-Appends}
use tin_locus.Epoll
use tin_locus.Epoll.{EpollEvent}

-- What `socket`, `setsockopt` and `bind` answer to the constructor. What `listen` answers is not read.
pub record SocketOs : Type 0 where
  pub socket : Option ℕ
  pub set_reuse : ℕ → Bool
  pub bind : ℕ → Bool

-- `Acceptor(port, blockingQueue)`: the object, or an exception with the descriptors that are closed
-- as the base object is destroyed.
pub new_acceptor : SocketOs → Result EpollEvent × List ℕ
unfolding Epoll.new Epoll.set_file_descriptor Epoll.destroy
new_acceptor os = elim os.socket [
  | none ↦ (throws, [])
  | some fd ↦
      let e = Epoll.set_file_descriptor fd Epoll.new in
      if os.set_reuse fd
      then (if os.bind fd then (ok e, []) else (throws, Epoll.destroy e))
      else (throws, Epoll.destroy e)
]

-- What `accept` and `fcntl` answer to one call of `recv`.
pub record AcceptOs : Type 0 where
  pub accept : Option (ℕ × List ℕ)
  pub get_flags : ℕ → Option ℕ
  pub set_flags : ℕ → ℕ → Bool

-- `flags | O_NONBLOCK`
pub non_block : ℕ → ℕ
non_block flags = if flags / 2048 % 2 == 1 then flags else flags + 2048

-- `setNonBlock(sfd)`
pub set_non_block : AcceptOs → ℕ → Bool
unfolding non_block
set_non_block os fd = elim (os.get_flags fd) [
  | none ↦ false
  | some flags ↦ os.set_flags fd (non_block flags)
]

-- The message of a new connection.
pub announcement : ℕ → List ℕ → Message
unfolding Message.new
announcement fd addr = record (Message.new MessageType.add_client) {
  file_descriptor = some fd;
  sock_addr = some addr;
}

module _ (pipe : PipeOs) (default : Message) where
  -- The queue to which the acceptor pushes, and the descriptors that it closed.
  pub record Acceptor : Type 0 where
    pub blocking_queue : BlockingQueue pipe default
    pub closed : List ℕ

  -- `recv()` once the descriptor is set up.
  announced :
      Acceptor
      → Wait (Result (Unit {0}) × BlockingQueue pipe default)
      → Wait (Result (Unit {0}) × Acceptor)
  announced a waits = waits
  announced a (done (r, q)) = done (r, record a { blocking_queue = q })

  -- `recv()`
  pub recv : AcceptOs → Acceptor → Wait (Result (Unit {0}) × Acceptor)
  unfolding set_non_block announcement announced
  recv os a = elim os.accept [
    | none ↦ done (ok tt, a)
    | some (fd, addr) ↦
        if set_non_block os fd
        then announced a (push pipe default (announcement fd addr) a.blocking_queue)
        else done (ok tt, record a { closed = a.closed ++ fd ∷ [] })
  ]

-- A socket that the constructor opened is the object's own, or it is closed, unless it has the number
-- of a standard stream.
pub new_acceptor_lem :
    (os : SocketOs) (fd : ℕ)
    → os.socket ≡ some fd
    → 2 < fd
    → ((e : EpollEvent) × (new_acceptor os ≡ (ok e, [])) × (e.file_descriptor ≡ fd))
      ⊎ (new_acceptor os ≡ (throws, fd ∷ []))
unfolding new_acceptor
new_acceptor_lem os fd opened big = elim (Bool-cases (os.set_reuse fd)) [
  | inl reused ↦ elim (Bool-cases (os.bind fd)) [
    | inl bound ↦ inl (Epoll.set_file_descriptor fd Epoll.new, rw (opened, reused, bound), refl)
    | inr unbound ↦ inr (rw (opened, reused, unbound) (ap (λ l. (throws, l)) closes))
  ]
  | inr refused ↦ inr (rw (opened, refused) (ap (λ l. (throws, l)) closes))
]
  where
    closes : Epoll.destroy (Epoll.set_file_descriptor fd Epoll.new) ≡ fd ∷ []
    closes = ground arith

module _ (pipe : PipeOs) (default : Message) where
  -- What becomes of a connection.
  abbrev pub Accounts :
      ℕ → List ℕ → Acceptor pipe default → Wait (Result (Unit {0}) × Acceptor pipe default) → Type 0
  Accounts fd addr a waits = a.blocking_queue.max_queue_size ≤ length a.blocking_queue.queue
  Accounts fd addr a (done (r, b)) =
      ((b.closed ≡ a.closed)
        × (b.blocking_queue.queue ≡ a.blocking_queue.queue ++ announcement fd addr ∷ []))
      ⊎ ((b.closed ≡ a.closed ++ fd ∷ []) × (b.blocking_queue ≡ a.blocking_queue))

  announced-Accounts :
      (fd : ℕ) (addr : List ℕ) (a : Acceptor pipe default)
      (w : Wait (Result (Unit {0}) × BlockingQueue pipe default))
      → Appends pipe default (announcement fd addr) a.blocking_queue w
      → Accounts fd addr a (announced pipe default a w)
  unfolding announced
  announced-Accounts fd addr a waits h = h
  announced-Accounts fd addr a (done (r, q)) h = inl (refl, h)

  -- Every connection that is accepted is announced once at the end of the queue, or closed and not
  -- announced; `recv` waits only while the queue is full.
  pub recv-Accounts :
      (os : AcceptOs) (a : Acceptor pipe default) (fd : ℕ) (addr : List ℕ)
      → os.accept ≡ some (fd, addr)
      → Accounts fd addr a (recv pipe default os a)
  unfolding recv
  recv-Accounts os a fd addr came = elim (Bool-cases (set_non_block os fd)) [
    | inl set ↦
        rw (came, set)
          (announced-Accounts fd addr a _
            (push-Appends pipe default (announcement fd addr) a.blocking_queue))
    | inr not_set ↦ rw (came, not_set) (inr (refl, refl))
  ]
