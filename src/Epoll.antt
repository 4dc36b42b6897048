-- ===== src/Epoll.antt =====
-- server/src/epoll/EPollEvent and `readEPoll` of server/src/epoll/EPollManager.cpp: who closes a
-- descriptor, and how the events of the kernel reach the objects. What is registered with the kernel
-- is in the module Server.
pub mod Dispatch
pub mod Tests
use tin_locus.Base.{
  ℕ, zero, suc, ◌/◌, ◌%◌, Bool, true, false, List, [], ◌∷◌, Option, none, some, Result, ok, throws,
  undefined, ltb, ◌==◌, if◌then◌else◌,
}
use tin_locus.Base.Step.{Step, pure, caught, then_on, ◌>>=◌}

-- `EPollEvent`
pub record EpollEvent : Type 0 where
  pub file_descriptor : ℕ

unfoldable pub new : EpollEvent
new = record { file_descriptor = 0 }

-- `setFileDescriptor(fileDescriptor)`
unfoldable pub set_file_descriptor : ℕ → EpollEvent → EpollEvent
set_file_descriptor fd e = record e { file_descriptor = fd }

-- `EPollEvent(EPollEvent &&ePollEvent)`: the new object, and what it leaves of the other.
pub move_from : EpollEvent → EpollEvent × EpollEvent
move_from e = (record { file_descriptor = e.file_descriptor }, record e { file_descriptor = 0 })

-- `~EPollEvent()`: the descriptor that is closed.
unfoldable pub destroy : EpollEvent → List ℕ
destroy e = if ltb 2 e.file_descriptor then e.file_descriptor ∷ [] else []

-- An `epoll_event` that `epoll_wait` wrote: `events`, and `data.ptr`.
pub record Event : Type 0 where
  pub events : ℕ
  pub object : ℕ

-- `events & EPOLLIN` and `events & EPOLLOUT`
pub is_in : Event → Bool
is_in e = e.events % 2 == 1

pub is_out : Event → Bool
is_out e = e.events / 4 % 2 == 1

-- The virtual methods `recv` and `send` of the object at an address.
module _ {S : Type 0} (recv send : ℕ → Step S (Unit {0})) where
  -- The body of the loop of `readEPoll`, within its `try`.
  pub dispatch : Event → Step S (Unit {0})
  unfolding is_in is_out
  dispatch e = if is_in e then recv e.object else if is_out e then send e.object else pure tt

  -- The loop, on the events that are left. What is caught is logged only.
  pub dispatch_all : List Event → Step S (Unit {0})
  unfolding dispatch
  dispatch_all [] = pure tt
  dispatch_all (e ∷ es) = (λ s. caught (dispatch e s) (pure tt)) >>= λ _. dispatch_all es

  -- `readEPoll()`, by what `epoll_wait` returns: an error, or the events.
  pub read_epoll : Option (List Event) → Step S (Unit {0})
  unfolding dispatch_all
  read_epoll none = pure tt
  read_epoll (some es) = dispatch_all es
