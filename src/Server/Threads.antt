-- ===== src/Server/Threads.antt =====
-- `BasicThread::operator()` in server/src/server/BasicThread.cpp, round by round: what has come into
-- the queue when a round begins, and what `epoll_wait` returns in it, is given.
use tin_locus.Base.{
  ℕ, ◌≡◌, refl, ap, ◌∙◌, true, false, List, [], ◌∷◌, ◌++◌, Option, none, some, Result, ok, throws,
  undefined, ◌>>=◌, if◌then◌else◌,
}
use tin_locus.Base.Step.{Step}
use tin_locus.Message.{Message, MessageType}
use tin_locus.Epoll.{Event, read_epoll}
use tin_locus.Epoll.Dispatch.{methods, served, AllDefined, read_epoll_lem}
use tin_locus.Server.{EpollOs, BasicThread, handle, read_message}
use tin_locus.Server.Messages.{
  AllKept, read_message_close, read_message_step, adding-returns, handle_refused,
}

pub record Round : Type 0 where
  pub arrived : List Message
  pub waited : Option (List Event)

module _ (os : EpollOs) (fd_of : ℕ → ℕ) {S : Type 0} (recv send : ℕ → Step S (Unit {0})) where
  -- A thread with its queue, and the objects of which it calls the methods.
  pub record Running : Type 0 where
    pub thread : BasicThread os fd_of
    pub queue : List Message
    pub world : S

  after_events : BasicThread os fd_of → List Message → Result (Unit {0}) × S → Result Running
  after_events t q (ok a, w) = ok (record { thread = t; queue = q; world = w })
  after_events t q (throws, w) = throws
  after_events t q (undefined, w) = undefined

  -- `readMessage(); ePollManager.readEPoll();`
  pub thread_round : Round → Running → Result Running
  unfolding after_events
  thread_round r u = read_message os fd_of (u.queue ++ r.arrived) u.thread >>= λ (t, q).
      after_events t q (read_epoll recv send r.waited u.world)

  -- `operator()()`, for some rounds. An exception that leaves it ends the program.
  pub thread_loop : List Round → Running → Result Running
  unfolding thread_round
  thread_loop [] u = ok u
  thread_loop (r ∷ rs) u =
      if u.thread.exit then ok u else (thread_round r u >>= λ v. thread_loop rs v)

  thread_loop_step :
      (r : Round) (rs : List Round) (u : Running)
      → u.thread.exit ≡ false
      → thread_loop (r ∷ rs) u ≡ (thread_round r u >>= λ v. thread_loop rs v)
  unfolding thread_loop
  thread_loop_step r rs u running =
      ap (λ b. if b then ok u else (thread_round r u >>= λ v. thread_loop rs v)) running

  -- A thread that ended stays as it is.
  thread_loop_ended :
      (rs : List Round) (u : Running) → u.thread.exit ≡ true → thread_loop rs u ≡ ok u
  unfolding thread_loop
  thread_loop_ended [] u e = refl
  thread_loop_ended (r ∷ rs) u e = rw e

  -- In the round in which a close message is in the queue, behind messages that are handled without
  -- an exception, the thread still makes every call that the events ask for and then ends, whatever
  -- comes later, as long as none of these calls is undefined.
  pub thread_loop_close :
      (ms rest : List Message) (m : Message) (arrived : List Message) (es : List Event)
      (rs : List Round) (u : Running) (t : BasicThread os fd_of)
      → u.thread.exit ≡ false
      → u.queue ++ arrived ≡ ms ++ m ∷ rest
      → AllKept ms
      → m.type ≡ MessageType.close
      → read_message os fd_of ms u.thread ≡ ok (t, [])
      → AllDefined recv send (methods es) u.world
      → thread_loop (record { arrived = arrived; waited = some es } ∷ rs) u
        ≡ ok (record {
          thread = record t { exit = true };
          queue = rest;
          world = served recv send (methods es) u.world;
        })
  unfolding thread_round after_events
  thread_loop_close ms rest m arrived es rs u t running order kept close before defined =
      thread_loop_step (record { arrived = arrived; waited = some es }) rs u running
      ∙ rw
          (
            order,
            read_message_close os fd_of ms rest m u.thread running kept close,
            before,
            read_epoll_lem recv send es u.world defined,
          )
          (thread_loop_ended rs _ refl)

  -- When the kernel refuses the object of the first message of a round, the exception leaves the
  -- thread's function: no other message and no event is handled.
  pub thread_loop_refused :
      (m : Message) (rest arrived : List Message) (waited : Option (List Event)) (event : ℕ)
      (rs : List Round) (u : Running)
      → u.thread.exit ≡ false
      → u.queue ++ arrived ≡ m ∷ rest
      → m.type ≡ MessageType.add_epoll_event
      → m.epoll_event ≡ some event
      → os.ctl_add (fd_of event) u.thread.flags event u.thread.interest ≡ none
      → thread_loop (record { arrived = arrived; waited = waited } ∷ rs) u ≡ throws
  unfolding thread_round
  thread_loop_refused m rest arrived waited event rs u running order type carried refused =
      thread_loop_step (record { arrived = arrived; waited = waited }) rs u running
      ∙ rw (
        order,
        read_message_step os fd_of m rest u.thread running (rw type adding-returns),
        handled m.type type,
      )
    where
      handled :
          (k : MessageType)
          → k ≡ MessageType.add_epoll_event
          → handle os fd_of k m u.thread ≡ throws
      handled k e = rw e (handle_refused os fd_of m event u.thread carried refused)
