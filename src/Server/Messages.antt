-- ===== src/Server/Messages.antt =====
-- The messages of a thread, in the order in which they are handled.
use tin_locus.Base.{
  ℕ, ◌≡◌, refl, sym, ap, if◌then◌else◌, ◌∙◌, Bool, true, false, List, [], ◌∷◌, ◌++◌, Option, none,
  some, Result, ok, throws, undefined, ◌>>=◌,
}
use tin_locus.Message.{Message, MessageType}
use tin_locus.Server.{
  EpollOs, BasicThread, handle, read_message, returns, exits, add_epoll_event, change_epoll_event,
  erase_file_descriptor, changed, on_some,
}

-- Messages at which `readMessage` does not return.
abbrev pub AllKept : List Message → Type 0
AllKept [] = Unit {0}
AllKept (m ∷ ms) = (returns m.type ≡ false) × AllKept ms

pub adding-returns : returns MessageType.add_epoll_event ≡ false
unfolding returns
adding-returns = refl

last_choice :
    {A : Type 0} (b c : Bool) (x y z : A)
    → b ≡ false
    → c ≡ false
    → (if b then x else if c then y else z) ≡ z
last_choice b c x y z e f = rw (e, f) refl

module _ (os : EpollOs) (fd_of : ℕ → ℕ) where
  changed-exit :
      (t u : BasicThread os fd_of) (i : Option os.Interest)
      → changed os fd_of t i ≡ ok u
      → u.exit ≡ t.exit
  unfolding changed
  changed-exit t u none e = cc
  changed-exit t u (some i) e = cc

  on_some-exit :
      (t u : BasicThread os fd_of) (f : ℕ → Result (BasicThread os fd_of)) (o : Option ℕ)
      → ((x : ℕ) → f x ≡ ok u → u.exit ≡ t.exit)
      → on_some os fd_of t f o ≡ ok u
      → u.exit ≡ t.exit
  on_some-exit t u f none h e = cc
  on_some-exit t u f (some x) h e = h x e

  -- No such message makes the thread end.
  handle-exit :
      (k : MessageType) (m : Message) (t u : BasicThread os fd_of)
      → handle os fd_of k m t ≡ ok u
      → u.exit ≡ t.exit
  unfolding handle add_epoll_event change_epoll_event erase_file_descriptor
  handle-exit MessageType.add_epoll_event m t u e =
      on_some-exit t u _ m.epoll_event (λ x. changed-exit t u _) e
  handle-exit MessageType.change_epoll_event m t u e =
      on_some-exit t u _ m.epoll_event (λ x. changed-exit t u _) e
  handle-exit MessageType.erase_file_descriptor m t u e =
      on_some-exit t u _ m.file_descriptor (λ x f. cc) e
  handle-exit _ m t u e = cc

  pub read_message_step :
      (k : Message) (ms : List Message) (t : BasicThread os fd_of)
      → t.exit ≡ false
      → returns k.type ≡ false
      → read_message os fd_of (k ∷ ms) t
        ≡ (handle os fd_of k.type k t >>= λ u. read_message os fd_of ms u)
  unfolding read_message
  read_message_step k ms t e f = last_choice t.exit (returns k.type) _ _ _ e f

  -- An object that the kernel refuses.
  pub handle_refused :
      (m : Message) (event : ℕ) (t : BasicThread os fd_of)
      → m.epoll_event ≡ some event
      → os.ctl_add (fd_of event) t.flags event t.interest ≡ none
      → handle os fd_of MessageType.add_epoll_event m t ≡ throws
  unfolding handle add_epoll_event changed
  handle_refused m event t carried refused = rw (carried, refused)

  -- What is left when a close message is read.
  abbrev pub closed :
      List Message
      → Result (BasicThread os fd_of × List Message)
      → Result (BasicThread os fd_of × List Message)
  closed rest r = r >>= λ (u, ms). ok (record u { exit = true }, rest)

  after :
      (ms rest : List Message) (m : Message) (r : Result (BasicThread os fd_of))
      → ((u : BasicThread os fd_of)
          → r ≡ ok u
          → read_message os fd_of (ms ++ m ∷ rest) u ≡ closed rest (read_message os fd_of ms u))
      → (r >>= λ u. read_message os fd_of (ms ++ m ∷ rest) u)
        ≡ closed rest (r >>= λ u. read_message os fd_of ms u)
  after ms rest m (ok u) next = next u refl
  after ms rest m throws next = refl
  after ms rest m undefined next = refl

  -- A close message ends the thread after all messages before it, unless one of them throws, and
  -- those behind it stay in the queue.
  pub read_message_close :
      (ms rest : List Message) (m : Message) (t : BasicThread os fd_of)
      → t.exit ≡ false
      → AllKept ms
      → m.type ≡ MessageType.close
      → read_message os fd_of (ms ++ m ∷ rest) t ≡ closed rest (read_message os fd_of ms t)
  unfolding read_message returns exits
  read_message_close [] rest m t running kept h = rw (running, h)
  read_message_close (k ∷ ms) rest m t running kept h =
      read_message_step k (ms ++ m ∷ rest) t running kept.0
      ∙ after ms rest m (handle os fd_of k.type k t)
          (λ u e. read_message_close ms rest m u (handle-exit k.type k t u e ∙ running) kept.1 h)
      ∙ ap (closed rest) (sym (read_message_step k ms t running kept.0))
