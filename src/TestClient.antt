-- ===== src/TestClient.antt =====
-- server/src/simple-client/test_client.cpp: a client for trying the server by hand, which sends what
-- is typed and prints what comes. What the kernel answers is given.
pub mod Sending
pub mod Lines
pub mod Typed
pub mod Program
pub mod Signals
pub mod Tests
use tin_locus.Base.{
  ℕ, zero, suc, ◌+◌, Bool, true, false, not, ◌||◌, List, [], ◌∷◌, ◌++◌, ltb, ◌==◌, if◌then◌else◌,
  length, take, drop,
}

-- `MSG_BUF_SIZE`
abbrev pub msg_buf_size : ℕ
msg_buf_size = 100

-- What `::send` answers: how many bytes it took of those that it was given, or an error.
pub data Answer : Type 0 where
  took : ℕ → Answer
  failed : Answer

-- How a function ends: it returns, or ends the program with EXIT_FAILURE; `going` says that the
-- answers or rounds that are given are used up before.
pub data Ended : Type 0 where
  returned failure going : Ended

-- What went out, the answers that are unused, and the end.
pub record Sent : Type 0 where
  pub wire : List ℕ
  pub answers : List Answer
  pub ended : Ended

abbrev pub sent_before : List ℕ → Sent → Sent
sent_before bytes s = record s { wire = bytes ++ s.wire }

-- The loop of `send_message`, from the bytes that are sent in total on.
unfoldable pub send_loop : ℕ → List ℕ → List Answer → Sent
send_loop total message [] = record { wire = []; answers = []; ended = Ended.going }
send_loop total message (failed ∷ rest) = record {
  wire = [];
  answers = rest;
  ended = Ended.failure;
}
send_loop total message (took n ∷ rest) =
    let out = take n (drop total message) in
    let more = send_loop (total + length out) message rest in
    if ltb (total + length out) (length message)
    then sent_before out more
    else record { wire = out; answers = rest; ended = Ended.returned }

-- `send_message(socket_fd, message, msg_size)`
unfoldable pub send_message : List ℕ → List Answer → Sent
unfolding send_loop
send_message message answers = send_loop 0 message answers

-- `std::cin`: the text that is left, `eofbit` and `failbit`.
pub record Cin : Type 0 where
  pub text : List ℕ
  pub eof : Bool
  pub fail : Bool

-- `'\n'`
abbrev pub newline : ℕ
newline = 10

-- The characters before the end of the line, `n` at most, what is left, and whether the input ended.
unfoldable pub take_line : ℕ → List ℕ → List ℕ × List ℕ × Bool
take_line zero text = ([], text, false)
take_line (suc n) [] = ([], [], true)
take_line (suc n) (c ∷ cs) =
    let (line, rest, end) = take_line n cs in
    if c == newline then ([], c ∷ cs, false) else (c ∷ line, rest, end)

abbrev pub is_nil : List ℕ → Bool
is_nil [] = true
is_nil (c ∷ cs) = false

-- `std::cin.get(message_buffer, MSG_BUF_SIZE)`: what is in the buffer then.
unfoldable pub get : Cin → List ℕ × Cin
unfolding take_line
get c =
    let (line, rest, end) = take_line 99 c.text in
    if c.eof || c.fail
    then ([], record c { fail = true })
    else (line, record { text = rest; eof = end; fail = is_nil line })

-- The characters that `while (std::cin.peek() == '\n')` leaves; `peek` at the end sets `eofbit`.
unfoldable pub skip_newlines : List ℕ → List ℕ × Bool
skip_newlines [] = ([], true)
skip_newlines (c ∷ cs) =
    let rest = skip_newlines cs in if c == newline then rest else (c ∷ cs, false)

abbrev skipped : Cin → Cin
skipped c = let (rest, end) = skip_newlines c.text in record c { text = rest; eof = end }

-- The `eofbit` that the reading thread may set; one that it sets within a round ends the loop like
-- one that it sets before the next `get`.
abbrev pub first : List Bool → Bool
first [] = false
first (b ∷ bs) = b

abbrev pub later : List Bool → List Bool
later [] = []
later (b ∷ bs) = bs

-- What follows a call that may end the program.
abbrev pub and_then : Sent → (List Answer → Sent) → Sent
and_then s more = elim s.ended [
  | returned ↦ sent_before s.wire (more s.answers)
  | failure ↦ s
  | going ↦ s
]

abbrev pub nothing_sent : List Answer → Sent
nothing_sent answers = record { wire = []; answers = answers; ended = Ended.returned }

-- The loop of `main`, with the rounds that it may take.
unfoldable pub input_loop : ℕ → List Bool → Cin → List Answer → Sent
unfolding get skip_newlines send_message
input_loop zero closes cin answers = record { wire = []; answers = answers; ended = Ended.going }
input_loop (suc rounds) closes cin answers =
    let (line, c) = get (record cin { eof = cin.eof || first closes }) in
    let more = λ (rest : List Answer). input_loop rounds (later closes) (skipped c) rest in
    if c.fail
    then nothing_sent answers
    else and_then (if ltb 0 (length line) then send_message line answers else nothing_sent answers)
        (λ rest. if c.eof then nothing_sent rest else more rest)

-- What `::recv` answers the reading thread.
pub data Received : Type 0 where
  bytes : List ℕ → Received
  shutdown error : Received

-- What `reading_thread_routine` prints, and whether it has ended, with `eofbit` set.
unfoldable pub reading_thread_routine : List Received → List (List ℕ) × Bool
reading_thread_routine [] = ([], false)
reading_thread_routine (error ∷ rest) = ([], true)
reading_thread_routine (shutdown ∷ rest) = ([], true)
reading_thread_routine (bytes message ∷ rest) =
    let (printed, ended) = reading_thread_routine rest in (message ∷ printed, ended)

-- The calls of `main` that end the program when they fail.
pub data Call : Type 0 where
  sigint sigterm sigquit sigtstp sigcont : Call
  socket connect getpeername getsockname : Call
  attr_init attr_setdetachstate create attr_destroy : Call
  close : Call

-- What the kernel says: which calls fail, and the sizes of the two addresses.
pub record Kernel : Type 0 where
  pub refuses : Call → Bool
  pub remote_addr_len : ℕ
  pub local_addr_len : ℕ

abbrev pub some_true : List Bool → Bool
some_true [] = false
some_true (b ∷ bs) = b || some_true bs

-- `sizeof (struct sockaddr_in)`
abbrev pub addr_size : ℕ
addr_size = 16

-- The checks of `main` before its loop: whether one of them fails. The tests of an address size that
-- is too large and of one that is another are two in the source.
unfoldable pub setup_fails : Kernel → Bool
setup_fails k = some_true (
    k.refuses Call.sigint
    ∷ k.refuses Call.sigterm
    ∷ k.refuses Call.sigquit
    ∷ k.refuses Call.sigtstp
    ∷ k.refuses Call.sigcont
    ∷ k.refuses Call.socket
    ∷ k.refuses Call.connect
    ∷ k.refuses Call.getpeername
    ∷ ltb addr_size k.remote_addr_len
    ∷ not (k.remote_addr_len == addr_size)
    ∷ k.refuses Call.getsockname
    ∷ ltb addr_size k.local_addr_len
    ∷ not (k.local_addr_len == addr_size)
    ∷ k.refuses Call.attr_init
    ∷ k.refuses Call.attr_setdetachstate
    ∷ k.refuses Call.create
    ∷ k.refuses Call.attr_destroy
    ∷ [])

-- `main`: it returns EXIT_SUCCESS where it returns.
unfoldable pub main : Kernel → ℕ → List Bool → List ℕ → List Answer → Sent
unfolding setup_fails input_loop
main k rounds closes text answers =
    if setup_fails k
    then record { wire = []; answers = answers; ended = Ended.failure }
    else and_then
        (input_loop rounds closes (record { text = text; eof = false; fail = false }) answers)
        (λ rest.
          if k.refuses Call.close
          then record { wire = []; answers = rest; ended = Ended.failure }
          else nothing_sent rest)
