-- ===== src/Server/Tests.antt =====
-- ClientManager and BasicThread at concrete inputs; the epoll instance is the list of descriptors.
use tin_locus.Server.Threads.{Running, thread_loop, thread_loop_close}
use tin_locus.Server.Acceptor.{Acceptor, AcceptOs, Accounts, recv-Accounts}
use tin_locus.Server.Acceptor
use tin_locus.Epoll.Dispatch.{methods, served}
use tin_locus.Epoll.Tests.{
  client_recv, client_send, connected, three_events, three_events-AllDefined,
}
use tin_locus.PipeBuffer.{counter}
use tin_locus.Base.{true, ℕ, ◌≡◌, refl, false, List, [], ◌∷◌, none, some, ok, nat_eq}
use tin_locus.Base.Dict.{lookup}
use tin_locus.Message
use tin_locus.Message.{Message, MessageType}
use tin_locus.Server.{EpollOs, BasicThread, ClientManager, read_message, returns}

abbrev manager : ClientManager
manager = record { clients_map = (4, 64) ∷ []; to_server = []; to_receiver = []; to_sender = [] }

five_free : lookup 5 manager.clients_map ≡ none
unfolding lookup
five_free = refl

abbrev listed : EpollOs
listed = record {
  Interest = List ℕ;
  ctl_add = λ fd flags event i. some (fd ∷ i);
  ctl_mod = λ fd flags event i. some i;
  ctl_del = λ fd i. i;
}

abbrev waiting : BasicThread listed (λ e. e)
waiting = record { exit = false; flags = 1; interest = [] }

abbrev adding : List Message
adding = record (Message.new MessageType.add_epoll_event) { epoll_event = some 80 } ∷ []

abbrev closing : Message
closing = Message.new MessageType.close

adding_kept : returns MessageType.add_epoll_event ≡ false
unfolding returns
adding_kept = refl

-- The thread that waits for its first object, with a connection that it is to serve.
abbrev thread : Running listed (λ e. e) client_recv client_send
thread = record { thread = waiting; queue = adding; world = connected }

adding_read :
    read_message listed (λ e. e) adding waiting ≡ ok (record waiting { interest = 80 ∷ [] }, [])
unfolding read_message Message.new
adding_read = refl

thread_loop_close_example :
    thread_loop listed
      (λ e. e)
      client_recv
      client_send
      (record { arrived = closing ∷ closing ∷ []; waited = some three_events } ∷ [])
      thread
    ≡ ok (record {
      thread = record waiting { exit = true; interest = 80 ∷ [] };
      queue = closing ∷ [];
      world = served client_recv client_send (methods three_events) connected;
    })
unfolding Message.new
thread_loop_close_example =
    thread_loop_close listed (λ e. e) client_recv client_send adding (closing ∷ []) closing
      (closing ∷ closing ∷ []) three_events [] thread (record waiting { interest = 80 ∷ [] }) refl
      refl (adding_kept, tt) refl adding_read three_events-AllDefined

-- A connection with the descriptor 5, for which `fcntl` works.
abbrev connecting : AcceptOs
connecting = record {
  accept = some (5, 2 ∷ []);
  get_flags = λ fd. some 2;
  set_flags = λ fd flags. true;
}

abbrev acceptor : Acceptor (counter 9) closing
acceptor = record {
  blocking_queue = record {
    queue = [];
    priority = [];
    max_queue_size = 1000;
    pipe_buffer = record { pipe_read_fd = 3; pipe_write_fd = 4; pipe = 0 };
  };
  closed = [];
}

recv-Accounts_example :
    Accounts
      (counter 9)
      closing
      5
      (2 ∷ [])
      acceptor
      (Acceptor.recv (counter 9) closing connecting acceptor)
recv-Accounts_example = recv-Accounts (counter 9) closing connecting acceptor 5 (2 ∷ []) refl
