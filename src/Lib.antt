-- ===== src/Lib.antt =====
-- The Locus server, a C++ program under server/src: clients connect over TCP, agree on keys, and then
-- tell the server their positions, which it passes on to those that may follow them.
--
-- How the parts work together. A thread per task waits on an epoll instance. The receiver calls
-- `ClientBuffer::recv`, which collects a frame and puts `PacketReceive` into the client's
-- `BlockingQueue`; the pipe of that queue wakes the server thread, which calls `ProtocolClient::recv`.
-- That takes the bytes of the frame out of the buffer, through `SimpleClient` and `EncryptClient`,
-- makes a `Packet` of them, and acts on it by the stage of the connection; the last stage works on the
-- `ClientDataManager`. Packets go out the same way back, through `ClientBuffer::send`.
--
-- Which file models which part (paths below server/src):
--   Base            conventions: lists, Booleans, dictionaries, integers, how a call ends, steps
--   Buffer          buffer/Buffer: the queue of chunks; Counter is `pop(n)` with its `int` counters; Bytes,
--                   Invariant, Drain and Reference prove it
--   BlockingBuffer  buffer/BlockingBuffer: the same buffer under a mutex, as sections of several threads
--                   in any order; Schedule proves it
--   BlockBuffer     buffer/BlockBuffer: the queue of blocks; Objects and Order prove it
--   Converter       buffer/Converter.h: objects as bytes
--   PipeBuffer      buffer/PipeBuffer: the pipe that wakes a reader; the kernel's pipe is a parameter
--   BlockingQueue   message/BlockingQueue.h; Invariant and Pop prove it
--   Message         message/Message, message/ErrorType.h; Order proves it, Names is `toString`
--   Packet          packet/Packet and `sendPacket`, `recvPacket` of client/Client.cpp as far as they
--                   make bytes; PacketType the types and codes, Names `toString`
--   Database        ClientData is database/Position, Watcher and ClientData, Order their comparisons;
--                   Manager is database/ClientDataManager, with the graph of followers (Graph,
--                   Mutual), registration, notices and names in its children; Calls is any sequence
--                   of calls: Invariant carries a property through it, History, NameTable,
--                   NameHistory and Numbers use that, Refused adds the pushes of the notices, which
--                   may throw, and Reported and Reach follow a position to a follower. Archive is
--                   the members `serialize` of these classes, Storage is database/Database, which
--                   reads and saves the manager: Restart proves what a saved file gives back, and
--                   Broken what a damaged one does; the library cereal is a parameter, and so is
--                   what the file holds
--   ClientBuffer    client/ClientBuffer; Receive and Arrive prove its receiving half; Send is its
--                   sending half with `sendData` and `recvData` of client/SimpleClient.cpp, which
--                   Loop, Frame, Conserve, Willing, Progress and Finish prove; Transfer joins the two
--   Crypto          crypto/CryptoModule and the guards of crypto/Crypto.cpp; Rsa, RoundTrip and
--                   Returns prove it; Index is `encryptRSA` with its `int` index; Keys is `CryptoModule()` with the two key files, which are
--                   given as a function, and Aes the class AESCrypto; Crypto++ is a parameter. Tools
--                   is crypto/keysGenerator.cpp, genServerKeys.cpp and testProgram.cpp, which
--                   Generated and Tried prove; what is generated and which files open are given
--   Protocol        client/SimpleClient, EncryptClient, Client; Handshake and Session are
--                   client/ProtocolClient.cpp; Frames, Stages, Onward, Recv, Tested and Updates
--                   prove it; Delivery is a packet from one client to another; Accepts, Exchange
--                   and Agreement are the steps of the handshake with a partner that keeps to it,
--                   Rounds and Complete the whole of it; Layers compares the `recv` of the layers
--   Epoll           epoll/EPollEvent and `readEPoll` of epoll/EPollManager.cpp; Dispatch proves it
--   Server          server/ClientManager, server/BasicThread.cpp and the calls of
--                   epoll/EPollManager.cpp that change what is waited for; the kernel's epoll is a
--                   parameter; Clients, Messages and Erase prove it. Threads is the loop of
--                   `BasicThread::operator()`, Acceptor is server/Acceptor
--   Main            main.cpp; Console proves its console
--   Log             log/Logger: what is written to which stream; Shown proves it
--   TestClient      simple-client/test_client.cpp; Sending, Lines, Typed and Program prove it; Signals is
--                   signal_handlers.cpp. The kernel, what
--                   is typed and what `std::cin` makes of it are given as states and answers
-- A module Tests holds runs at concrete inputs.
--
-- Conventions. A function of the model has the source's name in snake case and the object it works
-- on as its last argument, and returns the object after the call; a call ends in a `Result`: a
-- value, `throws`, or `undefined` behaviour. What the kernel answers is a list that the calls use
-- up. A `size_t` wraps at 64 bits, a `short` is its pattern of 16 bits, a float its pattern of 32
-- bits, a `time_t` an integer. What a call sends to other objects (messages, notices) is returned as
-- a list, and the exception of a push that a full pipe refuses is outside such a call; BlockingQueue
-- has that exception, and Database/Manager/Calls/Refused puts it into the calls of the manager,
-- whose pushes come after all their writes.
--
-- Loops and bounds. The loops recur on what they consume: the chunks of a buffer, the answers of the
-- kernel, the watchers of a client. The block loops of `encryptRSA` and `decryptRSA` have as many
-- rounds as the text has bytes, which is enough since a block takes at least one; out of rounds the
-- result is `undefined`. The `int` index of these loops and the `int` counters of `Buffer::pop(n)`
-- are not bounded there: they stand for texts and chunks shorter than 2 ^ 31 bytes. Crypto/Index and
-- Buffer/Counter have the bounded ones and show that they agree below that size; Buffer/Reference
-- and BlockingBuffer use the bounded ones. The loop of a thread recurs on what the kernel answers in
-- each round, and the loop of the console on a number of rounds; a run that has used them up says
-- that it has not ended. The input loop of the test client has rounds as well, of which one for each
-- character that is typed and one more are enough; its `send_message` recurs on the answers of the
-- kernel.
--
-- Not modelled: how long `pop_for` waits for an element, which is time that passes without a change;
-- what an unsynchronised read of `popAll` gives while another thread is at work, which is undefined;
-- the bytes of a public key that loads and is not valid, which stay in the object; starting and
-- joining the threads, and, but for the sections of BlockingBuffer, what happens between two
-- critical sections; what cereal, Crypto++ and the kernel do, which are parameters; the text of the
-- messages that the program logs (what is undefined in making it is modelled), and the colours of
-- the console, a class of a test library; the random texts that the tests use; the port of the test
-- client and the texts it prints; the Android client.
pub mod Base
pub mod Buffer
pub mod Converter
pub mod Packet
pub mod BlockBuffer
pub mod BlockingBuffer
pub mod PipeBuffer
pub mod BlockingQueue
pub mod Message
pub mod Database
pub mod ClientBuffer
pub mod Crypto
pub mod Protocol
pub mod Epoll
pub mod Server
pub mod TestClient
pub mod Main
pub mod Log
