-- ===== src/Protocol/Session.antt =====
-- server/src/client/ProtocolClient.cpp: what a registered client may ask, what it is told, and the
-- dispatch of messages. Of an object of `std::string` the program sends the bytes of the object
-- itself, which are a parameter; so is what `std::time` returns.
use tin_locus.Base.{
  ℕ, ◌+◌, ◌-◌, ◌%◌, ◌^◌, Bool, not, ◌&&◌, List, [], ◌∷◌, ◌++◌, ltb, ◌==◌, if◌then◌else◌, Result, ok,
  ◌≡◌, length,
}
use tin_locus.Base.Int.{signed_64, pattern_64}
use tin_locus.Base.Step.{Step, pure, lift, updated, catch, ◌>>=◌}
use tin_locus.Buffer
use tin_locus.Buffer.{Buffer}
use tin_locus.Converter.{to_bytes, from_bytes}
use tin_locus.Packet
use tin_locus.Packet.{Packet}
use tin_locus.Packet.PacketType.{Header}
use tin_locus.Message.{MessageType}
use tin_locus.Message.Names.{unexpected}
use tin_locus.Crypto.{CryptoPp}
use tin_locus.Database.ClientData.{Position}
use tin_locus.Database.Manager
use tin_locus.Database.Manager.{Manager}
use tin_locus.Protocol.{World, Stage, close_connection, send_packet, recv_packet, contents_of}
use tin_locus.Protocol.Handshake.{set_public_key, set_symmetric_key, test_key}

-- What the program reads of the machine: the bytes of a `std::string` object that holds a string,
-- the clock, and the bytes that an uninitialised `time_t` has on the stack.
pub record Machine : Type 0 where
  pub string_object : List ℕ → List ℕ
  pub now : ℕ
  pub garbage : ℕ
  pub length-string_object : (s : List ℕ) → length (string_object s) ≡ 32

-- `id > 0` for a pattern of 16 bits.
pub is_positive : ℕ → Bool
is_positive id = ltb 0 id && ltb id (2 ^ 15)

module _ (lib : CryptoPp) (machine : Machine) where
  -- `setName(packet)`
  unfoldable pub set_name : Packet → Step (World lib) (Unit {0})
  set_name packet = do
    name ← contents_of lib packet
    res ← λ w.
        updated w
          (λ ((done, m, notices) : Bool × Manager × List ℕ). record w {
            manager = m;
            notices = w.notices ++ notices;
          })
          (λ (done, m, notices). done) (Manager.set_name w.id name w.manager)
    send_packet lib (Packet.new (if res then Header.ack_ok else Header.ack_err))

  -- A call of the database that changes it and notifies clients.
  unfoldable pub on_manager :
      (ℕ → Manager → Result (Manager × List ℕ)) → Step (World lib) (Unit {0})
  on_manager f w =
      updated w
        (λ ((m, notices) : Manager × List ℕ). record w {
          manager = m;
          notices = w.notices ++ notices;
        })
        (λ _. tt) (f w.id w.manager)

  unfoldable pub without_notices : Result Manager → Result (Manager × List ℕ)
  without_notices r = elim r [
    | ok m ↦ ok (m, [])
    | Result.throws ↦ Result.throws
    | Result.undefined ↦ Result.undefined
  ]

  unfoldable pub name_id : List ℕ → Step (World lib) ℕ
  name_id name w = (ok (Manager.get_name_id name w.manager), w)

  -- The client that a packet names, for a call that takes it.
  unfoldable pub for_named :
      Packet → (ℕ → ℕ → Manager → Result (Manager × List ℕ)) → Step (World lib) (Unit {0})
  unfolding is_positive
  for_named packet f = do
    name ← contents_of lib packet
    follower_id ← name_id name
    if is_positive follower_id then on_manager (λ id. f id follower_id) else pure tt

  -- `addFollower(packet)`
  unfoldable pub add_follower : Packet → Step (World lib) (Unit {0})
  add_follower packet = for_named packet Manager.add_follower

  -- `removeFollower(packet)`
  unfoldable pub remove_follower : Packet → Step (World lib) (Unit {0})
  remove_follower packet =
      for_named packet (λ id f m. without_notices (Manager.remove_follower id f m))

  -- `removeFollowed(packet)`
  unfoldable pub remove_followed : Packet → Step (World lib) (Unit {0})
  remove_followed packet =
      for_named packet (λ id f m. without_notices (Manager.stop_following id f m))

  -- `from_bytes(packet.getBuffer().pop(4), object)`, for an object of `w` bytes.
  unfoldable pub read_4 : ℕ → ℕ → Buffer → Step (World lib) (ℕ × Buffer)
  read_4 w old b = do
    (bytes, rest) ← lift (Buffer.pop_n 4 b)
    n ← lift (from_bytes w bytes old)
    pure (n, rest)

  -- `myLocation(packet)`
  unfoldable pub my_location : Packet → Step (World lib) (Unit {0})
  my_location packet = if not (Buffer.size packet.buffer == 16) then close_connection lib else do
    (latitude, b) ← read_4 4 0 packet.buffer
    (longitude, c) ← read_4 4 0 b
    (delta_time, d) ← read_4 8 machine.garbage c
    on_manager (λ id.
        Manager.add_position id latitude longitude
          (signed_64 ((machine.now + 2 ^ 64 - delta_time) % 2 ^ 64)))

  unfoldable pub answer : Header → Packet → Step (World lib) (Unit {0})
  answer Header.close packet = close_connection lib
  answer Header.set_name packet = set_name packet
  answer Header.add_follower packet = add_follower packet
  answer Header.remove_follower packet = remove_follower packet
  answer Header.remove_followed packet = remove_followed packet
  answer Header.my_location packet = my_location packet
  answer _ packet = pure tt

  -- `stableCommunication()`
  unfoldable pub stable_communication : Step (World lib) (Unit {0})
  stable_communication =
      catch (do packet ← recv_packet lib; answer packet.type packet) (close_connection lib)

  -- `sendRemainingData()`
  abbrev pub send_first : List Packet → Step (World lib) (Unit {0})
  send_first [] = pure tt
  send_first (p ∷ ps) = do
    sent ← send_packet lib p
    λ w. (ok tt, record w { remaining_packets = ps })

  unfoldable pub send_remaining_data : Step (World lib) (Unit {0})
  send_remaining_data w = send_first w.remaining_packets w

  -- `receiveData()`; the case of `TestKey` has no `break`.
  unfoldable pub receive_on : Stage → Step (World lib) (Unit {0})
  receive_on Stage.set_public_key = set_public_key lib
  receive_on Stage.set_symmetric_key = set_symmetric_key lib
  receive_on Stage.test_key = do tested ← test_key lib; stable_communication
  receive_on Stage.stable_communication = stable_communication
  receive_on Stage.exit = pure tt

  unfoldable pub receive_data : Step (World lib) (Unit {0})
  receive_data w = receive_on w.stage w

  -- The packets of `update()`.
  unfoldable pub name_packet : ℕ × List ℕ → Packet
  name_packet (id, name) =
      Packet.push (machine.string_object name)
        (Packet.push (to_bytes 2 id) (Packet.new Header.new_followed))

  unfoldable pub location_packet : ℕ × Position → Packet
  location_packet (id, p) = Packet.push (to_bytes 8 (pattern_64 p.time)) (
      Packet.push (to_bytes 4 p.longitude) (
        Packet.push (to_bytes 4 p.latitude)
          (Packet.push (to_bytes 2 id) (Packet.new Header.location))))

  abbrev pub push_all {ℓ} : {A : Type ℓ} → (A → Packet) → List A → List Packet → List Packet
  push_all f [] ps = ps
  push_all f (x ∷ xs) ps = push_all f xs (ps ++ f x ∷ [])

  unfoldable pub push_names : Step (World lib) (Unit {0})
  push_names w =
      updated w
        (λ ((names, m) : List (ℕ × List ℕ) × Manager). record w {
          manager = m;
          remaining_packets = push_all name_packet names w.remaining_packets;
        })
        (λ _. tt) (Manager.get_new_names w.id w.manager)

  unfoldable pub push_positions : Step (World lib) (Unit {0})
  push_positions w =
      updated w
        (λ ((positions, m) : List (ℕ × Position) × Manager). record w {
          manager = m;
          remaining_packets = push_all location_packet positions w.remaining_packets;
        })
        (λ _. tt) (Manager.get_new_positions w.id w.manager)

  -- `update()`
  unfoldable pub update_on : Stage → Step (World lib) (Unit {0})
  update_on Stage.stable_communication = do
    names ← push_names
    positions ← push_positions
    send_remaining_data
  update_on _ = send_remaining_data

  unfoldable pub update : Step (World lib) (Unit {0})
  update w = update_on w.stage w

  -- `recv()`, on the message that `pop_for` returned.
  unfoldable pub recv : MessageType → Step (World lib) (Unit {0})
  unfolding unexpected
  recv MessageType.empty = pure tt
  recv MessageType.close = close_connection lib
  recv MessageType.packet_send = send_remaining_data
  recv MessageType.packet_receive = receive_data
  recv MessageType.update = update
  recv m = lift (unexpected tt m)

  -- What the constructor sends.
  unfoldable pub start : Step (World lib) (Unit {0})
  start = send_packet lib (Packet.new Header.open_encr)

  -- The destructor: the database after it.
  unfoldable pub finish : World lib → Manager
  unfolding is_positive
  finish w = if is_positive w.id then Manager.unregister w.id w.manager else w.manager
