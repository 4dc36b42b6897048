-- ===== src/Protocol/Tests.antt =====
-- ProtocolClient.cpp on a connection whose symmetric key was just sent back.
use tin_locus.Database.Manager.{register_client}
use tin_locus.Protocol.Delivery.{text_of, recv_packet-send_packet}
use tin_locus.ClientBuffer.Send.Loop.{all_taken}
use tin_locus.ClientBuffer.Send.Frame.{framed}
use tin_locus.Packet.{Packet}
use tin_locus.ClientBuffer.{Handled}
use tin_locus.Base.{
  ℕ, length, List, take, drop, ◌≡◌, refl, false, inl, [], ◌∷◌, ◌++◌, ok, throws, some, arith,
  replicate, length-replicate, sym, ap, subst,
}
use tin_locus.Buffer
use tin_locus.Buffer.{Buffer}
use tin_locus.Buffer.Invariant.{IsValid, contents}
use tin_locus.ClientBuffer.{ClientBuffer}
use tin_locus.ClientBuffer
use tin_locus.ClientBuffer.Send
use tin_locus.ClientBuffer.Send.{took}
use tin_locus.Base.Step.{updated}
use tin_locus.Packet
use tin_locus.Packet.PacketType.{Header, to_uint8, to_packet_type}
use tin_locus.Converter.{to_bytes, from_bytes, object}
use tin_locus.Crypto.{
  Algorithm, encrypt, decrypt, encrypt_by, decrypt_by, use_algorithm, get_outer_rsa_key,
  get_encryption_key,
}
use tin_locus.Crypto.Tests.{toy, module_using}
use tin_locus.Database.Manager
use tin_locus.Message.{MessageType}
use tin_locus.Protocol.{
  World, Stage, using, on_crypto, recv_packet, encrypt_recv, simple_recv, decrypted, send_packet,
  encrypt_send, encrypted, simple_send, close_connection,
}
use tin_locus.Protocol.Handshake.{
  test_key, accept_test_key, self_register, outer_key, register, set_stage, is_header,
}
use tin_locus.Protocol.Session.{Machine, recv, receive_data}
use tin_locus.Protocol.Recv.{Onward, Untouched, recv-Onward, recv-Untouched}
use tin_locus.Database.ClientData.{Position}
use tin_locus.Base.Int.{pos}
use tin_locus.Protocol.Tested.{receive_data_tested}

abbrev pub machine : Machine
machine = record {
  string_object = λ s. replicate 32 0;
  now = 1000;
  garbage = 0;
  length-string_object = λ s. length-replicate {A = ℕ} 32 0;
}

-- The frame of a `TEST_KEY` packet has come.
abbrev received : Buffer
received = record {
  buffer = (7 ∷ 11 ∷ 3 ∷ 4 ∷ []) ∷ [];
  buffer_max_size = 4;
  buffer_size = 4;
  stage = Buffer.Stage.full;
}

abbrev pub client : ClientBuffer
client = record {
  file_descriptor = 5;
  close = false;
  buffer_in = received;
  buffer_out = record {
    buffer = [];
    buffer_max_size = 0;
    buffer_size = 0;
    stage = Buffer.Stage.empty;
  };
  client_blocking_queue = some 100;
}

abbrev pub testing : World toy
testing = record {
  client_buffer = client;
  crypto_module = module_using Algorithm.aes;
  stage = Stage.test_key;
  remaining_packets = [];
  id = 0;
  blocking_queue = 100;
  manager = Manager.new;
  kernel = took 2 ∷ took 2 ∷ [];
  wire = [];
  own_messages = [];
  erase_clients = [];
  notices = [];
}

abbrev starting : World toy
starting = record testing { stage = Stage.set_public_key }

recv-Onward_example :
    Onward testing.stage (recv toy machine MessageType.packet_receive testing).1.stage
recv-Onward_example = recv-Onward toy machine MessageType.packet_receive testing

recv-Untouched_example :
    Untouched toy machine starting (recv toy machine MessageType.packet_receive starting).1
recv-Untouched_example = recv-Untouched toy machine MessageType.packet_receive starting tt

abbrev tested : World toy
tested = (test_key toy testing).1

abbrev pub emptied : Buffer
emptied = record { buffer = []; buffer_max_size = 4; buffer_size = 0; stage = Buffer.Stage.empty }

emptied-IsValid : IsValid emptied
emptied-IsValid = record { counted = refl; bounded = omega arith }

-- The packet is accepted; nothing is left to read, and AES is in use.
test_key_accepts :
    (test_key toy testing ≡ (ok tt, tested))
    × (tested.client_buffer.buffer_in ≡ emptied)
    × (decrypt toy [] tested.crypto_module ≡ throws)
unfolding test_key accept_test_key self_register outer_key register set_stage is_header using
    on_crypto updated recv_packet encrypt_recv simple_recv decrypted send_packet encrypt_send
    encrypted simple_send close_connection Send.recv_data Send.send_data Send.send Send.send_size
    Send.send_loop Send.send_bytes Buffer.pop Buffer.pop_n Buffer.pop_loop Buffer.pop_all
    Buffer.is_empty Buffer.size Buffer.new Buffer.set_stage Buffer.set_max_size Buffer.push_back
    Buffer.push_front Packet.new Packet.push Packet.parse Packet.encode Packet.decode
    Packet.add_type_to_buffer to_uint8 to_packet_type encrypt decrypt encrypt_by decrypt_by
    use_algorithm get_outer_rsa_key get_encryption_key to_bytes from_bytes object
test_key_accepts = (refl, refl, refl)

receive_data_tested_example :
    (receive_data toy machine testing).1.erase_clients
    ≡ tested.erase_clients ++ tested.client_buffer.file_descriptor ∷ []
receive_data_tested_example =
    receive_data_tested toy machine testing tested refl test_key_accepts.0
      (subst IsValid (sym test_key_accepts.1) emptied-IsValid) (ap contents test_key_accepts.1)
      (inl test_key_accepts.2)

abbrev somewhere : Position
somewhere = record { latitude = 50; longitude = 60; time = pos 7 }

-- A `SET_NAME` packet, from a client that has nothing to send to one that has nothing to read.
abbrev naming : Packet
naming = record {
  type = Header.set_name;
  buffer = record {
    buffer = (97 ∷ 98 ∷ []) ∷ [];
    buffer_max_size = 0;
    buffer_size = 2;
    stage = Buffer.Stage.empty;
  };
}

abbrev quiet_client : ClientBuffer
quiet_client = record client { buffer_in = record emptied { buffer_max_size = 0 } }

abbrev naming_cipher : List ℕ
naming_cipher = 7 ∷ text_of naming

abbrev sender : World toy
sender = record testing {
  client_buffer = quiet_client;
  kernel = all_taken (framed naming_cipher quiet_client.buffer_out) [];
}

abbrev reader : World toy
reader = record testing { client_buffer = quiet_client }

naming_encrypted :
    encrypt toy (text_of naming) sender.crypto_module ≡ ok (naming_cipher, sender.crypto_module)
unfolding encrypt
naming_encrypted = refl

naming_size : length naming_cipher ≡ 4
unfolding to_uint8
naming_size = refl

recv_packet-send_packet_example :
    (w : World toy) × (frame : List ℕ) × (h : Handled) × (v : World toy) × (b : Buffer)
    × (send_packet toy naming sender ≡ (ok tt, w))
    × (w.wire ≡ sender.wire ++ frame)
    × (ClientBuffer.recv reader.client_buffer
          (ClientBuffer.bytes (take 2 frame) ∷ ClientBuffer.bytes (drop 2 frame) ∷ [])
        ≡ ok h)
    × (recv_packet toy (record reader { client_buffer = h.state })
        ≡ (ok (record { type = naming.type; buffer = b }), v))
    × (contents b ≡ contents naming.buffer)
recv_packet-send_packet_example =
    recv_packet-send_packet toy tt tt tt naming Algorithm.aes sender reader naming_cipher
      sender.crypto_module (record { counted = refl; bounded = omega arith }) (omega arith) refl
      refl (refl, (naming_cipher, refl)) naming_encrypted (omega (arith, naming_size))
      (omega (arith, naming_size))
      (record {
        open_now = refl;
        valid = record { counted = refl; bounded = omega arith };
        clear = refl;
      })
      (record {
        open_now = refl;
        stage = refl;
        valid = record { counted = refl; bounded = omega arith };
        nothing = refl;
      })
      refl
