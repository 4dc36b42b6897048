-- ===== src/Protocol/Rounds.antt =====
-- One round of the handshake of server/src/client/ProtocolClient.cpp: a frame comes in through
-- `ClientBuffer::recv`, and `receiveData` acts on it.
use tin_locus.Base.{
  ℕ, ◌+◌, ◌^◌, ◌<◌, ◌≡◌, refl, sym, ap, ◌∙◌, false, List, [], ◌∷◌, ◌++◌, Result, ok, throws, ◌>>=◌,
  length, some,
}
use tin_locus.Base.Step.{then_on}
use tin_locus.Buffer
use tin_locus.Buffer.{Buffer}
use tin_locus.Buffer.Invariant.{IsValid, contents}
use tin_locus.Converter.{to_bytes}
use tin_locus.Message.{MessageType}
use tin_locus.Packet.PacketType.{Header, to_uint8}
use tin_locus.ClientBuffer
use tin_locus.ClientBuffer.{ClientBuffer, bytes, notify}
use tin_locus.ClientBuffer.Arrive.{recv_frame}
use tin_locus.ClientBuffer.Send.{Taken}
use tin_locus.ClientBuffer.Send.Loop.{all_taken}
use tin_locus.ClientBuffer.Send.Frame.{framed, all_taken-framed}
use tin_locus.Crypto.{CryptoPp, Algorithm, decrypt, decrypt_by, decrypt_rsa, use_algorithm}
use tin_locus.Protocol.{World, Stage}
use tin_locus.Protocol.Session.{Machine, receive_data, receive_on, stable_communication}
use tin_locus.Protocol.Delivery.{IsClear, IsReady}
use tin_locus.Protocol.Exchange.{HasPacket, Takes, Answered, frame_of}
use tin_locus.Protocol.Agreement.{receive_symmetric_key, test_key_registers}
use tin_locus.Protocol.Tested.{stable_communication_silent}
use tin_locus.Database.Manager.{register_client}

-- A text that makes one frame.
pub record IsFrame (cipher : List ℕ) : Type 0 where
  pub some_byte : 0 < length cipher
  pub short : length cipher < 2 ^ 16

-- What the kernel answers when it takes one frame.
abbrev pub taken : List ℕ → List Taken
taken cipher = all_taken (framed cipher Buffer.new) []

module _ (lib : CryptoPp) where
  -- A client whose frame has come.
  abbrev pub holds : World lib → Buffer → List Taken → World lib
  holds w b answers = record w {
    client_buffer = record w.client_buffer { close = false; buffer_in = b };
    kernel = answers;
    own_messages = w.own_messages ++ notify w.client_buffer MessageType.packet_receive;
  }

  -- `ClientBuffer::recv` of one frame, its size and then its bytes; the kernel then has `answers` for
  -- what goes out.
  abbrev pub arrives : List ℕ → List Taken → World lib → Result (World lib)
  arrives cipher answers w = do
    h ← ClientBuffer.recv w.client_buffer (bytes (to_bytes 2 (length cipher)) ∷ bytes cipher ∷ [])
    ok (record w {
      client_buffer = h.state;
      kernel = answers;
      own_messages = w.own_messages ++ h.pushed;
    })

  held :
      (w : World lib) (answers : List Taken) (h : ClientBuffer.Handled) (c : ClientBuffer)
      (told : List MessageType)
      → h.state ≡ c
      → h.pushed ≡ told
      → ok (record w {
        client_buffer = h.state;
        kernel = answers;
        own_messages = w.own_messages ++ h.pushed;
      })
        ≡ ok (record w {
          client_buffer = c;
          kernel = answers;
          own_messages = w.own_messages ++ told;
        })
  held w answers h c told e f = λ i.
      ok (record w { client_buffer = e i; kernel = answers; own_messages = w.own_messages ++ f i })

  pub arrives_ok :
      (cipher : List ℕ) (answers : List Taken) (w : World lib)
      → IsFrame cipher
      → IsReady w.client_buffer
      → (b : Buffer) × (arrives cipher answers w ≡ ok (holds w b answers))
        × IsValid b
        × (contents b ≡ cipher)
  arrives_ok cipher answers w f r =
      let (h, come, all, full, valid, told, left, same) =
        recv_frame cipher w.client_buffer [] r.open_now r.stage r.valid r.nothing f.some_byte
          f.short in
      (
        h.state.buffer_in,
        rw come (
            held w answers h
              (record w.client_buffer { close = false; buffer_in = h.state.buffer_in })
              (notify w.client_buffer MessageType.packet_receive) same told),
        valid,
        all,
      )

  pub holds-Takes :
      (w : World lib) (b : Buffer) (cipher : List ℕ)
      → IsClear w.client_buffer
      → length cipher < 2 ^ 16
      → Takes lib (holds w b (taken cipher)) cipher
  holds-Takes w b cipher r short = record {
    clear = record { open_now = refl; valid = r.valid; clear = r.clear };
    short = short;
    kernel = sym (all_taken-framed cipher w.client_buffer.buffer_out [] r.clear);
  }

  pub holds-HasPacket :
      (w : World lib) (b : Buffer) (answers : List Taken) (a : Algorithm) (h : Header)
      (cipher body : List ℕ)
      → IsValid b
      → contents b ≡ cipher
      → decrypt lib cipher (use_algorithm lib a w.crypto_module) ≡ ok (to_uint8 h ∷ body)
      → length body + 1 < 2 ^ 64
      → HasPacket lib (holds w b answers) a h body
  holds-HasPacket w b answers a h cipher body v e d small = record {
    valid = v;
    decrypted = ap (λ (xs : List ℕ). decrypt lib xs (use_algorithm lib a w.crypto_module)) e ∙ d;
    small = small;
  }

  pub holds-Answered :
      (w w' : World lib) (b : Buffer) (answers : List Taken) (cipher : List ℕ)
      → Answered lib (holds w b answers) w' cipher
      → Answered lib w w' cipher
  holds-Answered w w' b answers cipher a = record {
    wire = a.wire;
    clear = a.clear;
    ready = a.ready;
    descriptor = a.descriptor;
    erase_clients = a.erase_clients;
    blocking_queue = a.blocking_queue;
  }

module _ (lib : CryptoPp) (machine : Machine) where
  -- A frame comes in, and `receiveData` acts on it.
  abbrev pub exchange : List ℕ → List Taken → World lib → Result (World lib)
  exchange cipher answers w = do
    v ← arrives lib cipher answers w
    let r = receive_data lib machine v in r.0 >>= λ done. ok r.1

  pub exchange_ok :
      (cipher : List ℕ) (answers : List Taken) (w v w' : World lib)
      → arrives lib cipher answers w ≡ ok v
      → receive_data lib machine v ≡ (ok tt, w')
      → exchange cipher answers w ≡ ok w'
  exchange_ok cipher answers w v w' e f = rw (e, f) refl

  pub exchange_key :
      (w : World lib) (cipher out : List ℕ)
      → w.stage ≡ Stage.set_symmetric_key
      → IsReady w.client_buffer
      → IsClear w.client_buffer
      → IsFrame cipher
      → length out < 2 ^ 16
      → length w.crypto_module.symmetric_key + 1 < 2 ^ 64
      → decrypt_rsa lib cipher w.crypto_module.rsa_server_crypto
        ≡ ok (to_uint8 Header.symmetric_key ∷ w.crypto_module.symmetric_key)
      → lib.aes_encrypt w.crypto_module.symmetric_key
          (to_uint8 Header.test_key ∷ w.crypto_module.symmetric_key)
        ≡ ok out
      → (w' : World lib) × (exchange cipher (taken out) w ≡ ok w')
        × (w'.stage ≡ Stage.test_key)
        × Answered lib w w' out
        × (w'.manager ≡ w.manager)
        × (w'.crypto_module ≡ use_algorithm lib Algorithm.aes w.crypto_module)
  unfolding decrypt decrypt_by use_algorithm
  exchange_key w cipher out stage r c f short small back done =
      let (b, come, v, e) = arrives_ok lib cipher (taken out) w f r in
      let p =
        holds-HasPacket lib w b (taken out) Algorithm.server_rsa Header.symmetric_key cipher
          w.crypto_module.symmetric_key v e back small in
      let (w', acted, next, a, same, crypto, read) =
        receive_symmetric_key lib machine (holds lib w b (taken out)) out stage p done
          (holds-Takes lib w b out c short) in
      (
        w',
        exchange_ok cipher (taken out) w (holds lib w b (taken out)) w' come acted,
        next,
        holds-Answered lib w w' b (taken out) out a,
        same,
        crypto,
      )

  -- The client is registered, and then the missing packet makes the program erase it.
  pub exchange_test :
      (w : World lib) (cipher out body : List ℕ) (k : lib.PublicKey)
      → w.stage ≡ Stage.test_key
      → IsReady w.client_buffer
      → IsClear w.client_buffer
      → IsFrame cipher
      → length out < 2 ^ 16
      → length body + 1 < 2 ^ 64
      → w.crypto_module.rsa_simple_crypto.public_key ≡ some k
      → lib.aes_decrypt w.crypto_module.symmetric_key cipher ≡ ok (to_uint8 Header.test_key ∷ body)
      → lib.aes_encrypt w.crypto_module.symmetric_key (to_uint8 Header.open_prot ∷ []) ≡ ok out
      → lib.aes_decrypt w.crypto_module.symmetric_key [] ≡ throws
      → (w' : World lib) × (exchange cipher (taken out) w ≡ ok w')
        × (w'.stage ≡ Stage.stable_communication)
        × (w'.wire ≡ w.wire ++ frame_of lib out)
        × ((w'.id, w'.manager) ≡ register_client (lib.save_public k) w.blocking_queue w.manager)
        × (w'.erase_clients ≡ w.erase_clients ++ w.client_buffer.file_descriptor ∷ [])
  unfolding decrypt decrypt_by use_algorithm receive_data receive_on
  exchange_test w cipher out body k stage r c f short small known back done bad =
      let (b, come, v, e) = arrives_ok lib cipher (taken out) w f r in
      let p =
        holds-HasPacket lib w b (taken out) Algorithm.aes Header.test_key cipher body v e back
          small in
      let v1 : World lib = holds lib w b (taken out) in
      let (t, acted, next, a, registers, crypto, read) =
        test_key_registers lib v1 body out k p known done (holds-Takes lib w b out c short) in
      let rejects : decrypt lib [] t.crypto_module ≡ throws =
        ap (λ m. decrypt lib [] m) crypto ∙ bad in
      let (d, same, silent) =
        stable_communication_silent lib machine t a.ready.valid a.ready.nothing rejects in
      let w' : World lib = record t {
        client_buffer = d;
        erase_clients = t.erase_clients ++ d.file_descriptor ∷ [];
      } in
      let whole : receive_data lib machine v1 ≡ (ok tt, w') =
        ap (λ x. receive_on lib machine x v1) stage
        ∙ ap (λ x. then_on x (λ done. stable_communication lib machine)) acted
        ∙ silent in
      (
        w',
        exchange_ok cipher (taken out) w v1 w' come whole,
        next,
        a.wire,
        registers,
        rw (a.erase_clients, same, a.descriptor) refl,
      )
