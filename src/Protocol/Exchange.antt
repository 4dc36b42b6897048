-- ===== src/Protocol/Exchange.antt =====
-- One packet in and one packet out, in the handshake of server/src/client/ProtocolClient.cpp.
use tin_locus.Base.{ℕ, ◌+◌, ◌^◌, ◌<◌, ◌≡◌, refl, ap, ◌∙◌, List, [], ◌∷◌, ◌++◌, arith, ok, length}
use tin_locus.Buffer
use tin_locus.Buffer.{Buffer}
use tin_locus.Buffer.Invariant.{IsValid, contents, push_back-IsValid, new-IsValid, new-contents}
use tin_locus.Converter.{to_bytes}
use tin_locus.Packet
use tin_locus.Packet.{Packet}
use tin_locus.Packet.PacketType.{Header, to_uint8, to_uint8-lt, to_packet_type-to_uint8}
use tin_locus.Packet.RoundTrip.{encode_lem, decode_lem}
use tin_locus.ClientBuffer.Send
use tin_locus.ClientBuffer.Send.Loop.{all_taken}
use tin_locus.ClientBuffer.Send.Frame.{framed, Leaves, send_data_frame}
use tin_locus.ClientBuffer.Transfer.{recv_data_all}
use tin_locus.Crypto.{CryptoPp, CryptoModule, Algorithm, encrypt, decrypt, use_algorithm}
use tin_locus.Protocol.{World, send_packet, recv_packet}
use tin_locus.Protocol.Handshake.{registered}
use tin_locus.Protocol.{Stage}
use tin_locus.Database.Manager.{Manager}
use tin_locus.Protocol.Delivery.{
  IsClear, IsReady, text_of, sent_world, send_packet_ok, recv_packet_ok,
}
use tin_locus.Protocol.Accepts.{with_crypto}

-- A packet of one part.
abbrev pub packet_of : Header → List ℕ → Packet
packet_of h body = Packet.push body (Packet.new h)

pub packet_of-text :
    (h : Header) (body : List ℕ)
    → length body + 1 < 2 ^ 64
    → (text_of (packet_of h body) ≡ to_uint8 h ∷ body)
      × IsValid (packet_of h body).buffer
      × (length (contents (packet_of h body).buffer) + 1 < 2 ^ 64)
unfolding Packet.push Packet.new
packet_of-text h body small =
    let (v, e) =
      push_back-IsValid body Buffer.new new-IsValid (omega (arith, ap length new-contents)) in
    let whole = e ∙ ap (λ (xs : List ℕ). xs ++ body) new-contents in
    (ap (λ (xs : List ℕ). to_uint8 h ∷ xs) whole, v, rw whole small)

-- A buffer that is ready for the next frame.
pub record IsDrained (b : Buffer) : Type 0 where
  pub stage : b.stage ≡ Buffer.Stage.empty
  pub valid : IsValid b
  pub nothing : contents b ≡ []

module _ (lib : CryptoPp) where
  -- A client with a frame that has come, by what it decrypts to.
  pub record HasPacket (w : World lib) (a : Algorithm) (h : Header) (body : List ℕ) : Type 0 where
    pub valid : IsValid w.client_buffer.buffer_in
    pub decrypted :
        decrypt lib (contents w.client_buffer.buffer_in) (use_algorithm lib a w.crypto_module)
        ≡ ok (to_uint8 h ∷ body)
    pub small : length body + 1 < 2 ^ 64

  abbrev pub with_in : World lib → Buffer → World lib
  with_in w b = record w { client_buffer = record w.client_buffer { buffer_in = b } }

  pub received :
      (w : World lib) (a : Algorithm) (h : Header) (body : List ℕ)
      → HasPacket w a h body
      → let w0 = with_crypto lib w (use_algorithm lib a w.crypto_module) in
        (b : Buffer) × (b' : Buffer) × (recv_packet lib w0
          ≡ (ok (record { type = h; buffer = b }), with_in w0 b'))
        × IsValid b
        × (contents b ≡ body)
        × IsDrained b'
  received w a h body p =
      let (b', taken, again, clean, none_left) = recv_data_all w.client_buffer p.valid in
      let (b, read, kept, v) = decode_lem (to_uint8 h) body (to_uint8-lt h) p.small in
      (
        b,
        b',
        recv_packet_ok lib (with_crypto lib w (use_algorithm lib a w.crypto_module))
            (to_uint8 h ∷ body) (contents w.client_buffer.buffer_in) _ _ taken p.decrypted
            (read ∙ ap (λ t. ok (record { type = t; buffer = b })) (to_packet_type-to_uint8 h)),
        v,
        kept,
        record { stage = again; valid = clean; nothing = none_left },
      )

  -- The kernel takes the frame of a cipher text, and nothing else is left to send.
  pub record Takes (w : World lib) (cipher : List ℕ) : Type 0 where
    pub clear : IsClear w.client_buffer
    pub short : length cipher < 2 ^ 16
    pub kernel : w.kernel ≡ all_taken (framed cipher w.client_buffer.buffer_out) []

  abbrev pub frame_of : List ℕ → List ℕ
  frame_of cipher = to_bytes 2 (length cipher) ++ cipher

  pub sent_packet :
      (p : Packet) (text : List ℕ) (w : World lib) (cipher : List ℕ) (m : CryptoModule lib)
      → text_of p ≡ text
      → IsValid p.buffer
      → length (contents p.buffer) + 1 < 2 ^ 64
      → encrypt lib text w.crypto_module ≡ ok (cipher, m)
      → Takes w cipher
      → (g : Send.Handled) × (send_packet lib p w ≡ (ok tt, sent_world lib w m g))
        × (g.wire ≡ frame_of cipher)
        × Leaves w.client_buffer g
  sent_packet p text w cipher m same v fits crypted t =
      let (g, done, wire, leaves) =
        send_data_frame cipher w.client_buffer [] t.clear.open_now t.clear.valid t.clear.clear
          t.short in
      (
        g,
        send_packet_ok lib p w text cipher m g (encode_lem p v fits ∙ ap ok same) crypted
            (ap (Send.send_data cipher w.client_buffer) t.kernel ∙ done),
        wire,
        leaves,
      )

  pub sent :
      (h : Header) (body : List ℕ) (w : World lib) (cipher : List ℕ) (m : CryptoModule lib)
      → length body + 1 < 2 ^ 64
      → encrypt lib (to_uint8 h ∷ body) w.crypto_module ≡ ok (cipher, m)
      → Takes w cipher
      → (g : Send.Handled) × (send_packet lib (packet_of h body) w ≡ (ok tt, sent_world lib w m g))
        × (g.wire ≡ frame_of cipher)
        × Leaves w.client_buffer g
  sent h body w cipher m small crypted t =
      let (same, v, fits) = packet_of-text h body small in
      sent_packet (packet_of h body) (to_uint8 h ∷ body) w cipher m same v fits crypted t

  pub sent_empty :
      (h : Header) (w : World lib) (cipher : List ℕ) (m : CryptoModule lib)
      → encrypt lib (to_uint8 h ∷ []) w.crypto_module ≡ ok (cipher, m)
      → Takes w cipher
      → (g : Send.Handled) × (send_packet lib (Packet.new h) w ≡ (ok tt, sent_world lib w m g))
        × (g.wire ≡ frame_of cipher)
        × Leaves w.client_buffer g
  unfolding Packet.new
  sent_empty h w cipher m crypted t =
      sent_packet (Packet.new h) (to_uint8 h ∷ []) w cipher m
        (ap (λ (xs : List ℕ). to_uint8 h ∷ xs) new-contents) new-IsValid
        (omega (arith, ap length new-contents)) crypted t

  -- A client of which only the reading side and the cipher change can send as before.
  pub with_in-Takes :
      (w : World lib) (b : Buffer) (m : CryptoModule lib) (cipher : List ℕ)
      → Takes w cipher
      → Takes (with_crypto lib (with_in w b) m) cipher
  with_in-Takes w b m cipher t = record {
    clear = record { open_now = t.clear.open_now; valid = t.clear.valid; clear = t.clear.clear };
    short = t.short;
    kernel = t.kernel;
  }

  -- A client that answered one frame with another: it is ready for the next, and not to be erased.
  pub record Answered (w w' : World lib) (cipher : List ℕ) : Type 0 where
    pub wire : w'.wire ≡ w.wire ++ frame_of cipher
    pub clear : IsClear w'.client_buffer
    pub ready : IsReady w'.client_buffer
    pub descriptor : w'.client_buffer.file_descriptor ≡ w.client_buffer.file_descriptor
    pub erase_clients : w'.erase_clients ≡ w.erase_clients
    pub blocking_queue : w'.blocking_queue ≡ w.blocking_queue

  pub with_in-Answered :
      (w : World lib) (b : Buffer) (m m' : CryptoModule lib) (g : Send.Handled) (cipher : List ℕ)
      (s : Stage) (r : ℕ × Manager)
      → IsDrained b
      → g.wire ≡ frame_of cipher
      → Leaves (record w.client_buffer { buffer_in = b }) g
      → Answered w
          (registered lib
            (record (sent_world lib (with_crypto lib (with_in w b) m) m' g) { stage = s })
            r)
          cipher
  with_in-Answered w b m m' g cipher s r d wire l = record {
    wire = ap (◌++◌ w.wire) wire;
    clear = record { open_now = l.open_still; valid = l.valid; clear = l.drained };
    ready = record {
      open_now = l.open_still;
      stage = rw (l.same_in) d.stage;
      valid = rw (l.same_in) d.valid;
      nothing = rw (l.same_in) d.nothing;
    };
    descriptor = l.descriptor;
    erase_clients = refl;
    blocking_queue = refl;
  }
