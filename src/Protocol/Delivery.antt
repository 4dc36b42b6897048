-- ===== src/Protocol/Delivery.antt =====
-- A packet through all layers: from `sendPacket` of one client, over the wire, to `recvPacket` of
-- another.
use tin_locus.Base.{
  ℕ, ◌+◌, ◌^◌, ◌<◌, ◌≡◌, refl, sym, ap, ◌∙◌, false, List, [], ◌∷◌, ◌++◌, ok, length, take, drop,
}
use tin_locus.Base.Step.{updated}
use tin_locus.Buffer
use tin_locus.Buffer.{Buffer}
use tin_locus.Buffer.Invariant.{IsValid, contents}
use tin_locus.Packet.{Packet, encode, decode}
use tin_locus.Packet.PacketType.{to_uint8, to_uint8-lt, to_packet_type-to_uint8}
use tin_locus.Packet.RoundTrip.{encode_lem, decode_lem}
use tin_locus.ClientBuffer.{ClientBuffer, Handled, bytes, recv}
use tin_locus.ClientBuffer.Send
use tin_locus.ClientBuffer.Send.{send_data, recv_data}
use tin_locus.ClientBuffer.Send.Loop.{all_taken}
use tin_locus.ClientBuffer.Send.Frame.{framed}
use tin_locus.ClientBuffer.Transfer.{recv_data-send_data}
use tin_locus.Crypto.{CryptoPp, CryptoModule, Algorithm, encrypt, decrypt}
use tin_locus.Crypto.RoundTrip.{CanTalk, decrypt-encrypt}
use tin_locus.Protocol.{
  World, simple_send, simple_recv, encrypted, encrypt_send, decrypted, encrypt_recv, send_packet,
  recv_packet,
}

-- A connection with nothing left to send, and one on which no frame has begun to come.
pub record IsClear (c : ClientBuffer) : Type 0 where
  pub open_now : c.close ≡ false
  pub valid : IsValid c.buffer_out
  pub clear : contents c.buffer_out ≡ []

pub record IsReady (c : ClientBuffer) : Type 0 where
  pub open_now : c.close ≡ false
  pub stage : c.buffer_in.stage ≡ Buffer.Stage.empty
  pub valid : IsValid c.buffer_in
  pub nothing : contents c.buffer_in ≡ []

-- The bytes of a packet, before they are encrypted.
abbrev pub text_of : Packet → List ℕ
text_of p = to_uint8 p.type ∷ contents p.buffer

module _ (lib : CryptoPp) where
  -- A client after it sent what one call of `sendData` left.
  abbrev pub sent_world : World lib → CryptoModule lib → Send.Handled → World lib
  sent_world w m h = record w {
    crypto_module = m;
    client_buffer = h.state;
    wire = w.wire ++ h.wire;
    own_messages = w.own_messages ++ h.pushed;
    kernel = h.answers;
  }

  pub send_packet_ok :
      (p : Packet) (w : World lib) (text cipher : List ℕ) (m : CryptoModule lib) (h : Send.Handled)
      → encode p ≡ ok text
      → encrypt lib text w.crypto_module ≡ ok (cipher, m)
      → send_data cipher w.client_buffer w.kernel ≡ ok h
      → send_packet lib p w ≡ (ok tt, sent_world w m h)
  unfolding send_packet encrypt_send encrypted simple_send updated
  send_packet_ok p w text cipher m h e f g = rw (e, f, g)

  pub recv_packet_ok :
      (v : World lib) (text cipher : List ℕ) (c : ClientBuffer) (q : Packet)
      → recv_data v.client_buffer ≡ ok (cipher, c)
      → decrypt lib cipher v.crypto_module ≡ ok text
      → decode text ≡ ok q
      → recv_packet lib v ≡ (ok q, record v { client_buffer = c })
  unfolding recv_packet encrypt_recv decrypted simple_recv updated
  recv_packet_ok v text cipher c q e f g = rw (e, f, g)

module _ (lib : CryptoPp) (k : lib.PublicKey) (s : lib.PrivateKey) (fits : lib.Fits k s) where
  -- A packet that one client sends reaches the other: where both use the same algorithm with keys
  -- that fit, the connections are idle, the kernel takes the chunks whole and hands on the size and
  -- the rest of the frame, and the encrypted packet has fewer than 2 ^ 16 bytes, `recvPacket` returns
  -- a packet of the same type with the same contents.
  pub recv_packet-send_packet :
      (p : Packet) (a : Algorithm) (w v : World lib) (cipher : List ℕ) (m : CryptoModule lib)
      → IsValid p.buffer
      → length (contents p.buffer) + 1 < 2 ^ 64
      → w.crypto_module.algorithm ≡ a
      → v.crypto_module.algorithm ≡ a
      → CanTalk lib k s fits a (text_of p) w.crypto_module v.crypto_module
      → encrypt lib (text_of p) w.crypto_module ≡ ok (cipher, m)
      → 0 < length cipher
      → length cipher < 2 ^ 16
      → IsClear w.client_buffer
      → IsReady v.client_buffer
      → w.kernel ≡ all_taken (framed cipher w.client_buffer.buffer_out) []
      → (w' : World lib) × (frame : List ℕ) × (h : Handled) × (v' : World lib) × (b : Buffer)
        × (send_packet lib p w ≡ (ok tt, w'))
        × (w'.wire ≡ w.wire ++ frame)
        × (recv v.client_buffer (bytes (take 2 frame) ∷ bytes (drop 2 frame) ∷ []) ≡ ok h)
        × (recv_packet lib (record v { client_buffer = h.state })
            ≡ (ok (record { type = p.type; buffer = b }), v'))
        × (contents b ≡ contents p.buffer)
  recv_packet-send_packet p a w v cipher m valid fits_size one other talk crypted some_byte small
        out into kernel =
      let (cipher', m', crypted', back) =
        decrypt-encrypt lib k s fits a (text_of p) w.crypto_module v.crypto_module one other talk in
      let same : cipher' ≡ cipher = cc (crypted, crypted') in
      let (g, h, e, sent, come, taken, again) =
        recv_data-send_data cipher w.client_buffer v.client_buffer out.open_now out.valid out.clear
          into.open_now into.stage into.valid into.nothing some_byte small in
      let (b, read, kept, vb) =
        decode_lem (to_uint8 p.type) (contents p.buffer) (to_uint8-lt p.type) fits_size in
      (
        sent_world lib w m g,
        g.wire,
        h,
        record v { client_buffer = e },
        b,
        send_packet_ok lib p w (text_of p) cipher m g (encode_lem p valid fits_size) crypted
            (ap (send_data cipher w.client_buffer) kernel ∙ sent),
        refl,
        come,
        recv_packet_ok lib (record v { client_buffer = h.state }) (text_of p) cipher e _ taken
            (ap (λ x. decrypt lib x v.crypto_module) (sym same) ∙ back)
            (read
              ∙ ap (λ t. ok (record { type = t; buffer = b })) (to_packet_type-to_uint8 p.type)),
        kept,
      )
