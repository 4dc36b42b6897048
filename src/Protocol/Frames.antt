-- ===== src/Protocol/Frames.antt =====
-- What the layers below `ProtocolClient` leave alone, whatever they do and however they end.
use tin_locus.Base.{ℕ, ◌≡◌, refl, ◌∙◌, List, Result}
use tin_locus.Base.Step.{lift}
use tin_locus.Base.Step.Frame.{Frame, IsPreorder, pure-Frame, lift-Frame, bind-Frame, updated-Frame}
use tin_locus.Crypto.{CryptoPp, CryptoModule, Algorithm}
use tin_locus.Packet.{Packet, encode, decode}
use tin_locus.Buffer
use tin_locus.Protocol.{
  World, simple_send, simple_recv, close_connection, on_crypto, using, encrypted, encrypt_send,
  decrypted, encrypt_recv, send_packet, recv_packet, contents_of,
}

module _ (lib : CryptoPp) where
  -- The stage, the database and the identifier stay.
  pub record Quiet (w v : World lib) : Type 0 where
    pub stage : v.stage ≡ w.stage
    pub manager : v.manager ≡ w.manager
    pub id : v.id ≡ w.id

  pub Quiet-IsPreorder : IsPreorder Quiet
  Quiet-IsPreorder = record {
    reflexive = λ s. record { stage = refl; manager = refl; id = refl };
    transitive = λ s t u f g. record {
      stage = g.stage ∙ f.stage;
      manager = g.manager ∙ f.manager;
      id = g.id ∙ f.id;
    };
  }

  pub simple_send-Quiet : (bytes : List ℕ) → Frame Quiet (simple_send lib bytes)
  unfolding simple_send
  simple_send-Quiet bytes =
      updated-Frame Quiet Quiet-IsPreorder _ _ _
        (λ w h. record { stage = refl; manager = refl; id = refl })

  pub simple_recv-Quiet : Frame Quiet (simple_recv lib)
  unfolding simple_recv
  simple_recv-Quiet =
      updated-Frame Quiet Quiet-IsPreorder _ _ _
        (λ w h. record { stage = refl; manager = refl; id = refl })

  pub close_connection-Quiet : Frame Quiet (close_connection lib)
  unfolding close_connection
  close_connection-Quiet = record {
    holds = λ w. record { stage = refl; manager = refl; id = refl };
  }

  pub on_crypto-Quiet :
      (f : CryptoModule lib → Result (CryptoModule lib)) → Frame Quiet (on_crypto lib f)
  unfolding on_crypto
  on_crypto-Quiet f =
      updated-Frame Quiet Quiet-IsPreorder _ _ _
        (λ w h. record { stage = refl; manager = refl; id = refl })

  pub using-Quiet : (a : Algorithm) → Frame Quiet (using lib a)
  unfolding using
  using-Quiet a = on_crypto-Quiet _

  pub encrypt_send-Quiet : (bytes : List ℕ) → Frame Quiet (encrypt_send lib bytes)
  unfolding encrypt_send encrypted
  encrypt_send-Quiet bytes =
      bind-Frame Quiet Quiet-IsPreorder (encrypted lib bytes) _
        (updated-Frame Quiet Quiet-IsPreorder _ _ _
          (λ w h. record { stage = refl; manager = refl; id = refl }))
        simple_send-Quiet

  pub encrypt_recv-Quiet : Frame Quiet (encrypt_recv lib)
  unfolding encrypt_recv decrypted
  encrypt_recv-Quiet =
      bind-Frame Quiet Quiet-IsPreorder (simple_recv lib) _ simple_recv-Quiet
        (λ bytes. record { holds = Quiet-IsPreorder.reflexive })

  pub send_packet-Quiet : (p : Packet) → Frame Quiet (send_packet lib p)
  unfolding send_packet
  send_packet-Quiet p =
      bind-Frame Quiet Quiet-IsPreorder (lift (encode p)) _
        (lift-Frame Quiet Quiet-IsPreorder (encode p)) encrypt_send-Quiet

  pub recv_packet-Quiet : Frame Quiet (recv_packet lib)
  unfolding recv_packet
  recv_packet-Quiet =
      bind-Frame Quiet Quiet-IsPreorder (encrypt_recv lib) _ encrypt_recv-Quiet
        (λ bytes. lift-Frame Quiet Quiet-IsPreorder (decode bytes))

  pub contents_of-Quiet : (p : Packet) → Frame Quiet (contents_of lib p)
  unfolding contents_of
  contents_of-Quiet p =
      bind-Frame Quiet Quiet-IsPreorder (lift (Buffer.pop_all p.buffer)) _
        (lift-Frame Quiet Quiet-IsPreorder (Buffer.pop_all p.buffer))
        (λ (bytes, rest). pure-Frame Quiet Quiet-IsPreorder bytes)
