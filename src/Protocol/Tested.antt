-- ===== src/Protocol/Tested.antt =====
-- The missing `break` of `receiveData()`: after the last packet of the handshake the program reads
-- another packet at once.
use tin_locus.Base.{
  ℕ, ◌≡◌, refl, ◌∙◌, ap, ◌⊎◌, inl, inr, [], ◌∷◌, ◌++◌, Result, ok, throws, arith, length,
}
use tin_locus.Base.Step.{updated, then_on}
use tin_locus.Buffer
use tin_locus.Buffer.Invariant.{IsValid, contents}
use tin_locus.Buffer.Drain.{pop_n_ok}
use tin_locus.ClientBuffer.{ClientBuffer}
use tin_locus.ClientBuffer.Send
use tin_locus.Crypto.{CryptoPp, decrypt}
use tin_locus.Packet.RoundTrip.{decode-nil}
use tin_locus.Protocol.{
  World, Stage, recv_packet, encrypt_recv, simple_recv, decrypted, close_connection,
}
use tin_locus.Protocol.Handshake.{test_key}
use tin_locus.Protocol.Session.{Machine, receive_on, receive_data, stable_communication}

-- Nothing is there to read.
recv_data_nothing :
    (c : ClientBuffer)
    → IsValid c.buffer_in
    → contents c.buffer_in ≡ []
    → (d : ClientBuffer) × (Send.recv_data c ≡ ok ([], d)) × (d.file_descriptor ≡ c.file_descriptor)
unfolding Send.recv_data Buffer.size
recv_data_nothing c v nothing =
    let none_left : c.buffer_in.buffer_size ≡ 0 = omega (arith, v.counted, ap length nothing) in
    let (rest, popped, d) = pop_n_ok 0 c.buffer_in v (omega arith) in
    let all : Buffer.pop_n c.buffer_in.buffer_size c.buffer_in ≡ ok ([], rest) =
      ap (λ (n : ℕ). Buffer.pop_n n c.buffer_in) none_left ∙ popped in
    (record c { buffer_in = Buffer.set_stage Buffer.Stage.empty rest }, rw all, refl)

module _ (lib : CryptoPp) (machine : Machine) where
  -- The second packet that is asked for is not there, and the handler of the exception closes.
  pub stable_communication_silent :
      (v : World lib)
      → IsValid v.client_buffer.buffer_in
      → contents v.client_buffer.buffer_in ≡ []
      → decrypt lib [] v.crypto_module ≡ throws
      → (d : ClientBuffer) × (d.file_descriptor ≡ v.client_buffer.file_descriptor)
        × (stable_communication lib machine v ≡ (
          ok tt,
          record v { client_buffer = d; erase_clients = v.erase_clients ++ d.file_descriptor ∷ [] },
        ))
  unfolding stable_communication recv_packet encrypt_recv simple_recv decrypted close_connection
      updated
  stable_communication_silent v valid nothing bad =
      let (d, e, same) = recv_data_nothing v.client_buffer valid nothing in
      (d, same, rw (e, bad) refl)

  silent_lem :
      (v : World lib)
      → IsValid v.client_buffer.buffer_in
      → contents v.client_buffer.buffer_in ≡ []
      → (decrypt lib [] v.crypto_module ≡ throws) ⊎ (decrypt lib [] v.crypto_module ≡ ok [])
      → (stable_communication lib machine v).1.erase_clients
        ≡ v.erase_clients ++ v.client_buffer.file_descriptor ∷ []
  unfolding stable_communication recv_packet encrypt_recv simple_recv decrypted close_connection
      updated
  silent_lem v valid nothing (inl bad) =
      let (d, e, same) = recv_data_nothing v.client_buffer valid nothing in rw (e, bad, same)
  silent_lem v valid nothing (inr bad) =
      let (d, e, same) = recv_data_nothing v.client_buffer valid nothing in
      rw (e, bad, decode-nil, same)

  -- When the client's `TEST_KEY` packet was accepted and no other packet has come since, the same
  -- call of `receiveData()` asks the client manager to erase the client, provided that the cipher
  -- either rejects an empty text or decrypts it to an empty one.
  pub receive_data_tested :
      (w v : World lib)
      → w.stage ≡ Stage.test_key
      → test_key lib w ≡ (ok tt, v)
      → IsValid v.client_buffer.buffer_in
      → contents v.client_buffer.buffer_in ≡ []
      → (decrypt lib [] v.crypto_module ≡ throws) ⊎ (decrypt lib [] v.crypto_module ≡ ok [])
      → (receive_data lib machine w).1.erase_clients
        ≡ v.erase_clients ++ v.client_buffer.file_descriptor ∷ []
  unfolding receive_data receive_on
  receive_data_tested w v stage tested valid nothing bad =
      ap (λ (s : Stage). (receive_on lib machine s w).1.erase_clients) stage
      ∙ ap
          (λ (r : Result (Unit {0}) × World lib).
            (then_on r (λ done. stable_communication lib machine)).1.erase_clients)
          tested
      ∙ silent_lem v valid nothing bad
