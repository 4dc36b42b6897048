-- ===== src/Protocol/Recv.antt =====
-- What one message can do to a connection: `ProtocolClient::recv()`, whatever the message, the
-- packet, the database and the kernel are.
use tin_locus.Base.{◌≡◌, refl, ◌∙◌, sym, ◌⊎◌, inl, inr}
use tin_locus.Crypto.{CryptoPp}
use tin_locus.Message.{MessageType}
use tin_locus.Protocol.{World, Stage}
use tin_locus.Protocol.Frames.{Quiet, close_connection-Quiet}
use tin_locus.Protocol.Stages.{
  Next, key_sent, key_returned, key_tested, set_public_key-Shakes, set_symmetric_key-Shakes,
}
use tin_locus.Protocol.Onward.{tested-Settles, stable-Settles, update-Settles, remaining-Quiet}
use tin_locus.Protocol.Session.{Machine, receive_on, receive_data, update_on, update, recv}

-- The stage stays, or the next one is reached.
abbrev pub Onward : Stage → Stage → Type 0
Onward s t = (t ≡ s) ⊎ Next s t

module _ (lib : CryptoPp) (machine : Machine) where
  next_lem : (a s t u : Stage) → a ≡ s → Next s t → (u ≡ a) ⊎ (u ≡ t) → Onward a u
  next_lem a s t u e n (inl f) = inl f
  next_lem a s t u e n (inr f) = inr (rw (e, f) n)

  settled_lem :
      (a u : Stage)
      → a ≡ Stage.stable_communication
      → (u ≡ a) ⊎ (u ≡ Stage.stable_communication)
      → Onward a u
  settled_lem a u e (inl f) = inl f
  settled_lem a u e (inr f) = inl (f ∙ sym e)

  received-Onward :
      (s : Stage) (w : World lib)
      → w.stage ≡ s
      → Onward w.stage (receive_on lib machine s w).1.stage
  unfolding receive_on
  received-Onward Stage.set_public_key w e =
      next_lem _ _ _ _ e key_sent ((set_public_key-Shakes lib).holds w).stage
  received-Onward Stage.set_symmetric_key w e =
      next_lem _ _ _ _ e key_returned ((set_symmetric_key-Shakes lib).holds w).stage
  received-Onward Stage.test_key w e =
      next_lem _ _ _ _ e key_tested ((tested-Settles lib machine).holds w).stage
  received-Onward Stage.stable_communication w e =
      settled_lem _ _ e ((stable-Settles lib machine).holds w).stage
  received-Onward Stage.exit w e = inl refl

  updated-Onward :
      (s : Stage) (w : World lib) → w.stage ≡ s → Onward w.stage (update_on lib machine s w).1.stage
  unfolding update_on
  updated-Onward Stage.set_public_key w e = inl ((remaining-Quiet lib machine).holds w).stage
  updated-Onward Stage.set_symmetric_key w e = inl ((remaining-Quiet lib machine).holds w).stage
  updated-Onward Stage.test_key w e = inl ((remaining-Quiet lib machine).holds w).stage
  updated-Onward Stage.stable_communication w e =
      settled_lem _ _ e ((update-Settles lib machine Stage.stable_communication).holds w).stage
  updated-Onward Stage.exit w e = inl ((remaining-Quiet lib machine).holds w).stage

  -- However a call of `recv()` ends, the connection is in the stage in which it was, or in the one
  -- that follows it: no message skips a stage of the handshake, and none leads back.
  pub recv-Onward :
      (t : MessageType) (w : World lib) → Onward w.stage (recv lib machine t w).1.stage
  unfolding recv receive_data update
  recv-Onward MessageType.close w = inl ((close_connection-Quiet lib).holds w).stage
  recv-Onward MessageType.packet_send w = inl ((remaining-Quiet lib machine).holds w).stage
  recv-Onward MessageType.packet_receive w = received-Onward w.stage w refl
  recv-Onward MessageType.update w = updated-Onward w.stage w refl
  recv-Onward _ w = inl refl

  -- The database and the identifier of the client.
  abbrev pub Untouched : World lib → World lib → Type 0
  Untouched w v = (v.manager ≡ w.manager) × (v.id ≡ w.id)

  -- The stages in which the client has not yet shown that it has the keys.
  abbrev pub IsEarly : Stage → Type 0
  IsEarly Stage.set_public_key = Unit {0}
  IsEarly Stage.set_symmetric_key = Unit {0}
  IsEarly _ = ⊥

  quiet_lem : (w v : World lib) → Quiet lib w v → Untouched w v
  quiet_lem w v q = (q.manager, q.id)

  received-Untouched :
      (s : Stage) (w : World lib) → IsEarly s → Untouched w (receive_on lib machine s w).1
  unfolding receive_on
  received-Untouched Stage.set_public_key w e =
      let h = (set_public_key-Shakes lib).holds w in (h.manager, h.id)
  received-Untouched Stage.set_symmetric_key w e =
      let h = (set_symmetric_key-Shakes lib).holds w in (h.manager, h.id)
  received-Untouched Stage.test_key w e = absurd e
  received-Untouched Stage.stable_communication w e = absurd e
  received-Untouched Stage.exit w e = absurd e

  updated-Untouched :
      (s : Stage) (w : World lib) → IsEarly s → Untouched w (update_on lib machine s w).1
  unfolding update_on
  updated-Untouched Stage.set_public_key w e = quiet_lem _ _ ((remaining-Quiet lib machine).holds w)
  updated-Untouched Stage.set_symmetric_key w e =
      quiet_lem _ _ ((remaining-Quiet lib machine).holds w)
  updated-Untouched Stage.test_key w e = absurd e
  updated-Untouched Stage.stable_communication w e = absurd e
  updated-Untouched Stage.exit w e = absurd e

  -- Before the client has sent the symmetric key back, no message changes the database, and the
  -- client has the identifier that it had, however the call of `recv()` ends.
  pub recv-Untouched :
      (t : MessageType) (w : World lib) → IsEarly w.stage → Untouched w (recv lib machine t w).1
  unfolding recv receive_data update
  recv-Untouched MessageType.close w e = quiet_lem _ _ ((close_connection-Quiet lib).holds w)
  recv-Untouched MessageType.packet_send w e = quiet_lem _ _ ((remaining-Quiet lib machine).holds w)
  recv-Untouched MessageType.packet_receive w e = received-Untouched w.stage w e
  recv-Untouched MessageType.update w e = updated-Untouched w.stage w e
  recv-Untouched _ w e = (refl, refl)
