-- ===== src/Protocol/Stages.antt =====
-- The stages of a connection: whatever arrives, the keys are agreed on step by step, and nothing
-- reaches the database before the symmetric key was sent back.
use tin_locus.Base.{◌≡◌, refl, ◌∙◌, ◌⊎◌, inl, inr, if◌then◌else◌, not, bytes_beq}
use tin_locus.Base.Step.{Step, catch, ◌>>=◌}
use tin_locus.Base.Step.Frame.{Frame, IsPreorder, if-Frame, catch-Frame, bind-Frame, weaken-Frame}
use tin_locus.Crypto.{CryptoPp, Algorithm}
use tin_locus.Packet.{Packet}
use tin_locus.Packet.PacketType.{Header}
use tin_locus.Protocol.{World, Stage, close_connection, using, recv_packet}
use tin_locus.Protocol.Frames.{
  Quiet, Quiet-IsPreorder, close_connection-Quiet, on_crypto-Quiet, using-Quiet, send_packet-Quiet,
  recv_packet-Quiet, contents_of-Quiet,
}
use tin_locus.Protocol.Handshake.{
  set_stage, symmetric_key, send_key, accept_public_key, set_public_key, accept_symmetric_key,
  set_symmetric_key, is_header,
}

-- The stage that may follow another.
pub data Next : Stage → Stage → Type 0 where
  key_sent : Next Stage.set_public_key Stage.set_symmetric_key
  key_returned : Next Stage.set_symmetric_key Stage.test_key
  key_tested : Next Stage.test_key Stage.stable_communication

module _ (lib : CryptoPp) (target : Stage) where
  -- The database and the identifier stay, and the stage does or is the target.
  pub record Shakes (w v : World lib) : Type 0 where
    pub stage : (v.stage ≡ w.stage) ⊎ (v.stage ≡ target)
    pub manager : v.manager ≡ w.manager
    pub id : v.id ≡ w.id

  stages_lem :
      (a b c : Stage) → (b ≡ a) ⊎ (b ≡ target) → (c ≡ b) ⊎ (c ≡ target) → (c ≡ a) ⊎ (c ≡ target)
  stages_lem a b c (inl e) (inl f) = inl (f ∙ e)
  stages_lem a b c (inr e) (inl f) = inr (f ∙ e)
  stages_lem a b c e (inr f) = inr f

  pub Shakes-IsPreorder : IsPreorder Shakes
  Shakes-IsPreorder = record {
    reflexive = λ s. record { stage = inl refl; manager = refl; id = refl };
    transitive = λ s t u f g. record {
      stage = stages_lem s.stage t.stage u.stage f.stage g.stage;
      manager = g.manager ∙ f.manager;
      id = g.id ∙ f.id;
    };
  }

  pub Quiet-Shakes : {A : Type 0} (m : Step (World lib) A) → Frame (Quiet lib) m → Frame Shakes m
  Quiet-Shakes m =
      weaken-Frame (Quiet lib) Shakes m
        (λ w v f. record { stage = inl f.stage; manager = f.manager; id = f.id })

  -- A quiet step, and then others.
  then-Shakes :
      {A B : Type 0} (m : Step (World lib) A) (f : A → Step (World lib) B)
      → Frame (Quiet lib) m
      → ((a : A) → Frame Shakes (f a))
      → Frame Shakes (m >>= f)
  then-Shakes m f q g = bind-Frame Shakes Shakes-IsPreorder m f (Quiet-Shakes m q) g

  close-Shakes : Frame Shakes (close_connection lib)
  close-Shakes = Quiet-Shakes (close_connection lib) (close_connection-Quiet lib)

  -- A stage of the handshake: it takes a packet of one type, and closes the connection otherwise.
  stage-Shakes :
      (a : Algorithm) (h : Header) (accept : Packet → Step (World lib) (Unit {0}))
      → ((p : Packet) → Frame Shakes (accept p))
      → Frame Shakes (
          catch
            (using lib a >>= λ used.
              (recv_packet lib >>= λ packet.
              if is_header packet.type h then accept packet else close_connection lib))
            (close_connection lib))
  stage-Shakes a h accept f =
      catch-Frame Shakes Shakes-IsPreorder _ _
        (then-Shakes _ _ (using-Quiet lib a) (λ used.
          then-Shakes _ _ (recv_packet-Quiet lib) (λ packet.
            if-Frame Shakes Shakes-IsPreorder (is_header packet.type h) _ _ (f packet)
              close-Shakes)))
        close-Shakes

send_key-Quiet : (lib : CryptoPp) (h : Header) → Frame (Quiet lib) (send_key lib h)
unfolding send_key symmetric_key
send_key-Quiet lib h =
    bind-Frame (Quiet lib) (Quiet-IsPreorder lib) (symmetric_key lib) _
      (record { holds = (Quiet-IsPreorder lib).reflexive }) (λ key. send_packet-Quiet lib _)

module _ (lib : CryptoPp) where
  set_stage-Shakes : (s : Stage) → Frame (Shakes lib s) (set_stage lib s)
  unfolding set_stage
  set_stage-Shakes s = record {
    holds = λ w. record { stage = inr refl; manager = refl; id = refl };
  }

  accept_public_key-Shakes :
      (p : Packet) → Frame (Shakes lib Stage.set_symmetric_key) (accept_public_key lib p)
  unfolding accept_public_key
  accept_public_key-Shakes p = then-Shakes lib _ _ _ (contents_of-Quiet lib p) (λ key.
      then-Shakes lib _ _ _ (on_crypto-Quiet lib _) (λ set.
        then-Shakes lib _ _ _ (using-Quiet lib _)
          (λ used. then-Shakes lib _ _ _ (send_key-Quiet lib _) (λ sent. set_stage-Shakes _))))

  pub set_public_key-Shakes : Frame (Shakes lib Stage.set_symmetric_key) (set_public_key lib)
  unfolding set_public_key
  set_public_key-Shakes =
      stage-Shakes lib Stage.set_symmetric_key Algorithm.server_rsa Header.public_key
        (accept_public_key lib) accept_public_key-Shakes

  accept_symmetric_key-Shakes :
      (p : Packet) → Frame (Shakes lib Stage.test_key) (accept_symmetric_key lib p)
  unfolding accept_symmetric_key symmetric_key
  accept_symmetric_key-Shakes p =
      then-Shakes lib _ (symmetric_key lib) _ (record { holds = (Quiet-IsPreorder lib).reflexive })
        (λ mine. then-Shakes lib _ _ _ (contents_of-Quiet lib p) (λ returned.
          if-Frame (Shakes lib Stage.test_key) (Shakes-IsPreorder lib _)
            (not (bytes_beq mine returned)) _ _ (close-Shakes lib _)
            (then-Shakes lib _ _ _ (using-Quiet lib _)
              (λ used. then-Shakes lib _ _ _ (send_key-Quiet lib _) (λ sent. set_stage-Shakes _)))))

  pub set_symmetric_key-Shakes : Frame (Shakes lib Stage.test_key) (set_symmetric_key lib)
  unfolding set_symmetric_key
  set_symmetric_key-Shakes =
      stage-Shakes lib Stage.test_key Algorithm.server_rsa Header.symmetric_key
        (accept_symmetric_key lib) accept_symmetric_key-Shakes
