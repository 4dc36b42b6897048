-- ===== src/Protocol/Onward.antt =====
-- `ProtocolClient::recv()` as a whole: how far one message can bring a connection.
use tin_locus.Base.{ℕ, ◌≡◌, refl, ◌∙◌, ◌⊎◌, inl, inr, List, [], ◌∷◌, Result, not, ◌==◌}
use tin_locus.Base.Step.{Step, lift}
use tin_locus.Base.Step.Frame.{
  Frame, IsPreorder, pure-Frame, lift-Frame, if-Frame, catch-Frame, bind-Frame, updated-Frame,
  weaken-Frame,
}
use tin_locus.Buffer
use tin_locus.Buffer.{Buffer}
use tin_locus.Converter.{from_bytes}
use tin_locus.Crypto.{CryptoPp, Algorithm}
use tin_locus.Packet.{Packet}
use tin_locus.Packet.PacketType.{Header}
use tin_locus.Database.Manager.{Manager}
use tin_locus.Protocol.{World, Stage, close_connection, send_packet, recv_packet, contents_of}
use tin_locus.Protocol.Frames.{
  Quiet, Quiet-IsPreorder, close_connection-Quiet, using-Quiet, send_packet-Quiet,
  recv_packet-Quiet, contents_of-Quiet,
}
use tin_locus.Protocol.Handshake.{
  set_stage, accept_test_key, test_key, is_header, self_register, register, outer_key,
}
use tin_locus.Protocol.Session.{
  Machine, set_name, on_manager, for_named, name_id, is_positive, add_follower, remove_follower,
  remove_followed, read_4, my_location, answer, stable_communication, send_first,
  send_remaining_data, receive_on, push_names, push_positions, update_on,
}

module _ (lib : CryptoPp) where
  -- The stage stays, or is the last one.
  pub record Settles (w v : World lib) : Type 0 where
    pub stage : (v.stage ≡ w.stage) ⊎ (v.stage ≡ Stage.stable_communication)

  settles_lem :
      (a b c : Stage)
      → (b ≡ a) ⊎ (b ≡ Stage.stable_communication)
      → (c ≡ b) ⊎ (c ≡ Stage.stable_communication)
      → (c ≡ a) ⊎ (c ≡ Stage.stable_communication)
  settles_lem a b c (inl e) (inl f) = inl (f ∙ e)
  settles_lem a b c (inr e) (inl f) = inr (f ∙ e)
  settles_lem a b c e (inr f) = inr f

  o : IsPreorder Settles
  o = record {
    reflexive = λ s. record { stage = inl refl };
    transitive =
        λ s t u f g. record { stage = settles_lem s.stage t.stage u.stage f.stage g.stage };
  }

  quiet : {A : Type 0} (m : Step (World lib) A) → Frame (Quiet lib) m → Frame Settles m
  quiet m = weaken-Frame (Quiet lib) Settles m (λ w v f. record { stage = inl f.stage })

  close-Settles : Frame Settles (close_connection lib)
  close-Settles = quiet (close_connection lib) (close_connection-Quiet lib)

  send-Settles : (p : Packet) → Frame Settles (send_packet lib p)
  send-Settles p = quiet (send_packet lib p) (send_packet-Quiet lib p)

  recv-Settles : Frame Settles (recv_packet lib)
  recv-Settles = quiet (recv_packet lib) (recv_packet-Quiet lib)

  contents-Settles : (p : Packet) → Frame Settles (contents_of lib p)
  contents-Settles p = quiet (contents_of lib p) (contents_of-Quiet lib p)

  register-Settles : (key : List ℕ) → Frame Settles (register lib key)
  unfolding register
  register-Settles key = record { holds = λ w. record { stage = inl refl } }

  accept-Settles : Frame Settles (accept_test_key lib)
  unfolding accept_test_key set_stage self_register outer_key
  accept-Settles = bind-Frame Settles o _ _ (send-Settles _) (λ sent.
      bind-Frame Settles o (set_stage lib Stage.stable_communication) _
        (record { holds = λ w. record { stage = inr refl } })
        (λ set.
          bind-Frame Settles o (outer_key lib) _
            (record { holds = λ w. record { stage = inl refl } }) (λ key. register-Settles key)))

  test-Settles : Frame Settles (test_key lib)
  unfolding test_key
  test-Settles =
      catch-Frame Settles o _ _
        (bind-Frame Settles o _ _ (quiet _ (using-Quiet lib Algorithm.aes)) (λ used.
          bind-Frame Settles o _ _ recv-Settles (λ packet.
            if-Frame Settles o (is_header packet.type Header.test_key) _ _ accept-Settles
              close-Settles)))
        close-Settles

  first-Settles :
      (machine : Machine) (ps : List Packet) → Frame (Quiet lib) (send_first lib machine ps)
  first-Settles machine [] = pure-Frame (Quiet lib) (Quiet-IsPreorder lib) tt
  first-Settles machine (p ∷ ps) =
      bind-Frame (Quiet lib) (Quiet-IsPreorder lib) _ _ (send_packet-Quiet lib p)
        (λ sent. record { holds = λ w. record { stage = refl; manager = refl; id = refl } })

  pub remaining-Quiet : (machine : Machine) → Frame (Quiet lib) (send_remaining_data lib machine)
  unfolding send_remaining_data
  remaining-Quiet machine = record {
    holds = λ w. (first-Settles machine w.remaining_packets).holds w;
  }

module _ (lib : CryptoPp) (machine : Machine) where
  manager-Settles :
      (f : ℕ → Manager → Result (Manager × List ℕ)) → Frame (Settles lib) (on_manager lib machine f)
  unfolding on_manager
  manager-Settles f = updated-Frame (Settles lib) (o lib) _ _ _ (λ w h. record { stage = inl refl })

  named-Settles :
      (p : Packet) (f : ℕ → ℕ → Manager → Result (Manager × List ℕ))
      → Frame (Settles lib) (for_named lib machine p f)
  unfolding for_named name_id
  named-Settles p f = bind-Frame (Settles lib) (o lib) _ _ (contents-Settles lib p) (λ name.
      bind-Frame (Settles lib) (o lib) (name_id lib machine name) _
        (record { holds = λ w. record { stage = inl refl } })
        (λ id.
          if-Frame (Settles lib) (o lib) (is_positive id) _ _ (manager-Settles (λ me. f me id))
            (pure-Frame (Settles lib) (o lib) tt)))

  name-Settles : (p : Packet) → Frame (Settles lib) (set_name lib machine p)
  unfolding set_name
  name-Settles p = bind-Frame (Settles lib) (o lib) _ _ (contents-Settles lib p) (λ name.
      bind-Frame (Settles lib) (o lib) _ _
        (updated-Frame (Settles lib) (o lib) _ _ _ (λ w h. record { stage = inl refl }))
        (λ res. send-Settles lib _))

  read-Settles : (w old : ℕ) (b : Buffer) → Frame (Settles lib) (read_4 lib machine w old b)
  unfolding read_4
  read-Settles w old b =
      bind-Frame (Settles lib) (o lib) (lift (Buffer.pop_n 4 b)) _
        (lift-Frame (Settles lib) (o lib) _)
        (λ (bytes, rest).
          bind-Frame (Settles lib) (o lib) (lift (from_bytes w bytes old)) _
            (lift-Frame (Settles lib) (o lib) _) (λ n. pure-Frame (Settles lib) (o lib) (n, rest)))

  location-Settles : (p : Packet) → Frame (Settles lib) (my_location lib machine p)
  unfolding my_location
  location-Settles p =
      if-Frame (Settles lib) (o lib) (not (Buffer.size p.buffer == 16)) _ _ (close-Settles lib) (
        bind-Frame (Settles lib) (o lib) _ _ (read-Settles 4 0 _) (λ (latitude, b).
          bind-Frame (Settles lib) (o lib) _ _ (read-Settles 4 0 b) (λ (longitude, c).
            bind-Frame (Settles lib) (o lib) _ _ (read-Settles 8 machine.garbage c)
              (λ (delta_time, d). manager-Settles _))))

  answer-Settles : (h : Header) (p : Packet) → Frame (Settles lib) (answer lib machine h p)
  unfolding answer add_follower remove_follower remove_followed
  answer-Settles Header.close p = close-Settles lib
  answer-Settles Header.set_name p = name-Settles p
  answer-Settles Header.add_follower p = named-Settles p _
  answer-Settles Header.remove_follower p = named-Settles p _
  answer-Settles Header.remove_followed p = named-Settles p _
  answer-Settles Header.my_location p = location-Settles p
  answer-Settles _ p = pure-Frame (Settles lib) (o lib) tt

  pub stable-Settles : Frame (Settles lib) (stable_communication lib machine)
  unfolding stable_communication
  stable-Settles =
      catch-Frame (Settles lib) (o lib) _ _
        (bind-Frame (Settles lib) (o lib) _ _ (recv-Settles lib)
          (λ packet. answer-Settles packet.type packet))
        (close-Settles lib)

  pub tested-Settles : Frame (Settles lib) (receive_on lib machine Stage.test_key)
  unfolding receive_on
  tested-Settles =
      bind-Frame (Settles lib) (o lib) _ _ (test-Settles lib) (λ tested. stable-Settles)

  pub update-Settles : (s : Stage) → Frame (Settles lib) (update_on lib machine s)
  unfolding update_on push_names push_positions
  update-Settles Stage.stable_communication =
      bind-Frame (Settles lib) (o lib) (push_names lib machine) _
        (updated-Frame (Settles lib) (o lib) _ _ _ (λ w h. record { stage = inl refl }))
        (λ names.
          bind-Frame (Settles lib) (o lib) (push_positions lib machine) _
            (updated-Frame (Settles lib) (o lib) _ _ _ (λ w h. record { stage = inl refl }))
            (λ positions. quiet lib _ (remaining-Quiet lib machine)))
  update-Settles _ = quiet lib _ (remaining-Quiet lib machine)
