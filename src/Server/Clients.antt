-- ===== src/Server/Clients.antt =====
-- The clients of the manager, and what the threads are told of them.
use tin_locus.Base.{
  ℕ, ◌≡◌, refl, sym, ap, ◌∙◌, inl, inr, List, [], ◌∷◌, ◌++◌, none, some, Result, ok, nat_eq, arith,
}
use tin_locus.Base.Dict.{
  lookup, insert, erase, kept, key-cases, lookup-insert_self, lookup-insert_ne, lookup-erase_self,
  lookup-erase_ne,
}
use tin_locus.Message.{Message}
use tin_locus.Message.Names.{to_string, unexpected}
use tin_locus.Server.{ClientManager, add_client, erase_client, event_message, recv}

erased :
    (fd client : ℕ) (c : ClientManager)
    → lookup fd c.clients_map ≡ some client
    → (erase_client fd c).clients_map ≡ erase fd c.clients_map
unfolding erase_client
erased fd client c there = ground (arith, there)

-- A client that is added under a new descriptor is in the map, the server thread is told of it, and
-- the receiver and the sender of its buffer; when it is erased, the map is what it was.
pub add_client_lem :
    (fd client client_buffer : ℕ) (c : ClientManager)
    → lookup fd c.clients_map ≡ none
    → (d : ClientManager) × (add_client fd (ok (client, client_buffer)) c ≡ ok d)
      × (lookup fd d.clients_map ≡ some client)
      × (d.to_server ≡ c.to_server ++ event_message client ∷ [])
      × (d.to_receiver ≡ c.to_receiver ++ event_message client_buffer ∷ [])
      × (d.to_sender ≡ c.to_sender ++ event_message client_buffer ∷ [])
      × ((g : ℕ) → lookup g (erase_client fd d).clients_map ≡ lookup g c.clients_map)
unfolding add_client
add_client_lem fd client client_buffer c free =
    let there = lookup-insert_self fd client c.clients_map ∙ ap (kept client) free in
    let d : ClientManager = record {
      clients_map = insert fd client c.clients_map;
      to_server = c.to_server ++ event_message client ∷ [];
      to_receiver = c.to_receiver ++ event_message client_buffer ∷ [];
      to_sender = c.to_sender ++ event_message client_buffer ∷ [];
    } in
    (
      d,
      rw free,
      there,
      refl,
      refl,
      refl,
      λ g. ap (lookup g) (erased fd client d there) ∙ elim (key-cases g fd) [
        | inl same ↦ rw same (lookup-erase_self fd (insert fd client c.clients_map) ∙ sym free)
        | inr other ↦
            lookup-erase_ne fd g (insert fd client c.clients_map) other
            ∙ lookup-insert_ne fd g client c.clients_map other
      ],
    )

-- A message without a file descriptor changes nothing, whatever its type, if the type has a name for
-- the log.
pub recv_incomplete :
    (m : Message) (name : List ℕ) (created : Result (ℕ × ℕ)) (c : ClientManager)
    → m.file_descriptor ≡ none
    → to_string m.type ≡ ok name
    → recv m created c ≡ ok c
unfolding recv unexpected
recv_incomplete m name created c h named = ground (arith, h, named)
