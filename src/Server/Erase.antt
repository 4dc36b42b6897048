-- ===== src/Server/Erase.antt =====
-- Clients whose connections are closed: the messages `EraseClient`, one after another.
use tin_locus.Base.{
  ℕ, ◌≡◌, refl, ◌∙◌, inl, inr, Bool, false, List, [], ◌∷◌, none, Result, ok, throws, ◌>>=◌, ◌==◌,
  ◌||◌, if◌then◌else◌, nat_eq, arith, Option-cases,
}
use tin_locus.Base.Dict.{lookup, key-cases, lookup-erase_self, lookup-erase_ne}
use tin_locus.Message
use tin_locus.Message.{Message, MessageType}
use tin_locus.Server.{ClientManager, erase_client, erase_message, recv}

-- `recv()` for each of some messages, which were popped in this order. No client is created.
pub recv_all : List Message → ClientManager → Result ClientManager
recv_all [] c = ok c
recv_all (m ∷ ms) c = recv m throws c >>= λ d. recv_all ms d

abbrev pub erasures : List ℕ → List Message
erasures [] = []
erasures (fd ∷ fds) = erase_message fd ∷ erasures fds

abbrev pub is_one_of : ℕ → List ℕ → Bool
is_one_of g [] = false
is_one_of g (fd ∷ fds) = g == fd || is_one_of g fds

lookup-erase_client :
    (fd g : ℕ) (c : ClientManager)
    → lookup g (erase_client fd c).clients_map ≡ (if g == fd then none else lookup g c.clients_map)
unfolding erase_client
lookup-erase_client fd g c = elim (Option-cases (lookup fd c.clients_map)) [
  | inl e ↦ elim (key-cases g fd) [ inl same ↦ ground arith | inr other ↦ ground arith ]
  | inr (client, e) ↦ elim (key-cases g fd) [
    | inl same ↦ ground (arith, lookup-erase_self fd c.clients_map)
    | inr other ↦ ground (arith, lookup-erase_ne fd g c.clients_map other)
  ]
]

-- After the messages of some connections that closed - each may come more than once, and may name a
-- client that is not there - exactly the clients of these connections are gone.
pub recv_all-erasures :
    (fds : List ℕ) (c : ClientManager)
    → (d : ClientManager) × (recv_all (erasures fds) c ≡ ok d)
      × ((g : ℕ)
          → lookup g d.clients_map ≡ (if is_one_of g fds then none else lookup g c.clients_map))
      × (d.to_server ≡ c.to_server)
unfolding recv_all recv erase_message Message.new
recv_all-erasures [] c = (c, refl, λ g. refl, refl)
recv_all-erasures (fd ∷ fds) c =
    let (d, e, gone, told) = recv_all-erasures fds (erase_client fd c) in
    (d, e, λ g. ground (arith, gone g, lookup-erase_client fd g c), told ∙ quiet fd c)
  where
    quiet : (fd : ℕ) (c : ClientManager) → (erase_client fd c).to_server ≡ c.to_server
    quiet fd c = ground arith
