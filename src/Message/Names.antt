-- ===== src/Message/Names.antt =====
-- `Message::toString` of server/src/message/Message.cpp, which the log calls.
use tin_locus.Base.{
  ℕ, ◌≡◌, refl, List, [], ◌∷◌, Result, ok, throws, undefined, ◌>>=◌, Option, some, bytes_eq, ◌⊎◌,
  inl, inr,
}
use tin_locus.Base.Dict.{Dict, lookup}
use tin_locus.Message.{MessageType}

-- `toString()`: the switch has no case for two of the types, and the function ends without a `return`.
unfoldable pub to_string : MessageType → Result (List ℕ)
to_string MessageType.empty = ok (b'E' ∷ b'm' ∷ b'p' ∷ b't' ∷ b'y' ∷ [])
to_string MessageType.error = ok (b'E' ∷ b'r' ∷ b'r' ∷ b'o' ∷ b'r' ∷ [])
to_string MessageType.close = ok (b'C' ∷ b'l' ∷ b'o' ∷ b's' ∷ b'e' ∷ [])
to_string MessageType.add_client =
    ok (b'A' ∷ b'd' ∷ b'd' ∷ b'C' ∷ b'l' ∷ b'i' ∷ b'e' ∷ b'n' ∷ b't' ∷ [])
to_string MessageType.erase_client =
    ok (b'E' ∷ b'r' ∷ b'a' ∷ b's' ∷ b'e' ∷ b'C' ∷ b'l' ∷ b'i' ∷ b'e' ∷ b'n' ∷ b't' ∷ [])
to_string MessageType.add_epoll_event =
    ok (
      b'A' ∷ b'd' ∷ b'd' ∷ b'E' ∷ b'P' ∷ b'o' ∷ b'l' ∷ b'l' ∷ b'E' ∷ b'v' ∷ b'e' ∷ b'n' ∷ b't' ∷ [])
to_string MessageType.change_epoll_event = ok (
    b'C' ∷ b'h' ∷ b'a' ∷ b'n' ∷ b'g' ∷ b'e' ∷ b'E' ∷ b'P' ∷ b'o' ∷ b'l' ∷ b'l' ∷ b'E' ∷ b'v' ∷ b'e'
    ∷ b'n' ∷ b't' ∷ [])
to_string MessageType.erase_file_descriptor = ok (
    b'E' ∷ b'r' ∷ b'a' ∷ b's' ∷ b'e' ∷ b'F' ∷ b'i' ∷ b'l' ∷ b'e' ∷ b'D' ∷ b'e' ∷ b's' ∷ b'c' ∷ b'r'
    ∷ b'i' ∷ b'p' ∷ b't' ∷ b'o' ∷ b'r' ∷ [])
to_string MessageType.packet_send =
    ok (b'P' ∷ b'a' ∷ b'c' ∷ b'k' ∷ b'e' ∷ b't' ∷ b'S' ∷ b'e' ∷ b'n' ∷ b'd' ∷ [])
to_string MessageType.packet_receive =
    ok (
      b'P' ∷ b'a' ∷ b'c' ∷ b'k' ∷ b'e' ∷ b't' ∷ b'R' ∷ b'e' ∷ b'c' ∷ b'e' ∷ b'i' ∷ b'v' ∷ b'e' ∷ [])
to_string MessageType.update = undefined
to_string MessageType.erase_observer = undefined

-- What the `default` of a dispatch does: the name of the message goes to the log.
unfoldable pub unexpected {ℓ} : {A : Type ℓ} → A → MessageType → Result A
unfolding to_string
unexpected a t = to_string t >>= λ name. ok a

-- The names that are returned, each with its type.
abbrev names : List MessageType → Dict (List ℕ) MessageType
names [] = []
names (t ∷ ts) = elim (to_string t) [
  | ok name ↦ (name, t) ∷ names ts
  | throws ↦ names ts
  | undefined ↦ names ts
]

abbrev types : List MessageType
types =
    MessageType.empty ∷ MessageType.error ∷ MessageType.close ∷ MessageType.add_client
    ∷ MessageType.erase_client ∷ MessageType.add_epoll_event ∷ MessageType.change_epoll_event
    ∷ MessageType.erase_file_descriptor ∷ MessageType.packet_send ∷ MessageType.packet_receive ∷ []

-- What a reader of the log makes of a name.
unfoldable pub of_string : List ℕ → Option MessageType
unfolding lookup to_string
of_string name = lookup name (names types)

abbrev pub IsNamed : MessageType → Result (List ℕ) → Type 0
IsNamed t (ok name) = of_string name ≡ some t
IsNamed t throws = ⊥
IsNamed t undefined = (t ≡ MessageType.update) ⊎ (t ≡ MessageType.erase_observer)

-- The name in the log says which type the message has; only for `Update` and `EraseObserver` is the
-- call undefined.
pub to_string-IsNamed : (t : MessageType) → IsNamed t (to_string t)
unfolding of_string
to_string-IsNamed MessageType.empty = refl
to_string-IsNamed MessageType.error = refl
to_string-IsNamed MessageType.close = refl
to_string-IsNamed MessageType.add_client = refl
to_string-IsNamed MessageType.erase_client = refl
to_string-IsNamed MessageType.add_epoll_event = refl
to_string-IsNamed MessageType.change_epoll_event = refl
to_string-IsNamed MessageType.erase_file_descriptor = refl
to_string-IsNamed MessageType.packet_send = refl
to_string-IsNamed MessageType.packet_receive = refl
to_string-IsNamed MessageType.update = inl refl
to_string-IsNamed MessageType.erase_observer = inr refl
