-- ===== src/Message.antt =====
-- server/src/message/Message.h, Message.cpp and ErrorType.h: the messages that the threads send one
-- another. A pointer is a number, and so is a file descriptor; a socket address is its bytes.
pub mod Order
pub mod Names
use tin_locus.Base.{
  ℕ, Bool, true, false, not, ◌&&◌, ◌||◌, List, Option, none, some, ltb, ◌==◌, if◌then◌else◌,
}

-- `Message::Type`
pub data MessageType : Type 0 where
  empty error close add_client erase_client add_epoll_event change_epoll_event : MessageType
  erase_file_descriptor packet_send packet_receive update erase_observer : MessageType

-- The value of the enumerator.
pub type_code : MessageType → ℕ
type_code MessageType.empty = 0
type_code MessageType.error = 1
type_code MessageType.close = 2
type_code MessageType.add_client = 3
type_code MessageType.erase_client = 4
type_code MessageType.add_epoll_event = 5
type_code MessageType.change_epoll_event = 6
type_code MessageType.erase_file_descriptor = 7
type_code MessageType.packet_send = 8
type_code MessageType.packet_receive = 9
type_code MessageType.update = 10
type_code MessageType.erase_observer = 11

-- `enum class ErrorType`
pub data ErrorType : Type 0 where
  undefined_error : ErrorType

pub error_code : ErrorType → ℕ
error_code undefined_error = 0

pub record Message : Type 0 where
  pub type : MessageType
  pub error_type : Option ErrorType
  pub file_descriptor : Option ℕ
  pub sock_addr : Option (List ℕ)
  pub epoll_event : Option ℕ
  pub blocking_queue : Option ℕ
  pub id : Option ℕ

-- `Message(type)`; `Message()` is of type `empty`.
unfoldable pub new : MessageType → Message
new t = record {
  type = t;
  error_type = none;
  file_descriptor = none;
  sock_addr = none;
  epoll_event = none;
  blocking_queue = none;
  id = none;
}

-- `type == rhs.type` and `type < rhs.type`
same_type : Message → Message → Bool
same_type m n = type_code m.type == type_code n.type

less_type : Message → Message → Bool
less_type m n = ltb (type_code m.type) (type_code n.type)

-- The tests of two messages that both carry an error, on the codes of the errors.
abbrev on_errors : Bool → (ℕ → ℕ → Bool) → Option ErrorType → Option ErrorType → Bool
on_errors otherwise f (some e) (some g) = f (error_code e) (error_code g)
on_errors otherwise f (some e) none = otherwise
on_errors otherwise f none g = otherwise

-- `operator==`
pub eq : Message → Message → Bool
unfolding same_type
eq m n = on_errors (same_type m n) (λ e g. same_type m n && e == g) m.error_type n.error_type

-- `operator<`
pub lt : Message → Message → Bool
unfolding less_type
lt m n =
    if less_type m n
    then true
    else (on_errors false (λ e g. if less_type n m then false else ltb e g) m.error_type
        n.error_type)

pub ne : Message → Message → Bool
unfolding eq
ne m n = not (eq n m)

pub gt : Message → Message → Bool
unfolding lt
gt m n = lt n m

pub le : Message → Message → Bool
unfolding lt
le m n = not (lt n m)

pub ge : Message → Message → Bool
unfolding lt
ge m n = not (lt m n)
