-- ===== src/Message/Order.antt =====
-- The comparisons of messages.
use tin_locus.Base.{◌≡◌, ltb, ◌==◌, not, arith}
use tin_locus.Message.{Message, type_code, error_code, eq, ne, lt, gt, le, ge}

-- The comparisons read the type alone: there is one error, so the errors that two messages carry
-- decide nothing. All six agree with the order of the enumerators.
pub lt-type_code :
    (m n : Message)
    → (lt m n ≡ ltb (type_code m.type) (type_code n.type))
      × (gt m n ≡ ltb (type_code n.type) (type_code m.type))
      × (le m n ≡ not (ltb (type_code n.type) (type_code m.type)))
      × (ge m n ≡ not (ltb (type_code m.type) (type_code n.type)))
      × (eq m n ≡ (type_code m.type == type_code n.type))
      × (ne m n ≡ not (type_code n.type == type_code m.type))
unfolding lt gt le ge eq ne error_code
lt-type_code m n = ground arith
