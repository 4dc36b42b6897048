-- ===== src/TestClient/Sending.antt =====
-- `send_message` of test_client.cpp, whatever the kernel answers.
use tin_locus.Base.{
  ℕ, zero, suc, ◌+◌, ◌-◌, ◌≤◌, ◌<◌, ◌≡◌, ◌≢◌, refl, sym, ap, ◌∙◌, inl, inr, List, [], ◌∷◌, ◌++◌,
  arith, ltb, length, take, drop, drop_all, length-take, length-drop, take-append-drop, Bool-cases,
}
use tin_locus.TestClient.{Answer, took, failed, Ended, Sent, send_loop, send_message}
use mathlib.Core.List.{append_assoc}

-- What went out is the front of the bytes, and all of them if the call returned.
pub record Sends (bytes : List ℕ) (s : Sent) : Type 0 where
  pub left : List ℕ
  pub split : s.wire ++ left ≡ bytes
  pub whole : s.ended ≡ Ended.returned → left ≡ []

drop_add : (n k : ℕ) (xs : List ℕ) → drop (n + k) xs ≡ drop k (drop n xs)
drop_add zero k xs = ap (λ (m : ℕ). drop m xs) (omega arith)
drop_add (suc n) k [] = drop_all (suc n + k) [] (omega arith) ∙ sym (drop_all k [] (omega arith))
drop_add (suc n) k (x ∷ xs) =
    let e : suc n + k ≡ suc (n + k) = omega arith in
    ap (λ (m : ℕ). drop m (x ∷ xs)) e ∙ drop_add n k xs

drop-length-take : (n : ℕ) (xs : List ℕ) → drop (length (take n xs)) xs ≡ drop n xs
drop-length-take zero xs = refl
drop-length-take (suc n) [] = refl
drop-length-take (suc n) (x ∷ xs) = drop-length-take n xs

drop_more :
    (n total : ℕ) (message : List ℕ)
    → drop (total + length (take n (drop total message))) message ≡ drop n (drop total message)
drop_more n total message =
    drop_add total (length (take n (drop total message))) message
    ∙ drop-length-take n (drop total message)

going-ne-returned : Ended.going ≢ Ended.returned
going-ne-returned e = cc

failure-ne-returned : Ended.failure ≢ Ended.returned
failure-ne-returned e = cc

send_loop-Sends :
    (total : ℕ) (message : List ℕ) (answers : List Answer)
    → Sends (drop total message) (send_loop total message answers)
unfolding send_loop
send_loop-Sends total message [] = record {
  left = drop total message;
  split = refl;
  whole = λ e. absurd (going-ne-returned e);
}
send_loop-Sends total message (failed ∷ rest) = record {
  left = drop total message;
  split = refl;
  whole = λ e. absurd (failure-ne-returned e);
}
send_loop-Sends total message (took n ∷ rest) =
    let bytes = drop total message in
    let out = take n bytes in
    let more = send_loop-Sends (total + length out) message rest in
    elim (Bool-cases (ltb (total + length out) (length message))) [
      | inl part ↦ rw part (record {
        left = more.left;
        split =
            append_assoc out (send_loop (total + length out) message rest).wire more.left
            ∙ ap (◌++◌ out) (more.split ∙ drop_more n total message)
            ∙ take-append-drop n bytes;
        whole = more.whole;
      })
      | inr all ↦
          let fits : length message ≤ total + length out = ground (arith, all) in
          rw all (record {
            left = drop n bytes;
            split = take-append-drop n bytes;
            whole = λ e.
                drop_all n bytes
                  (omega (arith, fits, length-take n bytes, length-drop total message));
          })
    ]

-- Whatever the kernel answers - parts of the message, an error - the bytes that went out are the
-- front of the message, once and in order, and the whole message if `send_message` returned.
pub send_message-Sends :
    (message : List ℕ) (answers : List Answer) → Sends message (send_message message answers)
unfolding send_message
send_message-Sends message answers = send_loop-Sends 0 message answers

-- The kernel takes a byte at least in each call.
abbrev pub AllTake : List Answer → Type 0
AllTake [] = Unit {0}
AllTake (took zero ∷ rest) = ⊥
AllTake (took (suc n) ∷ rest) = AllTake rest
AllTake (failed ∷ rest) = ⊥

-- A call that returned, and used no more answers than it sent bytes.
pub record Returns (size : ℕ) (answers : List Answer) (s : Sent) : Type 0 where
  pub returned : s.ended ≡ Ended.returned
  pub willing : AllTake s.answers
  pub used : length answers ≤ size + length s.answers

send_loop-Returns :
    (total : ℕ) (message : List ℕ) (answers : List Answer)
    → total < length message
    → AllTake answers
    → length message ≤ total + length answers
    → Returns (length message - total) answers (send_loop total message answers)
unfolding send_loop
send_loop-Returns total message [] some_left w enough = absurd (omega (arith, some_left, enough))
send_loop-Returns total message (failed ∷ rest) some_left w enough = absurd w
send_loop-Returns total message (took zero ∷ rest) some_left w enough = absurd w
send_loop-Returns total message (took (suc n) ∷ rest) some_left w enough =
    let out = take (suc n) (drop total message) in
    let size = length-take (suc n) (drop total message) in
    let whole = length-drop total message in
    elim (Bool-cases (ltb (total + length out) (length message))) [
      | inl part ↦
          let fits : total + length out < length message = ground (arith, part) in
          let more =
            send_loop-Returns (total + length out) message rest fits w
              (omega (arith, size, whole, enough)) in
          rw part (record {
            returned = more.returned;
            willing = more.willing;
            used = omega (arith, more.used, size, whole, fits);
          })
      | inr all ↦ rw all (record { returned = refl; willing = w; used = omega arith })
    ]

-- With a kernel that takes a byte in each call and reports no error, a message that is not empty is
-- sent after as many calls as it has bytes.
pub send_message-Returns :
    (message : List ℕ) (answers : List Answer)
    → 0 < length message
    → AllTake answers
    → length message ≤ length answers
    → Returns (length message) answers (send_message message answers)
unfolding send_message
send_message-Returns message answers some_left w enough =
    let r = send_loop-Returns 0 message answers some_left w (omega (arith, enough)) in
    record { returned = r.returned; willing = r.willing; used = omega (arith, r.used) }
