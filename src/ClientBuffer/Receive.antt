-- ===== src/ClientBuffer/Receive.antt =====
-- `recv(n)`, read by read.
use tin_locus.Base.{
  ℕ, zero, suc, ◌+◌, ◌-◌, ◌≤◌, ◌<◌, ◌≡◌, refl, true, false, List, [], ◌∷◌, ◌++◌, arith, ok,
  undefined, ◌>>=◌, leb, ◌==◌, length, take, drop, replicate, length-replicate, length-append,
  length-take, length-drop, take_all, drop_all,
}
use tin_locus.ClientBuffer.{
  Received, bytes, would_block, failed, recv_n, recv_loop, resize, write_at,
}
use mathlib.Core.List.{append-nil}

resize_same : (n : ℕ) (xs : List ℕ) → length xs ≡ n → resize n xs ≡ xs
unfolding resize
resize_same n xs h =
    let none_left : n - length xs ≡ 0 = omega arith in
    rw (take_all n xs (omega arith), none_left) (append-nil xs)

length-resize : (n : ℕ) (xs : List ℕ) → length (resize n xs) ≡ n
unfolding resize
length-resize n xs = omega (
  arith,
  length-append (take n xs) (replicate (n - length xs) 0),
  length-take n xs,
  length-replicate {A = ℕ} (n - length xs) 0,
)

-- A round of the loop that reads some bytes, and its two ends.
loop_bytes :
    (n r : ℕ) (b bs : List ℕ) (rest : List Received)
    → 0 < r
    → 0 < length bs
    → recv_loop n b r false (bytes bs ∷ rest)
      ≡ (write_at (n - r) bs (resize r b) >>= λ b'. recv_loop n b' (r - length bs) false rest)
unfolding recv_loop
loop_bytes n r b bs rest p q =
    let more : (r == 0) ≡ false = ground arith in
    let some_bytes : (length bs == 0) ≡ false = ground arith in rw (more, some_bytes)

loop_done :
    (n : ℕ) (b : List ℕ) (answers : List Received)
    → recv_loop n b 0 false answers
      ≡ ok (record { buffer = b; remaining = 0; closed = false; answers = answers })
unfolding recv_loop
loop_done n b [] = refl
loop_done n b (bytes bs ∷ rest) = refl
loop_done n b (would_block ∷ rest) = refl
loop_done n b (failed ∷ rest) = refl

loop_blocked :
    (n r : ℕ) (b : List ℕ)
    → 0 < r
    → recv_loop n b r false []
      ≡ ok (record { buffer = resize r b; remaining = r; closed = false; answers = [] })
unfolding recv_loop
loop_blocked n r b p = let more : (r == 0) ≡ false = ground arith in rw more

-- A first read into the fresh vector.
write_first :
    (n : ℕ) (bs : List ℕ)
    → length bs ≤ n
    → write_at (n - n) bs (resize n (replicate n 0)) ≡ ok (bs ++ drop (length bs) (replicate n 0))
unfolding write_at
write_first n bs h =
    let start : n - n ≡ 0 = omega arith in
    let size = length-replicate {A = ℕ} n 0 in
    let fits : leb (0 + length bs) (length (replicate {A = ℕ} n 0)) ≡ true = ground (arith, size) in
    let offset : 0 + length bs ≡ length bs = omega arith in
    rw (start, resize_same n (replicate n 0) size, fits, offset)

-- A second read, which goes behind the first, into the vector that is now too short.
write_second :
    (n : ℕ) (bs cs b : List ℕ)
    → 0 < length bs
    → 0 < length cs
    → length bs + length cs ≡ n
    → write_at (n - (n - length bs)) cs (resize (n - length bs) b) ≡ undefined
unfolding write_at
write_second n bs cs b p q h =
    let size = length-resize (n - length bs) b in
    let over : leb (n - (n - length bs) + length cs) (length (resize (n - length bs) b)) ≡ false =
      ground (arith, size) in
    rw over

-- Bytes that come in one read are returned as they are.
pub recv_n_whole :
    (n : ℕ) (bs : List ℕ) (rest : List Received)
    → length bs ≡ n
    → 0 < n
    → recv_n n false (bytes bs ∷ rest) ≡ ok (bs, false, rest)
unfolding recv_n
recv_n_whole n bs rest h p =
    let none_left : n - length bs ≡ 0 = omega arith in
    let all : n - 0 ≡ n = omega arith in
    let tail =
      drop_all {A = ℕ} (length bs) (replicate n 0) (omega (arith, length-replicate {A = ℕ} n 0)) in
    rw (
      loop_bytes n n (replicate n 0) bs rest p (omega arith),
      write_first n bs (omega arith),
      none_left,
      tail,
      append-nil bs,
      loop_done n bs rest,
      all,
      resize_same n bs h,
    )

take-take-append : (r : ℕ) (bs zs : List ℕ) → take (length bs) (take r (bs ++ zs)) ≡ take r bs
take-take-append zero [] zs = refl
take-take-append (suc r) [] zs = refl
take-take-append zero (b ∷ bs) zs = refl
take-take-append (suc r) (b ∷ bs) zs = rw (take-take-append r bs zs)

-- The two cuts that a part of the bytes goes through.
resize-resize :
    (r : ℕ) (bs zs : List ℕ)
    → r ≤ length (bs ++ zs)
    → resize (length bs) (resize r (bs ++ zs)) ≡ take r bs ++ replicate (length bs - r) 0
unfolding resize
resize-resize r bs zs h =
    let kept : r - length (bs ++ zs) ≡ 0 = omega arith in
    let size : length (take r (bs ++ zs)) ≡ r = omega (arith, length-take r (bs ++ zs)) in
    rw (kept, append-nil (take r (bs ++ zs)), size, take-take-append r bs zs)

-- If a first read brings fewer bytes than are wanted and there are no more for now, the vector has
-- been cut to the size of what is missing: only that many of the bytes are returned, and zeros for
-- the others.
pub recv_n_part :
    (n : ℕ) (bs : List ℕ)
    → 0 < length bs
    → length bs < n
    → recv_n n false (bytes bs ∷ [])
      ≡ ok (take (n - length bs) bs ++ replicate (length bs - (n - length bs)) 0, false, [])
unfolding recv_n
recv_n_part n bs p h =
    let zeros : List ℕ = drop (length bs) (replicate n 0) in
    let come : n - (n - length bs) ≡ length bs = omega arith in
    let room : n - length bs ≤ length (bs ++ zeros) = omega (
      arith,
      length-append bs zeros,
      length-drop {A = ℕ} (length bs) (replicate n 0),
      length-replicate {A = ℕ} n 0,
    ) in
    rw (
      loop_bytes n n (replicate n 0) bs [] (omega arith) p,
      write_first n bs (omega arith),
      loop_blocked n (n - length bs) (bs ++ zeros) (omega arith),
      come,
      resize-resize (n - length bs) bs zeros room,
    )

-- Bytes that come in two reads are written past the end of the vector.
pub recv_n_split :
    (n : ℕ) (bs cs : List ℕ) (rest : List Received)
    → 0 < length bs
    → 0 < length cs
    → length bs + length cs ≡ n
    → recv_n n false (bytes bs ∷ bytes cs ∷ rest) ≡ undefined
unfolding recv_n
recv_n_split n bs cs rest p q h = rw (
  loop_bytes n n (replicate n 0) bs (bytes cs ∷ rest) (omega arith) p,
  write_first n bs (omega arith),
  loop_bytes n (n - length bs) (bs ++ drop (length bs) (replicate n 0)) cs rest (omega arith) q,
  write_second n bs cs (bs ++ drop (length bs) (replicate n 0)) p q h,
)
