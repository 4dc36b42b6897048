-- ===== src/TestClient/Tests.antt =====
-- test_client.cpp on two typed lines.
use tin_locus.Base.{ℕ, ◌≡◌, refl, false, List, [], ◌∷◌, arith}
use tin_locus.TestClient.{Answer, took, failed, Kernel, addr_size, send_message, main}
use tin_locus.TestClient.Sending.{Sends, send_message-Sends}
use tin_locus.TestClient.Lines.{typed, without_newlines}
use tin_locus.TestClient.Program.{Runs, main-Runs}

-- "hi", a line end, an empty line, and "yo"
abbrev lines : List ℕ
lines = 104 ∷ 105 ∷ 10 ∷ 10 ∷ 121 ∷ 111 ∷ []

abbrev answers : List Answer
answers = took 1 ∷ took 9 ∷ took 1 ∷ took 1 ∷ took 5 ∷ took 5 ∷ []

typed_two : typed lines ≡ 104 ∷ 105 ∷ 121 ∷ 111 ∷ []
unfolding typed without_newlines
typed_two = refl

send_message-Sends_example : Sends lines (send_message lines (took 2 ∷ failed ∷ []))
send_message-Sends_example = send_message-Sends lines (took 2 ∷ failed ∷ [])

abbrev kernel : Kernel
kernel = record { refuses = λ call. false; remote_addr_len = addr_size; local_addr_len = addr_size }

main-Runs_example : Runs kernel lines (main kernel 7 [] lines answers)
main-Runs_example = main-Runs kernel 7 lines answers refl (omega arith) tt (omega arith)
