-- ===== src/Tests/Scripts.antt =====
-- The scripts of the examples.
use mathlib.Core.List.{Memᴰ}
use powerhoc.Client.{Client, job, as_job, set_counter, execute}
use powerhoc.Common.{
  ℕ, ◌+◌, ◌*◌, ◌%◌, List, true, [], ◌∷◌, ◌++◌, none, some, Bytes, codes, ◌≡◌, refl, arith,
}
use powerhoc.Dict.{bytes_eq, get}
use powerhoc.Examples.{sign, echo}
use powerhoc.Examples.Calls.{echo_loop, phose_loop}
use powerhoc.Examples.Crypto.{Random, Pycryptopp, new_algs, client_arg, random_text}
use powerhoc.Examples.Runs.{CarriesAll, errors, echo_args, echo_loop-echo}
use powerhoc.Examples.Signed.{execute-signature}
use powerhoc.Examples.Bench.{one}
use powerhoc.Examples.Threads.{
  Interleaves, all_done, ends, prints, IsLate, phose_threads, phose_threads-errors,
}
use powerhoc.Exc.{Result, ok, err, raised}
use powerhoc.Job.{Job, new, serialize}
use powerhoc.Reply.{reply}
use powerhoc.Retry.{send, recv, poll_loop}
use powerhoc.System.{Carries, outcome}
use powerhoc.Tests.Fixtures.{
  Wire, wire_socket, wire_awaits, wire_req, silent, answering, new_client,
}
use powerhoc.Text.{split_max, lstrip, rstrip}
use powerhoc.Text.Decimal.{pos, to_long, format}
use powerhoc.Worker.{Host, run_target}
use powerhoc.Worker.Replies.{answer}

-- A host that runs a target whose result is known.
abbrev running : (Job → Result Bytes) → Host
running target = record { target = target; report = λ e. codes "failed"; deliver = λ res. ok tt }

echo_runs :
    (echo_loop wire_socket 3 5 (codes "xx" ∷ codes "xx" ∷ []) new_client answering).0 ≡ some (ok tt)
unfolding echo_loop split_max to_long lstrip rstrip
echo_runs = refl

echo_asserts :
    (echo_loop wire_socket 3 5 (codes "xx" ∷ codes "yy" ∷ []) new_client answering).0
    ≡ some (err (raised (codes "AssertionError")))
unfolding echo_loop split_max to_long lstrip rstrip
echo_asserts = refl

abbrev echoed : ℕ → Wire
echoed clock = record answering { clock = clock }

echo_carried :
    (c : Client) (clock : ℕ)
    → Carries wire_socket
        (running echo)
        3
        5
        7
        c
        (job (new (codes "xx") none))
        none
        (echoed clock)
        (echoed (clock + 40))
echo_carried c clock = record {
  taken = record (echoed clock) { awaits = true };
  polled = record (echoed clock) { awaits = true; clock = clock + 40 };
  sends = unfold send in refl;
  polls = unfold poll_loop in refl;
  receives = unfold recv answer run_target serialize as_job reply format echo new in refl;
}

echoes_carried :
    CarriesAll wire_socket
      (running echo)
      3
      5
      (echo_args (codes "xx" ∷ codes "xx" ∷ []))
      new_client
      answering
unfolding as_job new execute split_max to_long rstrip lstrip
echoes_carried = (
  echoed 40,
  7,
  echo_carried new_client 0,
  record { safe = tt; distinct = tt },
  omega arith,
  (
    echoed 80,
    7,
    echo_carried (set_counter (pos 7) 0 new_client) 40,
    record { safe = tt; distinct = tt },
    omega arith,
    tt,
  ),
)

echo_loop-echo_example :
    (echo_loop wire_socket 3 5 (codes "xx" ∷ codes "xx" ∷ []) new_client answering).0 ≡ some (ok tt)
echo_loop-echo_example =
    echo_loop-echo wire_socket (running echo) 3 5 (λ j. refl) (codes "xx" ∷ codes "xx" ∷ [])
      new_client answering echoes_carried

phose_prints : phose_loop wire_socket 3 5 2 0 new_client silent ≡ codes "error" ∷ codes "error" ∷ []
unfolding phose_loop
phose_prints = refl

-- The lines of threads that run one after the other
abbrev in_turn : List (List Bytes) → List Bytes
in_turn [] = []
in_turn (l ∷ ls) = l ++ in_turn ls

first_thread :
    (l : List Bytes) (ls : List (List Bytes)) (out : List Bytes)
    → Interleaves ls out
    → Interleaves (l ∷ ls) (l ++ out)
first_thread [] ls out w = ends w
first_thread (line ∷ l) ls out w = prints [] ls line l (first_thread l ls out w)

in_turn-Interleaves : (ls : List (List Bytes)) → Interleaves ls (in_turn ls)
in_turn-Interleaves [] = all_done
in_turn-Interleaves (l ∷ ls) = first_thread l ls (in_turn ls) (in_turn-Interleaves ls)

silent-IsLate : IsLate wire_socket 3 5 wire_awaits wire_req silent
silent-IsLate = (unfold send serialize in refl, unfold send poll_loop serialize in refl)

phose_threads-errors_example :
    in_turn (phose_threads wire_socket 3 5 (silent ∷ silent ∷ [])) ≡ errors (2 * one)
phose_threads-errors_example =
    phose_threads-errors wire_socket 3 5 wire_awaits wire_req (silent ∷ silent ∷ [])
      (in_turn (phose_threads wire_socket 3 5 (silent ∷ silent ∷ [])))
      (silent-IsLate, (silent-IsLate, tt)) (in_turn-Interleaves _)

-- pycryptopp in plain text
abbrev plain : Pycryptopp ℕ
plain = record {
  ecdsa = λ seed msg. ok (codes "E" ++ msg);
  ed25519 = λ seed msg. ok (codes "D" ++ msg);
  rsa = λ bits r. ((λ msg. ok (codes "R" ++ msg)), r + 1);
}

abbrev counting : Random ℕ
counting lowest highest r = (r % 256, r + 1)

abbrev signer : Job → Result Bytes
signer = sign (new_algs counting plain 0).0

abbrev with_signature : Wire
with_signature = record answering { inbox = some (codes "7:OK:Rab") }

signed_carried :
    Carries wire_socket
      (running signer)
      3
      5
      7
      new_client
      (client_arg (171 ∷ [], codes "RSA2048"))
      none
      with_signature
      (record with_signature { clock = 40 })
unfolding as_job client_arg
signed_carried = record {
  taken = record with_signature { awaits = true };
  polled = record with_signature { awaits = true; clock = 40 };
  sends = unfold send in refl;
  polls = unfold poll_loop in refl;
  receives = unfold recv answer run_target serialize reply format sign new_algs in refl;
}

execute-signature_example :
    (f : Bytes → Result Bytes) × (get (codes "RSA2048") (new_algs counting plain 0).0 ≡ some f)
    × ((execute wire_socket 3 5 new_client
          (client_arg (171 ∷ [], codes "RSA2048"))
          none
          with_signature).0
        ≡ some (outcome (running signer) (f (random_text (171 ∷ [])))))
execute-signature_example =
    execute-signature counting plain 0 wire_socket (running signer) 3 5 7 new_client with_signature
      (record with_signature { clock = 40 }) (171 ∷ []) (codes "RSA2048")
      (Memᴰ.tail (Memᴰ.tail (Memᴰ.head refl))) (λ j. refl) signed_carried (omega arith)
