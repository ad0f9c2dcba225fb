-- ===== src/Tests/Clients.antt =====
-- Clients, their pool and the whole way of a job.
use powerhoc.Common.{◌+◌, true, [], ◌∷◌, none, some, codes, All, ◌≡◌, refl, arith}
use powerhoc.Client.{text, as_job, execute, settle}
use powerhoc.Client.Overflow.{Answer, settled, streak, settle-streak}
use powerhoc.Client.Recovery.{results, no_recovery}
use powerhoc.Exc.{ok, err, timeout_error}
use powerhoc.Job.{serialize}
use powerhoc.Reply.{reply}
use powerhoc.Worker.Replies.{answer}
use powerhoc.Job.RoundTrip.{IsWireSafe}
use powerhoc.Pool.{Pool}
use powerhoc.Pool.Shared.{
  Shared, takes, interrupted, Reach, here, next, connectors_of, IsClean, Reach-count, Reach-IsClean,
}
use powerhoc.Retry.{retry, send, recv, poll_loop}
use powerhoc.Retry.Laws.{Ends, retry-Ends}
use powerhoc.System.{Carries, execute-target}
use powerhoc.Tests.Fixtures.{
  Wire, wire_socket, wire_awaits, wire_req, silent, answering, new_client,
}
use powerhoc.Text.Decimal.{ℤ, pos, format}
use powerhoc.Worker.{Host, run_target}

abbrev late : ℤ → Answer
late pid = record { pid = pid; duration = 6000; res = true; text = codes "xx" }

-- The second late answer of a worker in a row is one too many.
settle-streak_example :
    (settle
      (settled new_client (late (pos 7) ∷ late (pos 8) ∷ []))
      6000
      (pos 7)
      true
      (codes "xx")).0
    ≡ err timeout_error
unfolding streak
settle-streak_example =
    settle-streak new_client (late (pos 7) ∷ late (pos 8) ∷ []) (late (pos 7)) refl

-- Another call, which the socket refuses, behind one that got no answer.
no_recovery_example :
    All
      (λ r. r ≡ some (err timeout_error))
      (results wire_socket 3 5 new_client
        ((text (codes "a"), none) ∷ (text (codes "b"), some 9) ∷ [])
        silent)
no_recovery_example =
    no_recovery wire_socket wire_awaits wire_req 3 5 new_client (text (codes "a")) none
      ((text (codes "b"), some 9) ∷ []) silent (unfold send poll_loop in (refl, refl))

retry-Ends_example :
    Ends wire_socket.recv_noblock wire_socket.sleep 3 silent
      (retry wire_socket.recv_noblock wire_socket.sleep 3 silent)
retry-Ends_example = retry-Ends wire_socket.recv_noblock wire_socket.sleep 3 silent

retries_slept :
    retry wire_socket.recv_noblock wire_socket.sleep 3 silent
    ≡ (err timeout_error, record silent { clock = 300 })
unfolding retry
retries_slept = refl

abbrev echo : Host
echo = record { target = λ j. ok j.job_data; report = λ e. codes "failed"; deliver = λ res. ok tt }

carried :
    Carries wire_socket echo 3 5 7 new_client
      (text (codes "xx"))
      none
      answering
      (record answering { clock = 40 })
carried = record {
  taken = record answering { awaits = true };
  polled = record answering { awaits = true; clock = 40 };
  sends = unfold send in refl;
  polls = unfold poll_loop in refl;
  receives = unfold recv answer run_target serialize as_job reply format in refl;
}

text-IsWireSafe : IsWireSafe (record { job_data = codes "xx"; headers = [] })
text-IsWireSafe = record { safe = tt; distinct = tt }

execute-target_example :
    (execute wire_socket 3 5 new_client (text (codes "xx")) none answering).0
    ≡ some (ok (codes "xx"))
unfolding as_job
execute-target_example =
    execute-target wire_socket echo 3 5 7 new_client (text (codes "xx")) none answering
      (record answering { clock = 40 }) carried text-IsWireSafe (omega arith)

abbrev pool_of_two : Pool Wire
pool_of_two = record {
  connectors = (new_client, silent) ∷ (new_client, silent) ∷ [];
  timeout = 5;
  timeout_max_overflow = 7;
  timeout_overflows = 1;
}

abbrev at_first : Shared Wire
at_first = record { pool = pool_of_two; busy = [] }

abbrev one_taken : Shared Wire
one_taken = record {
  pool = record pool_of_two { connectors = (new_client, silent) ∷ [] };
  busy = (new_client, silent) ∷ [];
}

abbrev one_lost : Shared Wire
one_lost = record { pool = one_taken.pool; busy = [] }

lost_way : Reach wire_socket 3 5 silent at_first one_lost 1
lost_way =
    next (next (here refl) (takes (new_client, silent) _ refl refl) refl)
      (interrupted [] [] (new_client, silent) refl refl) refl

Reach-count_example :
    connectors_of wire_socket 3 5 silent one_lost + 1
    ≡ connectors_of wire_socket 3 5 silent at_first
Reach-count_example = Reach-count wire_socket 3 5 silent lost_way

Reach-IsClean_example : IsClean wire_socket 3 5 silent wire_awaits wire_req refl one_lost
Reach-IsClean_example =
    Reach-IsClean wire_socket 3 5 silent wire_awaits wire_req refl lost_way (refl, (refl, tt))
