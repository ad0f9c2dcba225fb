-- ===== src/Tests/Fixtures.antt =====
-- A small network and other inputs for the tests.
use powerhoc.Common.{ℕ, Bool, true, false, [], Option, none, some, Bytes, codes, ◌+◌, ◌≡◌, refl}
use powerhoc.Client.{Client}
use powerhoc.Client.Recovery.{IsReq}
use powerhoc.Exc.{efsm, eagain}
use powerhoc.Retry.{Attempt, done, failed, Socket}

-- A REQ socket: whether an answer is awaited, the answer of the network, and a clock.
pub record Wire : Type 0 where
  pub awaits : Bool
  pub inbox : Option Bytes
  pub clock : ℕ

abbrev pub wire_send : Bool → Wire → Attempt (Unit {0}) × Wire
wire_send true w = (failed efsm, w)
wire_send false w = (done tt, record w { awaits = true })

abbrev pub wire_recv : Bool → Option Bytes → Wire → Attempt Bytes × Wire
wire_recv true (some msg) w = (done msg, record w { awaits = false })
wire_recv true none w = (failed eagain, w)
wire_recv false inbox w = (failed efsm, w)

abbrev pub is_some : Option Bytes → Bool
is_some none = false
is_some (some msg) = true

abbrev pub wire_socket : Socket Wire
wire_socket = record {
  send_noblock = λ msg more w. wire_send w.awaits w;
  recv_noblock = λ w. wire_recv w.awaits w.inbox w;
  poll = λ t w. (done (is_some w.inbox), record w { clock = w.clock + 40 });
  sleep = λ w. record w { clock = w.clock + 100 };
  now = λ w. w.clock;
}

abbrev pub wire_awaits : Wire → Bool
wire_awaits w = w.awaits

send_refused : (b : Bool) (w : Wire) → b ≡ true → (wire_send b w).0 ≡ failed efsm
send_refused true w e = refl
send_refused false w e = cc

send_keeps : (b : Bool) (w : Wire) → b ≡ true → w.awaits ≡ b → (wire_send b w).1.awaits ≡ true
send_keeps true w e f = f
send_keeps false w e f = cc

send_awaits : (b : Bool) (w : Wire) → (wire_send b w).0 ≡ done tt → (wire_send b w).1.awaits ≡ true
send_awaits true w e = cc
send_awaits false w e = refl

recv_answers :
    (b : Bool) (o : Option Bytes) (w : Wire) (msg : Bytes)
    → (wire_recv b o w).0 ≡ done msg
    → (wire_recv b o w).1.awaits ≡ false
recv_answers true (some m) w msg e = refl
recv_answers true none w msg e = cc
recv_answers false o w msg e = cc

pub wire_req : IsReq wire_socket wire_awaits
wire_req = record {
  send_refused = λ msg more s h. send_refused s.awaits s h;
  send_refused_keeps = λ msg more s h. send_keeps s.awaits s h refl;
  send_awaits = λ msg more s h. send_awaits s.awaits s h;
  recv_answers = λ s msg h. recv_answers s.awaits s.inbox s msg h;
  poll_keeps = λ t s. refl;
  sleep_keeps = λ s. refl;
}

-- A socket whose network never answers, and one with a worker's reply at hand.
abbrev pub silent : Wire
silent = record { awaits = false; inbox = none; clock = 0 }

abbrev pub answering : Wire
answering = record { awaits = false; inbox = some (codes "7:OK:xx"); clock = 0 }

abbrev pub new_client : Client
new_client = record {
  timeout = 5000;
  timeout_max_overflow = 7500;
  timeout_overflows = 1;
  timeout_counters = [];
}
