-- ===== src/Retry.antt =====
-- `send` and `recv` of powerhose/util.py: a call that does not block, made again after a short sleep
-- while the socket is not ready, and the poll of powerhose/client.py, made again while a signal
-- interrupts it.
pub mod Laws
pub mod Polls
use powerhoc.Common.{ℕ, zero, suc, Bool, true, false, Option, none, some, Bytes, if◌then◌else◌}
use powerhoc.Exc.{Errno, efsm, eagain, eintr, Result, ok, err, timeout_error, zmq_error}

-- What one call of pyzmq does.
pub data Attempt {ℓ} (A : Type ℓ) : Type ℓ where
  done : A → Attempt A
  failed : Errno → Attempt A

-- The REQ socket of a client and the clock, as pyzmq and `time` give them: `S` is all that the calls
-- can see or change, `now` is in milliseconds, and `poll` tells if an answer can be read.
pub record Socket (S : Type 0) : Type 0 where
  pub send_noblock : Bytes → Bool → S → Attempt (Unit {0}) × S
  pub recv_noblock : S → Attempt Bytes × S
  pub poll : ℕ → S → Attempt Bool × S
  pub sleep : S → S
  pub now : S → ℕ

-- `e.errno in (zmq.EFSM, zmq.EAGAIN)`
unfoldable pub is_retryable : Errno → Bool
is_retryable efsm = true
is_retryable eagain = true
is_retryable _ = false

module _ {S A : Type 0} (call : S → Attempt A × S) (sleep : S → S) where
  -- The loop of `send` and `recv`, on the retries that are left.
  unfoldable pub retry : ℕ → S → Result A × S
  unfolding is_retryable
  retry zero s = (err timeout_error, s)
  retry (suc retries) s =
      let (attempt, s') = call s in
      elim attempt [
        | done a ↦ (ok a, s')
        | failed e ↦
            let again = retry retries (sleep s') in
            if is_retryable e then again else (err (zmq_error e), s')
      ]

-- `send(socket, msg, more, max_retries)`
unfoldable pub send : {S : Type 0} → Socket S → ℕ → Bytes → Bool → S → Result (Unit {0}) × S
unfolding retry
send socket max_retries msg more = retry (socket.send_noblock msg more) socket.sleep max_retries

-- `recv(socket, max_retries)`
unfoldable pub recv : {S : Type 0} → Socket S → ℕ → S → Result Bytes × S
unfolding retry
recv socket max_retries = retry socket.recv_noblock socket.sleep max_retries

-- `while True: try: poll … break`: `none` if signals interrupt more polls than the fuel allows.
unfoldable pub poll_loop : {S : Type 0} → Socket S → ℕ → ℕ → S → Option (Attempt Bool) × S
poll_loop socket zero timeout s = (none, s)
poll_loop socket (suc fuel) timeout s =
    let (attempt, s') = socket.poll timeout s in
    elim attempt [ failed eintr ↦ poll_loop socket fuel timeout s' | other ↦ (some other, s') ]
