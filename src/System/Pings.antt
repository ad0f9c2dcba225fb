-- ===== src/System/Pings.antt =====
-- A ping's way from a client to the broker and back.
use powerhoc.Common.{ℕ, ◌*◌, true, false, [], ◌∷◌, ◌++◌, some, Bytes, codes, ◌≡◌, refl, arith}
use powerhoc.Broker.{Broker, Streams, Msg, front_parts, to_front, handle_recv_front}
use powerhoc.Broker.Routing.{TakesAll, unsnoc-append}
use powerhoc.Client.{ping, ping_poll, ping_answer}
use powerhoc.Exc.{ok}
use powerhoc.Retry.{done, Socket, send, recv, poll_loop}
use powerhoc.Text.Decimal.{pos, format}
use powerhoc.Text.Decimal.RoundTrip.{to_int-format}

-- The network carries the ping that starts in `s`: the socket takes it, an answer can be read in
-- time, and it is `wire`. The state is `s'` when it was read.
pub record CarriesPing {S : Type 0} (socket : Socket S) (n fuel timeout : ℕ) (wire : Bytes)
    (s s' : S) : Type 0 where
  pub taken : S
  pub polled : S
  pub sends : send socket n (codes "PING") false s ≡ (ok tt, taken)
  pub polls : poll_loop socket fuel (timeout * 1000) taken ≡ (some (done true), polled)
  pub receives : recv socket n polled ≡ (ok wire, s')

pub answered :
    (streams : Streams) (takes : TakesAll streams) (envelope : Msg) (b : Broker)
    → handle_recv_front streams (envelope ++ codes "PING" ∷ []) b
      ≡ (ok tt, record b { front_sent = b.front_sent ++ (envelope ++ format b.pid ∷ []) ∷ [] })
unfolding handle_recv_front to_front
answered streams takes envelope b =
    rw (unsnoc-append envelope (codes "PING"), front_parts)
      (ground (arith, takes.front_takes (envelope ++ format b.pid ∷ [])))

ping_read :
    {S : Type 0} (socket : Socket S) (n fuel pid : ℕ) (s s' : S)
    → recv socket n s ≡ (ok (format pid), s')
    → ping_poll socket n fuel (some (done true)) s ≡ (some (ok (some (pos pid))), s')
unfolding ping_poll ping_answer
ping_read socket n fuel pid s s' e = rw (e, ping_poll) (rw (to_int-format pid, ping_answer) refl)

-- If both streams take every message, the broker answers a ping with its process id, under the
-- sender's envelope; and where the network carries the ping and that answer, `ping` returns this
-- process id as a number.
pub ping-handle_recv_front :
    {S : Type 0} (socket : Socket S) (n fuel timeout : ℕ) (s s' : S) (streams : Streams)
    (takes : TakesAll streams) (envelope : Msg) (b : Broker)
    → CarriesPing socket n fuel timeout (format b.pid) s s'
    → (handle_recv_front streams (envelope ++ codes "PING" ∷ []) b
        ≡ (ok tt, record b { front_sent = b.front_sent ++ (envelope ++ format b.pid ∷ []) ∷ [] }))
      × (ping socket n fuel timeout s ≡ (some (ok (some (pos b.pid))), s'))
unfolding ping
ping-handle_recv_front socket n fuel timeout s s' streams takes envelope b k = (
  answered streams takes envelope b,
  rw (k.sends, ping) (rw (k.sends, k.polls) (ping_read socket n fuel b.pid k.polled s' k.receives)),
)
