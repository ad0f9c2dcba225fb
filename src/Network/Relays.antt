-- ===== src/Network/Relays.antt =====
-- What the broker and a worker send for one message: what they should, or nothing where a stream
-- refuses it or a job is timed out.
use powerhoc.Common.{
  List, [], ◌∷◌, ◌++◌, some, Bytes, codes, ◌≡◌, ◌⊎◌, inl, inr, ap, arith, Bool-cases,
}
use powerhoc.Broker.{
  Broker, Msg, Streams, handle_recv_front, handle_recv_back, front_parts, to_front, to_back,
  log_error,
}
use powerhoc.Broker.Routing.{unsnoc-append, serialize-ne-ping}
use powerhoc.Job.{Job, serialize}
use powerhoc.Network.{flushed, relay_front, relay_back}
use powerhoc.Text.Decimal.{format}
use powerhoc.Timer.{Timer}
use powerhoc.Worker
use powerhoc.Worker.{Worker, Host, finish, run_target, run_job, send_back}
use powerhoc.Worker.Replies.{KeepsWorking, IsReady, answer, run_job-ready, result_line-answer}

-- All or nothing of a list of messages.
abbrev pub OneOrNone : List Msg → Msg → Type 0
OneOrNone sent msg = (sent ≡ msg ∷ []) ⊎ (sent ≡ [])

module _ (streams : Streams) where
  pub relay_back_sends :
      (msg : Msg) (b : Broker)
      → ((relay_back streams msg b).pid ≡ b.pid)
        × OneOrNone (relay_back streams msg b).front_sent msg
  unfolding relay_back handle_recv_back to_front log_error
  relay_back_sends msg b = ground arith

  relay_front-append :
      (envelope : Msg) (part : Bytes) (b : Broker)
      → relay_front streams (envelope ++ part ∷ []) b
        ≡ (front_parts streams (some (envelope, part)) (envelope ++ part ∷ []) (flushed b)).1
  unfolding relay_front handle_recv_front
  relay_front-append envelope part b =
      ap (λ o. (front_parts streams o (envelope ++ part ∷ []) (flushed b)).1)
        (unsnoc-append envelope part)

  -- What the broker has sent after a message of the front: `down` and `out`.
  pub record Sends (b : Broker) (b' : Broker) (down out : List Msg → Type 0) : Type 0 where
    pub same : b'.pid ≡ b.pid
    pub sent_down : down b'.back_sent
    pub sent_out : out b'.front_sent

  parts_job :
      (envelope : Msg) (j : Job) (b : Broker) (msg : Msg)
      → Sends b
          (front_parts streams (some (envelope, serialize j)) msg (flushed b)).1
          (λ sent. OneOrNone sent msg)
          (λ sent. sent ≡ [])
  unfolding front_parts to_back log_error
  parts_job envelope j b msg = record {
    same = ground (arith, serialize-ne-ping j);
    sent_down = ground (arith, serialize-ne-ping j);
    sent_out = ground (arith, serialize-ne-ping j);
  }

  parts_ping :
      (envelope : Msg) (b : Broker) (msg : Msg)
      → Sends b
          (front_parts streams (some (envelope, codes "PING")) msg (flushed b)).1
          (λ sent. sent ≡ [])
          (λ sent. OneOrNone sent (envelope ++ format b.pid ∷ []))
  unfolding front_parts to_front
  parts_ping envelope b msg = record {
    same = ground arith;
    sent_down = ground arith;
    sent_out = ground arith;
  }

  pub relay_front-job :
      (envelope : Msg) (j : Job) (b : Broker)
      → Sends b
          (relay_front streams (envelope ++ serialize j ∷ []) b)
          (λ sent. OneOrNone sent (envelope ++ serialize j ∷ []))
          (λ sent. sent ≡ [])
  relay_front-job envelope j b =
      rw (relay_front-append envelope (serialize j) b) (parts_job envelope j b _)

  pub relay_front-ping :
      (envelope : Msg) (b : Broker)
      → Sends b
          (relay_front streams (envelope ++ codes "PING" ∷ []) b)
          (λ sent. sent ≡ [])
          (λ sent. OneOrNone sent (envelope ++ format b.pid ∷ []))
  relay_front-ping envelope b =
      rw (relay_front-append envelope (codes "PING") b) (parts_ping envelope b _)

pub handle_recv_back-sends :
    (host : Host) (meanwhile : Timer → Timer) (parts : List Bytes) (w : Worker)
    → IsReady w
    → KeepsWorking meanwhile
    → w.sent ≡ []
    → ((Worker.handle_recv_back host meanwhile parts w).sent ≡ answer host w.pid parts ∷ [])
      ⊎ ((Worker.handle_recv_back host meanwhile parts w).sent ≡ [])
unfolding Worker.handle_recv_back finish send_back
handle_recv_back-sends host meanwhile parts w h k e =
    let t = (run_job meanwhile (run_target host parts) w.timer).1 in
    let (body, _, late) = run_job-ready meanwhile (run_target host parts) w.timer h k in
    elim (Bool-cases t.timed_out) [
      | inl lost ↦ inr (ground (arith, lost, e))
      | inr soon ↦ ground (arith, soon, e, body, result_line-answer host w t parts soon)
    ]
