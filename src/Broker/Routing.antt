-- ===== src/Broker/Routing.antt =====
-- Where the broker sends what it gets.
use mathlib.Core.List.{cons-ne-nil}
use powerhoc.Common.{
  ℕ, false, List, [], ◌∷◌, ◌++◌, append_assoc, append-nil, Option, none, some, Bytes, codes, beq,
  beq_iff, ◌≡◌, refl, ◌∙◌, sym, arith, if◌then◌else◌, inl, inr, Bool-cases, Option-cases,
}
use powerhoc.Exc.{Exn, Result, ok, err, index_error}
use powerhoc.Job.RoundTrip.{beq-Lacks}
use powerhoc.Job.{Job, wire_headers, serialize}
use powerhoc.Text.{join}
use powerhoc.Text.Decimal.{format}
use powerhoc.Broker.{
  Broker, Msg, Streams, unsnoc, to_front, to_back, log_error, front_parts, handle_recv_front,
  handle_recv_back, Event, from_front, from_back, handle, route,
}

-- Both streams take every message.
pub record TakesAll (streams : Streams) : Type 0 where
  pub front_takes : (msg : Msg) → streams.front msg ≡ ok tt
  pub back_takes : (msg : Msg) → streams.back msg ≡ ok tt

pub unsnoc-append :
    (envelope : Msg) (last : Bytes) → unsnoc (envelope ++ last ∷ []) ≡ some (envelope, last)
unfolding unsnoc
unsnoc-append [] last = refl
unsnoc-append (part ∷ []) last = refl
unsnoc-append (part ∷ next ∷ rest) last = rw (unsnoc-append (next ∷ rest) last)

-- The messages that one event makes the broker send to each side.
abbrev pub ping_answer : ℕ → Option (Msg × Bytes) → List Msg
ping_answer pid none = []
ping_answer pid (some (envelope, last)) =
    if beq last (codes "PING") then (envelope ++ format pid ∷ []) ∷ [] else []

abbrev pub forwarded : Msg → Option (Msg × Bytes) → List Msg
forwarded msg none = []
forwarded msg (some (envelope, last)) = if beq last (codes "PING") then [] else msg ∷ []

abbrev pub front_out : ℕ → Event → List Msg
front_out pid (from_back msg) = msg ∷ []
front_out pid (from_front msg) = ping_answer pid (unsnoc msg)

abbrev pub back_out : Event → List Msg
back_out (from_back msg) = []
back_out (from_front msg) = forwarded msg (unsnoc msg)

abbrev pub all_front : ℕ → List Event → List Msg
all_front pid [] = []
all_front pid (e ∷ events) = front_out pid e ++ all_front pid events

abbrev pub all_back : List Event → List Msg
all_back [] = []
all_back (e ∷ events) = back_out e ++ all_back events

module _ (streams : Streams) (takes : TakesAll streams) where
  front_parts_sends :
      (o : Option (Msg × Bytes)) (msg : Msg) (b : Broker)
      → ((front_parts streams o msg b).1.front_sent ≡ b.front_sent ++ ping_answer b.pid o)
        × ((front_parts streams o msg b).1.back_sent ≡ b.back_sent ++ forwarded msg o)
        × ((front_parts streams o msg b).1.pid ≡ b.pid)
  unfolding front_parts
  front_parts_sends none msg b = (sym (append-nil b.front_sent), sym (append-nil b.back_sent), refl)
  front_parts_sends (some (envelope, last)) msg b = ground (
    arith,
    takes.front_takes (envelope ++ format b.pid ∷ []),
    takes.back_takes msg,
    append-nil b.front_sent,
    append-nil b.back_sent,
  )

  handle_sends :
      (e : Event) (b : Broker)
      → ((handle streams e b).1.front_sent ≡ b.front_sent ++ front_out b.pid e)
        × ((handle streams e b).1.back_sent ≡ b.back_sent ++ back_out e)
        × ((handle streams e b).1.pid ≡ b.pid)
  unfolding handle
  handle_sends (from_back msg) b = ground (arith, takes.front_takes msg, append-nil b.back_sent)
  handle_sends (from_front msg) b = unfold handle_recv_front in front_parts_sends (unsnoc msg) msg b

  -- If both streams take every message: over any events, the front gets, in order, the workers'
  -- messages as they are and an answer with the broker's process id, under the sender's envelope,
  -- to each ping; the back gets the other messages of the front, as they are and in order. Nothing
  -- else is sent.
  pub route_sends :
      (events : List Event) (b : Broker)
      → ((route streams events b).front_sent ≡ b.front_sent ++ all_front b.pid events)
        × ((route streams events b).back_sent ≡ b.back_sent ++ all_back events)
  unfolding route
  route_sends [] b = (sym (append-nil b.front_sent), sym (append-nil b.back_sent))
  route_sends (e ∷ events) b =
      let (f, k, p) = handle_sends e b in
      let (fs, ks) = route_sends events (handle streams e b).1 in
      (
        fs ∙ rw (f, p) (append_assoc b.front_sent (front_out b.pid e) (all_front b.pid events)),
        ks ∙ rw k (append_assoc b.back_sent (back_out e) (all_back events)),
      )

  pub route-pid : (events : List Event) (b : Broker) → (route streams events b).pid ≡ b.pid
  unfolding route
  route-pid [] b = refl
  route-pid (e ∷ events) b =
      let (f, k, p) = handle_sends e b in route-pid events (handle streams e b).1 ∙ p

pub all-append :
    (pid : ℕ) (events more : List Event)
    → (all_front pid (events ++ more) ≡ all_front pid events ++ all_front pid more)
      × (all_back (events ++ more) ≡ all_back events ++ all_back more)
all-append pid [] more = (refl, refl)
all-append pid (e ∷ events) more =
    let (f, k) = all-append pid events more in
    (
      rw f (sym (append_assoc (front_out pid e) (all_front pid events) (all_front pid more))),
      rw k (sym (append_assoc (back_out e) (all_back events) (all_back more))),
    )

-- The wire of a job holds a colon, and so it is not the word `PING`.
pub serialize-ne-ping : (job : Job) → beq (serialize job) (codes "PING") ≡ false
unfolding serialize
serialize-ne-ping job =
    beq-Lacks b':' (join (codes "::") (wire_headers job.headers)) (codes "::" ++ job.job_data)
      (codes "PING") (omega arith)

-- If both streams take every message, every job that a client sends is forwarded, whatever it holds:
-- none is taken for a ping.
pub job-forwarded :
    (streams : Streams) (takes : TakesAll streams) (envelope : Msg) (job : Job) (b : Broker)
    → (let msg = envelope ++ serialize job ∷ [] in
        handle_recv_front streams msg b ≡ (ok tt, record b { back_sent = b.back_sent ++ msg ∷ [] }))
unfolding handle_recv_front to_back log_error
job-forwarded streams takes envelope job b =
    rw (unsnoc-append envelope (serialize job), front_parts)
      (rw (serialize-ne-ping job)
        (ground (arith, takes.back_takes (envelope ++ serialize job ∷ []))))

-- The exceptions that come out of `_handle_recv_front`.
pub data FrontError (streams : Streams) (msg : Msg) (b : Broker) (x : Exn) : Type 0 where
  empty_message : msg ≡ [] → x ≡ index_error → FrontError streams msg b x
  ping_unanswered :
      (envelope : Msg)
      → msg ≡ envelope ++ codes "PING" ∷ []
      → streams.front (envelope ++ format b.pid ∷ []) ≡ err x
      → FrontError streams msg b x

unsnoc-none : (msg : Msg) → unsnoc msg ≡ none → msg ≡ []
unfolding unsnoc
unsnoc-none [] h = refl
unsnoc-none (part ∷ []) h = cc
unsnoc-none (part ∷ next ∷ rest) h = ground (arith, unsnoc-none (next ∷ rest))

unsnoc-some :
    (msg : Msg) (envelope : Msg) (last : Bytes)
    → unsnoc msg ≡ some (envelope, last)
    → msg ≡ envelope ++ last ∷ []
unfolding unsnoc
unsnoc-some [] env last h = cc
unsnoc-some (part ∷ []) env last h = ground arith
unsnoc-some (part ∷ next ∷ rest) env last h = elim (Option-cases (unsnoc (next ∷ rest))) [
  | inl e ↦ absurd (cons-ne-nil next rest (unsnoc-none (next ∷ rest) e))
  | inr ((front, end), e) ↦ ground (arith, e, unsnoc-some (next ∷ rest) front end e)
]

log_error_ok :
    (streams : Streams) (r : Result (Unit {0}) × Broker) → (log_error streams r).0 ≡ ok tt
unfolding log_error
log_error_ok streams (ok u, b) = refl
log_error_ok streams (err e, b) = refl

front_parts_error :
    (streams : Streams) (o : Option (Msg × Bytes)) (msg : Msg) (b : Broker) (x : Exn)
    → unsnoc msg ≡ o
    → (front_parts streams o msg b).0 ≡ err x
    → FrontError streams msg b x
unfolding front_parts
front_parts_error streams none msg b x e h = empty_message (unsnoc-none msg e) (ground arith)
front_parts_error streams (some (envelope, last)) msg b x e h =
    elim (Bool-cases (beq last (codes "PING"))) [
      | inl p ↦
          ping_unanswered envelope
            (unsnoc-some msg envelope last e ∙ rw ((beq_iff last (codes "PING")).0 p) refl)
            (ground arith)
      | inr p ↦ cc (rw p at h, log_error_ok streams (to_back streams msg b))
    ]

-- No exception comes out of `_handle_recv_back`. One comes out of `_handle_recv_front` only for an
-- empty message, or as what the front raised for the answer to a ping, which no handler guards.
pub handlers-errors :
    (streams : Streams) (msg : Msg) (b : Broker)
    → ((handle_recv_back streams msg b).0 ≡ ok tt)
      × ((x : Exn) → (handle_recv_front streams msg b).0 ≡ err x → FrontError streams msg b x)
unfolding handle_recv_back handle_recv_front
handlers-errors streams msg b = (
  log_error_ok streams (to_front streams msg b),
  λ x h. front_parts_error streams (unsnoc msg) msg b x refl h,
)
