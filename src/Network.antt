-- ===== src/Network.antt =====
-- The broker of powerhose/broker.py between many clients of powerhose/client.py and many workers of
-- powerhose/worker.py, in any interleaving. A message is on its way on one of four queues: from the
-- clients up to the broker, down to the workers, back from them, and out to the clients.
pub mod Messages
pub mod Relays
pub mod Keeps
pub mod Invariant
pub mod Clients
pub mod Service
use powerhoc.Common.{
  ℕ, Bool, true, false, List, [], ◌∷◌, ◌++◌, Option, none, some, Bytes, codes, ◌==◌, ◌≡◌,
  if◌then◌else◌,
}
use powerhoc.Broker.{Broker, Msg, Streams, handle_recv_front, handle_recv_back}
use powerhoc.Job.{Job, serialize}
use powerhoc.Timer.{Timer}
use powerhoc.Worker
use powerhoc.Worker.{Worker, Host}
use powerhoc.Worker.Replies.{KeepsWorking, IsReady}

-- What a client sends: a job, from `execute`, or the word of `ping`.
pub data Request : Type 0 where
  job : Job → Request
  ping : Request

abbrev pub wire : Request → Bytes
wire (job j) = serialize j
wire ping = codes "PING"

-- Where a client's socket stands. After a timeout it is never used again: the pool replaces its
-- client, and one that is kept does not get through.
pub data Call : Type 0 where
  quiet gave_up : Call
  awaiting : Request → Call
  heard : Bytes → Call

abbrev pub MayAsk : Call → Type 0
MayAsk (awaiting r) = ⊥
MayAsk gave_up = ⊥
MayAsk _ = Unit

-- The frames that ZeroMQ adds: `envelope` is what the REQ socket of a client and the ROUTER put in
-- front of its message, `addressee` is the client to which they hand a message, with the part that
-- it gets, and `opened` is how a REP socket takes a message apart, into what it keeps for the answer
-- and what the worker gets.
pub record Frames : Type 0 where
  pub envelope : ℕ → Msg
  pub addressee : Msg → Option (ℕ × Bytes)
  pub opened : Msg → Msg × List Bytes

-- What ZeroMQ documents of them.
pub record IsFraming (frames : Frames) : Type 0 where
  pub addressed :
      (id : ℕ) (part : Bytes) → frames.addressee (frames.envelope id ++ part ∷ []) ≡ some (id, part)
  pub opens :
      (id : ℕ) (part : Bytes)
      → frames.opened (frames.envelope id ++ part ∷ []) ≡ (frames.envelope id, part ∷ [])

-- A worker with its REP socket, which hands out no message while it owes the answer to one.
pub record Station : Type 0 where
  pub worker : Worker
  pub owes : Bool

pub record Network : Type 0 where
  pub calls : ℕ → Call
  pub up : List Msg
  pub down : List Msg
  pub back : List Msg
  pub out : List Msg
  pub broker : Broker
  pub stations : List Station

abbrev pub set_call : ℕ → Call → (ℕ → Call) → ℕ → Call
set_call id c calls k = if k == id then c else calls k

-- A broker whose streams have sent what they had.
abbrev pub flushed : Broker → Broker
flushed b = record b { front_sent = []; back_sent = [] }

abbrev pub is_empty : List Bytes → Bool
is_empty [] = true
is_empty (part ∷ parts) = false

-- A worker gets a message: the worker behind it, and what it sent.
unfoldable pub attend : Host → (Timer → Timer) → List Bytes → Station → Station × List Bytes
attend host meanwhile parts st =
    let w = Worker.handle_recv_back host meanwhile parts (record st.worker { sent = [] }) in
    (record { worker = w; owes = is_empty w.sent }, w.sent)

-- The REP socket puts the envelope that it kept in front of an answer.
abbrev pub enclosed : Msg → List Bytes → List Msg
enclosed kept [] = []
enclosed kept (part ∷ parts) = (kept ++ part ∷ []) ∷ enclosed kept parts

-- The broker hands a message on, and what its streams were given leaves them.
unfoldable pub relay_front : Streams → Msg → Broker → Broker
relay_front streams msg b = (handle_recv_front streams msg (flushed b)).1

unfoldable pub relay_back : Streams → Msg → Broker → Broker
relay_back streams msg b = (handle_recv_back streams msg (flushed b)).1

module _ (streams : Streams) (host : Host) (frames : Frames) where
  -- A message leaves its queue at any place: several sockets feed one queue. Any worker that owes
  -- nothing may take any message of `down`, while a DEALER hands each to one worker when it sends it:
  -- every run of the sockets is a run of these steps, and there are others.
  pub data Step (s t : Network) : Type 0 where
    asks :
        (id : ℕ) (r : Request)
        → MayAsk (s.calls id)
        → t ≡ record s {
          calls = set_call id (awaiting r) s.calls;
          up = s.up ++ (frames.envelope id ++ wire r ∷ []) ∷ [];
        }
        → Step s t
    goes_up :
        (before behind : List Msg) (msg : Msg)
        → s.up ≡ before ++ msg ∷ behind
        → t ≡ record s {
          up = before ++ behind;
          broker = relay_front streams msg s.broker;
          down = s.down ++ (relay_front streams msg s.broker).back_sent;
          out = s.out ++ (relay_front streams msg s.broker).front_sent;
        }
        → Step s t
    goes_down :
        (before behind : List Msg) (msg : Msg) (left right : List Station) (st : Station)
        (meanwhile : Timer → Timer)
        → s.down ≡ before ++ msg ∷ behind
        → s.stations ≡ left ++ st ∷ right
        → st.owes ≡ false
        → KeepsWorking meanwhile
        → (let (kept, parts) = frames.opened msg in
            let (st', sent) = attend host meanwhile parts st in
            t ≡ record s {
              down = before ++ behind;
              stations = left ++ st' ∷ right;
              back = s.back ++ enclosed kept sent;
            })
        → Step s t
    goes_back :
        (before behind : List Msg) (msg : Msg)
        → s.back ≡ before ++ msg ∷ behind
        → t ≡ record s {
          back = before ++ behind;
          broker = relay_back streams msg s.broker;
          out = s.out ++ (relay_back streams msg s.broker).front_sent;
        }
        → Step s t
    hears :
        (before behind : List Msg) (msg : Msg) (id : ℕ) (r : Request) (part : Bytes)
        → s.out ≡ before ++ msg ∷ behind
        → frames.addressee msg ≡ some (id, part)
        → s.calls id ≡ awaiting r
        → t ≡ record s { out = before ++ behind; calls = set_call id (heard part) s.calls }
        → Step s t
    misses :
        (before behind : List Msg) (msg : Msg) (id : ℕ) (part : Bytes)
        → s.out ≡ before ++ msg ∷ behind
        → frames.addressee msg ≡ some (id, part)
        → s.calls id ≡ gave_up
        → t ≡ record s { out = before ++ behind }
        → Step s t
    gives_up :
        (id : ℕ) (r : Request)
        → s.calls id ≡ awaiting r
        → t ≡ record s { calls = set_call id gave_up s.calls }
        → Step s t
    joins :
        (st : Station)
        → IsReady st.worker
        → t ≡ record s { stations = s.stations ++ st ∷ [] }
        → Step s t
    leaves :
        (left right : List Station) (st : Station)
        → s.stations ≡ left ++ st ∷ right
        → t ≡ record s { stations = left ++ right }
        → Step s t

  pub data Reach (s : Network) : Network → Type 0 where
    here : Reach s s
    next : {t u : Network} → Reach s t → Step t u → Reach s u
