-- ===== src/Network/Messages.antt =====
-- What a message on its way says of the call it belongs to.
use powerhoc.Common.{
  ℕ, ◌+◌, List, [], ◌∷◌, ◌++◌, Option, none, some, Bytes, All, All-append, All-left, All-right,
  ◌==◌, ◌≡◌, ◌⊎◌, refl, sym, ap, ◌∙◌, arith, if◌then◌else◌,
}
use powerhoc.Broker.{Msg}
use powerhoc.Job.{serialize}
use powerhoc.Network.{
  Request, job, ping, wire, Call, gave_up, awaiting, Frames, IsFraming, set_call,
}
use powerhoc.Text.Decimal.{format}
use powerhoc.Worker.{Host}
use powerhoc.Worker.Replies.{answer}

-- The call that a message belongs to goes on, or was given up.
abbrev pub Live : (ℕ → Call) → ℕ → Request → Type 0
Live calls id r = (calls id ≡ awaiting r) ⊎ (calls id ≡ gave_up)

-- The answer to a request: what some worker makes of the job, or the broker's process id.
abbrev pub IsAnswer : Host → ℕ → Request → Bytes → Type 0
IsAnswer host pid (job j) part = (n : ℕ) × (part ≡ answer host n (serialize j ∷ []))
IsAnswer host pid ping part = part ≡ format pid

abbrev pub IsWire : Request → Bytes → Type 0
IsWire r part = part ≡ wire r

abbrev pub IsJobWire : Request → Bytes → Type 0
IsJobWire (job j) part = part ≡ serialize j
IsJobWire ping part = ⊥

module _ (frames : Frames) (framing : IsFraming frames) where
  -- A message is one of a live call, with a part that `Q` says of its request.
  pub record Fits (Q : Request → Bytes → Type 0) (calls : ℕ → Call) (msg : Msg) : Type 0 where
    pub id : ℕ
    pub request : Request
    pub part : Bytes
    pub framed : msg ≡ frames.envelope id ++ part ∷ []
    pub says : Q request part
    pub live : Live calls id request

  -- How many messages are for a client.
  abbrev pub is_for : ℕ → Msg → ℕ
  is_for id msg = elim (frames.addressee msg) [
    | none ↦ 0
    | some (k, part) ↦ if k == id then 1 else 0
  ]

  abbrev pub weigh : ℕ → List Msg → ℕ
  weigh id [] = 0
  weigh id (msg ∷ msgs) = is_for id msg + weigh id msgs

  pub weigh-append : (id : ℕ) (xs ys : List Msg) → weigh id (xs ++ ys) ≡ weigh id xs + weigh id ys
  weigh-append id [] ys = omega arith
  weigh-append id (x ∷ xs) ys = omega (arith, weigh-append id xs ys)

  pub weigh-take :
      (id : ℕ) (before behind : List Msg) (msg : Msg)
      → weigh id (before ++ msg ∷ behind) ≡ is_for id msg + weigh id (before ++ behind)
  weigh-take id before behind msg =
      omega (arith, weigh-append id before (msg ∷ behind), weigh-append id before behind)

  pub is_for-Fits :
      {Q : Request → Bytes → Type 0} {calls : ℕ → Call} {msg : Msg} (f : Fits Q calls msg) (id : ℕ)
      → is_for id msg ≡ (if f.id == id then 1 else 0)
  is_for-Fits f id = rw f.framed (rw (is_for, framing.addressed f.id f.part) refl)

  pub is_for-addressee :
      (id : ℕ) (part : Bytes) (msg : Msg)
      → frames.addressee msg ≡ some (id, part)
      → is_for id msg ≡ 1
  is_for-addressee id part msg e = rw (is_for, e) (ground arith)

  -- The client that gets a message is the one whose call it belongs to, and it gets its part.
  pub addressee-Fits :
      {Q : Request → Bytes → Type 0} {calls : ℕ → Call} {msg : Msg} (f : Fits Q calls msg) (id : ℕ)
      (part : Bytes)
      → frames.addressee msg ≡ some (id, part)
      → (f.id ≡ id) × (f.part ≡ part)
  addressee-Fits f id part e =
      same (sym (framing.addressed f.id f.part) ∙ sym (ap frames.addressee f.framed) ∙ e)
    where
      same :
          {i j : ℕ} {p q : Bytes}
          → ◌≡◌ {A = Option (ℕ × Bytes)} (some (i, p)) (some (j, q))
          → (i ≡ j) × (p ≡ q)
      same h = (cc, cc)

  pub All-take :
      (P : Msg → Type 0) (before behind : List Msg) (msg : Msg)
      → All P (before ++ msg ∷ behind)
      → P msg × All P (before ++ behind)
  All-take P before behind msg h =
      let (p, rest) = All-right P before (msg ∷ behind) h in
      (p, All-append P before behind (All-left P before (msg ∷ behind) h) rest)

  module _ (Q : Request → Bytes → Type 0) (calls : ℕ → Call) (id : ℕ) where
    Fits-set :
        (c : Call) (msg : Msg)
        → is_for id msg ≡ 0
        → Fits Q calls msg
        → Fits Q (set_call id c calls) msg
    Fits-set c msg h f = record {
      id = f.id;
      request = f.request;
      part = f.part;
      framed = f.framed;
      says = f.says;
      live = ground (arith, f.live, is_for-Fits f id, h);
    }

    -- Another client's messages do not see a change of a call.
    pub All-Fits-set :
        (c : Call) (msgs : List Msg)
        → weigh id msgs ≡ 0
        → All (Fits Q calls) msgs
        → All (Fits Q (set_call id c calls)) msgs
    All-Fits-set c [] h _ = tt
    All-Fits-set c (msg ∷ msgs) h (f, fs) =
        (Fits-set c msg (omega (arith, h)) f, All-Fits-set c msgs (omega (arith, h)) fs)

    -- A call that is given up keeps its messages.
    pub All-Fits-abandon :
        (msgs : List Msg) → All (Fits Q calls) msgs → All (Fits Q (set_call id gave_up calls)) msgs
    All-Fits-abandon [] _ = tt
    All-Fits-abandon (msg ∷ msgs) (f, fs) = (
      record {
        id = f.id;
        request = f.request;
        part = f.part;
        framed = f.framed;
        says = f.says;
        live = ground (arith, f.live);
      },
      All-Fits-abandon msgs fs,
    )
