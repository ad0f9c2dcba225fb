-- ===== src/Network/Keeps.antt =====
-- The invariant of the network, and what becomes of one message.
use powerhoc.Common.{
  ℕ, ◌+◌, ◌≤◌, List, [], ◌∷◌, ◌++◌, Bytes, codes, All, ◌≡◌, ◌⊎◌, inl, inr, refl, ap, ◌∙◌, arith,
}
use powerhoc.Broker.{Broker, Msg, Streams}
use powerhoc.Job.{serialize}
use powerhoc.Network.{
  Request, job, ping, wire, Call, quiet, heard, Frames, IsFraming, Station, Network, relay_front,
  relay_back, attend, enclosed,
}
use powerhoc.Network.Messages.{Live, IsAnswer, IsWire, IsJobWire, Fits, is_for, weigh, is_for-Fits}
use powerhoc.Network.Relays.{
  OneOrNone, relay_back_sends, relay_front-job, relay_front-ping, handle_recv_back-sends,
}
use powerhoc.Text.Decimal.{format}
use powerhoc.Timer.{Timer}
use powerhoc.Worker.{Host}
use powerhoc.Worker.Replies.{KeepsWorking, IsReady, answer, handle_recv_back-IsReady}

-- How many messages a client may have on their way.
abbrev pub room : Call → ℕ
room quiet = 0
room (heard part) = 0
room _ = 1

module _ (streams : Streams) (host : Host) (frames : Frames) (framing : IsFraming frames)
    (pid : ℕ) where
  abbrev pub Ups : (ℕ → Call) → List Msg → Type 0
  Ups calls = All (Fits frames framing IsWire calls)

  abbrev pub Downs : (ℕ → Call) → List Msg → Type 0
  Downs calls = All (Fits frames framing IsJobWire calls)

  abbrev pub Outs : (ℕ → Call) → List Msg → Type 0
  Outs calls = All (Fits frames framing (IsAnswer host pid) calls)

  abbrev pub total : ℕ → Network → ℕ
  total id s =
      weigh frames framing id s.up
      + weigh frames framing id s.down
      + weigh frames framing id s.back
      + weigh frames framing id s.out

  -- Every message on its way belongs to a call and says what it should, and a client has one at most,
  -- and none if it does not wait.
  pub record IsSound (s : Network) : Type 0 where
    pub same_broker : s.broker.pid ≡ pid
    pub up_fits : All (Fits frames framing IsWire s.calls) s.up
    pub down_fits : All (Fits frames framing IsJobWire s.calls) s.down
    pub back_fits : All (Fits frames framing (IsAnswer host pid) s.calls) s.back
    pub out_fits : All (Fits frames framing (IsAnswer host pid) s.calls) s.out
    pub ready : All (λ st. IsReady st.worker) s.stations
    pub few : (id : ℕ) → total id s ≤ room (s.calls id)

  -- What becomes of a message: others of its call, which weigh no more.
  pub record Becomes (calls : ℕ → Call) (msg : Msg) (down out : List Msg) : Type 0 where
    pub downs : Downs calls down
    pub outs : Outs calls out
    pub few :
        (id : ℕ)
        → weigh frames framing id down + weigh frames framing id out ≤ is_for frames framing id msg

  one_down :
      (calls : ℕ → Call) (msg : Msg) (sent : List Msg)
      → OneOrNone sent msg
      → Fits frames framing IsJobWire calls msg
      → Becomes calls msg sent []
  one_down calls msg sent (inl e) f = record {
    downs = rw e (f, tt);
    outs = tt;
    few = λ id. rw e (omega arith);
  }
  one_down calls msg sent (inr e) f = record {
    downs = rw e tt;
    outs = tt;
    few = λ id. rw e (omega arith);
  }

  -- An answer in the envelope of a message.
  one_out :
      {Q : Request → Bytes → Type 0} (calls : ℕ → Call) (msg : Msg)
      (f : Fits frames framing Q calls msg) (part : Bytes) (sent : List Msg)
      → OneOrNone sent (frames.envelope f.id ++ part ∷ [])
      → IsAnswer host pid f.request part
      → Becomes calls msg [] sent
  one_out calls msg f part sent o a = elim o [
    | inl e ↦ record {
      downs = tt;
      outs = rw e (g, tt);
      few = λ id.
          rw e (omega (arith, is_for-Fits frames framing f id, is_for-Fits frames framing g id));
    }
    | inr e ↦ record { downs = tt; outs = rw e tt; few = λ id. rw e (omega arith) }
  ]
    where
      g : Fits frames framing (IsAnswer host pid) calls (frames.envelope f.id ++ part ∷ [])
      g = record {
        id = f.id;
        request = f.request;
        part = part;
        framed = refl;
        says = a;
        live = f.live;
      }

  relay_up_request :
      (calls : ℕ → Call) (b : Broker) (id : ℕ) (r : Request)
      → b.pid ≡ pid
      → Live calls id r
      → (let msg = frames.envelope id ++ wire r ∷ [] in
          let b' = relay_front streams msg b in
          (b'.pid ≡ pid) × Becomes calls msg b'.back_sent b'.front_sent)
  relay_up_request calls b id (job j) e l =
      let v = relay_front-job streams (frames.envelope id) j b in
      let f : Fits frames framing IsJobWire calls (frames.envelope id ++ serialize j ∷ []) =
        record {
          id = id;
          request = job j;
          part = serialize j;
          framed = refl;
          says = refl;
          live = l;
        } in
      (v.same ∙ e, rw v.sent_out (one_down calls _ _ v.sent_down f))
  relay_up_request calls b id ping e l =
      let v = relay_front-ping streams (frames.envelope id) b in
      let f : Fits frames framing IsWire calls (frames.envelope id ++ codes "PING" ∷ []) = record {
        id = id;
        request = ping;
        part = codes "PING";
        framed = refl;
        says = refl;
        live = l;
      } in
      (v.same ∙ e, rw v.sent_down (one_out calls _ f (format b.pid) _ v.sent_out (ap format e)))

  pub relay_up :
      (calls : ℕ → Call) (b : Broker) (msg : Msg)
      → b.pid ≡ pid
      → Fits frames framing IsWire calls msg
      → (let b' = relay_front streams msg b in
          (b'.pid ≡ pid) × Becomes calls msg b'.back_sent b'.front_sent)
  relay_up calls b msg e f =
      rw (f.framed, f.says) (relay_up_request calls b f.id f.request e f.live)

  reframed :
      (sent : List Msg) {msg msg' : Msg} → msg ≡ msg' → OneOrNone sent msg → OneOrNone sent msg'
  reframed sent e (inl q) = inl (q ∙ ap (λ m. m ∷ []) e)
  reframed sent e (inr q) = inr q

  pub relay_out :
      (calls : ℕ → Call) (b : Broker) (msg : Msg)
      → b.pid ≡ pid
      → Fits frames framing (IsAnswer host pid) calls msg
      → (let b' = relay_back streams msg b in (b'.pid ≡ pid) × Becomes calls msg [] b'.front_sent)
  relay_out calls b msg e f =
      let (same, sent) = relay_back_sends streams msg b in
      (same ∙ e, one_out calls msg f f.part _ (reframed _ f.framed sent) f.says)

  job_answer :
      (r : Request) (part : Bytes) (n : ℕ)
      → IsJobWire r part
      → IsAnswer host pid r (answer host n (part ∷ []))
  job_answer (job j) part n e = (n, ap (λ p. answer host n (p ∷ [])) e)
  job_answer ping part n e = absurd e

  enclosed-one :
      (kept : Msg) (part : Bytes) (sent : List Bytes)
      → (sent ≡ part ∷ []) ⊎ (sent ≡ [])
      → OneOrNone (enclosed kept sent) (kept ++ part ∷ [])
  enclosed-one kept part sent (inl e) = inl (ap (enclosed kept) e)
  enclosed-one kept part sent (inr e) = inr (ap (enclosed kept) e)

  pub attend_answers :
      (calls : ℕ → Call) (st : Station) (meanwhile : Timer → Timer) (msg : Msg)
      → IsReady st.worker
      → KeepsWorking meanwhile
      → Fits frames framing IsJobWire calls msg
      → (let (kept, parts) = frames.opened msg in
          let (st', sent) = attend host meanwhile parts st in
          IsReady st'.worker × Becomes calls msg [] (enclosed kept sent))
  unfolding attend
  attend_answers calls st meanwhile msg h k f =
      let w = record st.worker { sent = [] } in
      let opened : frames.opened msg ≡ (frames.envelope f.id, f.part ∷ []) =
        ap frames.opened f.framed ∙ framing.opens f.id f.part in
      rw opened (
        handle_recv_back-IsReady host meanwhile (f.part ∷ []) w h k,
        one_out calls msg f (answer host w.pid (f.part ∷ [])) _
            (enclosed-one _ _ _ (handle_recv_back-sends host meanwhile (f.part ∷ []) w h k refl))
            (job_answer f.request f.part w.pid f.says),
      )
