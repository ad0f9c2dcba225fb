-- ===== src/Network/Clients.antt =====
-- The steps of the clients and of the set of workers keep the invariant.
use powerhoc.Common.{
  ℕ, ◌+◌, ◌≤◌, List, ◌∷◌, ◌++◌, some, Bytes, All, ◌≡◌, inl, inr, sym, ap, ◌∙◌, arith,
}
use powerhoc.Broker.{Msg, Streams}
use powerhoc.Network.{
  Request, gave_up, awaiting, heard, Frames, IsFraming, Station, Network, set_call,
}
use powerhoc.Network.Messages.{
  Live, IsAnswer, IsWire, IsJobWire, Fits, is_for, weigh, weigh-take, All-take, All-Fits-set,
  All-Fits-abandon,
}
use powerhoc.Worker.{Host}
use powerhoc.Worker.Replies.{IsReady}
use powerhoc.Network.Keeps.{Outs, room, IsSound}
use powerhoc.Network.Messages.{is_for-addressee, addressee-Fits}

module _ (streams : Streams) (host : Host) (frames : Frames) (framing : IsFraming frames)
    (pid : ℕ) where
  pub hears-IsSound :
      (s : Network) (before behind : List Msg) (msg : Msg) (id : ℕ) (r : Request) (part : Bytes)
      → s.out ≡ before ++ msg ∷ behind
      → frames.addressee msg ≡ some (id, part)
      → s.calls id ≡ awaiting r
      → IsSound streams host frames framing pid s
      → IsSound streams host frames framing pid
          (record s { out = before ++ behind; calls = set_call id (heard part) s.calls })
  hears-IsSound s before behind msg id r part e a c v = record {
    same_broker = v.same_broker;
    up_fits =
        All-Fits-set frames framing IsWire s.calls id (heard part) s.up (omega (arith, none))
          v.up_fits;
    down_fits =
        All-Fits-set frames framing IsJobWire s.calls id (heard part) s.down (omega (arith, none))
          v.down_fits;
    back_fits =
        All-Fits-set frames framing (IsAnswer host pid) s.calls id (heard part) s.back
          (omega (arith, none)) v.back_fits;
    out_fits =
        All-Fits-set frames framing (IsAnswer host pid) s.calls id (heard part) (before ++ behind)
          (omega (arith, none)) rest;
    ready = v.ready;
    few = λ k. ground (arith, v.few k, none, takes k);
  }
    where
      rest : Outs streams host frames framing pid s.calls (before ++ behind)
      rest =
          (All-take frames framing (Fits frames framing (IsAnswer host pid) s.calls) before behind
            msg (rw e at v.out_fits)).1

      takes :
          (k : ℕ)
          → weigh frames framing k s.out
            ≡ is_for frames framing k msg + weigh frames framing k (before ++ behind)
      takes k = ap (weigh frames framing k) e ∙ weigh-take frames framing k before behind msg

      none :
          weigh frames framing id s.up
            + weigh frames framing id s.down
            + weigh frames framing id s.back
            + weigh frames framing id (before ++ behind)
          ≤ 0
      none =
          omega
            (arith, v.few id, ap room c, takes id, is_for-addressee frames framing id part msg a)

  pub misses-IsSound :
      (s : Network) (before behind : List Msg) (msg : Msg)
      → s.out ≡ before ++ msg ∷ behind
      → IsSound streams host frames framing pid s
      → IsSound streams host frames framing pid (record s { out = before ++ behind })
  misses-IsSound s before behind msg e v = record {
    same_broker = v.same_broker;
    up_fits = v.up_fits;
    down_fits = v.down_fits;
    back_fits = v.back_fits;
    out_fits =
        (All-take frames framing (Fits frames framing (IsAnswer host pid) s.calls) before behind msg
          (rw e at v.out_fits)).1;
    ready = v.ready;
    few = λ k. omega (
      arith,
      v.few k,
      ap (weigh frames framing k) e,
      weigh-take frames framing k before behind msg,
    );
  }

  pub gives_up-IsSound :
      (s : Network) (id : ℕ) (r : Request)
      → s.calls id ≡ awaiting r
      → IsSound streams host frames framing pid s
      → IsSound streams host frames framing pid (record s { calls = set_call id gave_up s.calls })
  gives_up-IsSound s id r c v = record {
    same_broker = v.same_broker;
    up_fits = All-Fits-abandon frames framing IsWire s.calls id s.up v.up_fits;
    down_fits = All-Fits-abandon frames framing IsJobWire s.calls id s.down v.down_fits;
    back_fits = All-Fits-abandon frames framing (IsAnswer host pid) s.calls id s.back v.back_fits;
    out_fits = All-Fits-abandon frames framing (IsAnswer host pid) s.calls id s.out v.out_fits;
    ready = v.ready;
    few = λ k. ground (arith, v.few k, ap room c);
  }

  pub stations-IsSound :
      (s : Network) (stations : List Station)
      → All (λ st. IsReady st.worker) stations
      → IsSound streams host frames framing pid s
      → IsSound streams host frames framing pid (record s { stations = stations })
  stations-IsSound s stations h v = record {
    same_broker = v.same_broker;
    up_fits = v.up_fits;
    down_fits = v.down_fits;
    back_fits = v.back_fits;
    out_fits = v.out_fits;
    ready = h;
    few = v.few;
  }

  -- The client that hears an answer awaits it, and it is one to its own request.
  pub hears-IsAnswer :
      (s : Network) (before behind : List Msg) (msg : Msg) (id : ℕ) (r : Request) (part : Bytes)
      → s.out ≡ before ++ msg ∷ behind
      → frames.addressee msg ≡ some (id, part)
      → s.calls id ≡ awaiting r
      → IsSound streams host frames framing pid s
      → IsAnswer host pid r part
  hears-IsAnswer s before behind msg id r part e a c v =
      let f =
        (All-take frames framing (Fits frames framing (IsAnswer host pid) s.calls) before behind msg
          (rw e at v.out_fits)).0 in
      let (i, p) = addressee-Fits frames framing f id part a in own f.request f.live i p f.says
    where
      request_of : {q : Request} → awaiting r ≡ awaiting q → q ≡ r
      request_of h = cc

      own :
          {k : ℕ} {p : Bytes} (q : Request)
          → Live s.calls k q
          → k ≡ id
          → p ≡ part
          → IsAnswer host pid q p
          → IsAnswer host pid r part
      own q (inl l) i g h = rw (request_of (sym c ∙ ap s.calls (sym i) ∙ l), g) at h
      own q (inr l) i g h = cc (c, l, i)
