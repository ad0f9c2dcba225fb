-- ===== src/Network/Invariant.antt =====
-- Every step of the network keeps its invariant.
use powerhoc.Common.{
  ℕ, ◌≤◌, List, [], ◌∷◌, ◌++◌, All-append, All-left, All-right, ◌≡◌, inl, refl, ap, arith,
}
use powerhoc.Broker.{Msg, Streams}
use powerhoc.Network.{
  Request, wire, Call, quiet, gave_up, awaiting, heard, MayAsk, Frames, IsFraming, Station, Network,
  set_call, relay_front, relay_back, attend, enclosed,
}
use powerhoc.Network.Messages.{
  IsAnswer, IsWire, IsJobWire, Fits, weigh, weigh-append, weigh-take, is_for-Fits, All-take,
  All-Fits-set,
}
use powerhoc.Timer.{Timer}
use powerhoc.Worker.{Host}
use powerhoc.Worker.Replies.{KeepsWorking, IsReady}
use powerhoc.Network.Keeps.{room, total, IsSound, relay_up, relay_out, attend_answers}

module _ (streams : Streams) (host : Host) (frames : Frames) (framing : IsFraming frames)
    (pid : ℕ) where
  room_may : (c : Call) → MayAsk c → room c ≡ 0
  room_may quiet h = refl
  room_may (heard part) h = refl
  room_may gave_up h = absurd h
  room_may (awaiting r) h = absurd h

  -- A client asks.
  pub asks-IsSound :
      (s : Network) (id : ℕ) (r : Request)
      → MayAsk (s.calls id)
      → IsSound streams host frames framing pid s
      → IsSound streams host frames framing pid (record s {
        calls = set_call id (awaiting r) s.calls;
        up = s.up ++ (frames.envelope id ++ wire r ∷ []) ∷ [];
      })
  asks-IsSound s id r may v = record {
    same_broker = v.same_broker;
    up_fits =
        All-append (Fits frames framing IsWire calls') s.up _
          (All-Fits-set frames framing IsWire s.calls id (awaiting r) s.up (omega (arith, none))
            v.up_fits)
          (new, tt);
    down_fits =
        All-Fits-set frames framing IsJobWire s.calls id (awaiting r) s.down (omega (arith, none))
          v.down_fits;
    back_fits =
        All-Fits-set frames framing (IsAnswer host pid) s.calls id (awaiting r) s.back
          (omega (arith, none)) v.back_fits;
    out_fits =
        All-Fits-set frames framing (IsAnswer host pid) s.calls id (awaiting r) s.out
          (omega (arith, none)) v.out_fits;
    ready = v.ready;
    few = λ k. ground (
      arith,
      v.few k,
      none,
      is_for-Fits frames framing new k,
      weigh-append frames framing k s.up ((frames.envelope id ++ wire r ∷ []) ∷ []),
    );
  }
    where
      calls' : ℕ → Call
      calls' = set_call id (awaiting r) s.calls

      none : total streams host frames framing pid id s ≤ 0
      none = omega (arith, v.few id, room_may (s.calls id) may)

      new : Fits frames framing IsWire calls' (frames.envelope id ++ wire r ∷ [])
      new = record {
        id = id;
        request = r;
        part = wire r;
        framed = refl;
        says = refl;
        live = inl (ground arith);
      }

  pub goes_up-IsSound :
      (s : Network) (before behind : List Msg) (msg : Msg)
      → s.up ≡ before ++ msg ∷ behind
      → IsSound streams host frames framing pid s
      → IsSound streams host frames framing pid (record s {
        up = before ++ behind;
        broker = relay_front streams msg s.broker;
        down = s.down ++ (relay_front streams msg s.broker).back_sent;
        out = s.out ++ (relay_front streams msg s.broker).front_sent;
      })
  goes_up-IsSound s before behind msg e v =
      let (f, rest) =
        All-take frames framing (Fits frames framing IsWire s.calls) before behind msg
          (rw e at v.up_fits) in
      let (same, b) =
        relay_up streams host frames framing pid s.calls s.broker msg v.same_broker f in
      record {
        same_broker = same;
        up_fits = rest;
        down_fits = All-append (Fits frames framing IsJobWire s.calls) s.down _ v.down_fits b.downs;
        back_fits = v.back_fits;
        out_fits =
            All-append (Fits frames framing (IsAnswer host pid) s.calls) s.out _ v.out_fits b.outs;
        ready = v.ready;
        few = λ k. omega (
          arith,
          v.few k,
          b.few k,
          ap (weigh frames framing k) e,
          weigh-take frames framing k before behind msg,
          weigh-append frames framing k s.down (relay_front streams msg s.broker).back_sent,
          weigh-append frames framing k s.out (relay_front streams msg s.broker).front_sent,
        );
      }

  pub goes_down-IsSound :
      (s : Network) (before behind : List Msg) (msg : Msg) (left right : List Station)
      (st : Station) (meanwhile : Timer → Timer)
      → s.down ≡ before ++ msg ∷ behind
      → s.stations ≡ left ++ st ∷ right
      → KeepsWorking meanwhile
      → IsSound streams host frames framing pid s
      → (let (kept, parts) = frames.opened msg in
          let (st', sent) = attend host meanwhile parts st in
          IsSound streams host frames framing pid (record s {
            down = before ++ behind;
            stations = left ++ st' ∷ right;
            back = s.back ++ enclosed kept sent;
          }))
  goes_down-IsSound s before behind msg left right st meanwhile e g k v =
      let (f, rest) =
        All-take frames framing (Fits frames framing IsJobWire s.calls) before behind msg
          (rw e at v.down_fits) in
      let ready = rw g at v.ready in
      let (r, rs) = All-right (λ x. IsReady x.worker) left (st ∷ right) ready in
      let (r', b) = attend_answers streams host frames framing pid s.calls st meanwhile msg r k f in
      record {
        same_broker = v.same_broker;
        up_fits = v.up_fits;
        down_fits = rest;
        back_fits =
            All-append (Fits frames framing (IsAnswer host pid) s.calls) s.back _ v.back_fits
              b.outs;
        out_fits = v.out_fits;
        ready =
            All-append (λ x. IsReady x.worker) left _
              (All-left (λ x. IsReady x.worker) left (st ∷ right) ready) (r', rs);
        few = λ id. omega (
          arith,
          v.few id,
          b.few id,
          ap (weigh frames framing id) e,
          weigh-take frames framing id before behind msg,
          weigh-append frames framing id s.back
              (enclosed (frames.opened msg).0 (attend host meanwhile (frames.opened msg).1 st).1),
        );
      }

  pub goes_back-IsSound :
      (s : Network) (before behind : List Msg) (msg : Msg)
      → s.back ≡ before ++ msg ∷ behind
      → IsSound streams host frames framing pid s
      → IsSound streams host frames framing pid (record s {
        back = before ++ behind;
        broker = relay_back streams msg s.broker;
        out = s.out ++ (relay_back streams msg s.broker).front_sent;
      })
  goes_back-IsSound s before behind msg e v =
      let (f, rest) =
        All-take frames framing (Fits frames framing (IsAnswer host pid) s.calls) before behind msg
          (rw e at v.back_fits) in
      let (same, b) =
        relay_out streams host frames framing pid s.calls s.broker msg v.same_broker f in
      record {
        same_broker = same;
        up_fits = v.up_fits;
        down_fits = v.down_fits;
        back_fits = rest;
        out_fits =
            All-append (Fits frames framing (IsAnswer host pid) s.calls) s.out _ v.out_fits b.outs;
        ready = v.ready;
        few = λ k. omega (
          arith,
          v.few k,
          b.few k,
          ap (weigh frames framing k) e,
          weigh-take frames framing k before behind msg,
          weigh-append frames framing k s.out (relay_back streams msg s.broker).front_sent,
        );
      }
