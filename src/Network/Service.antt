-- ===== src/Network/Service.antt =====
-- What the clients see of the network: an abstract service that answers each request with an answer
-- to that request, and the proof that the network refines it.
use powerhoc.Common.{
  ℕ, [], ◌∷◌, Bytes, All, All-append, All-left, All-right, ◌≡◌, ◌⊎◌, inl, inr, ap, arith,
}
use powerhoc.Broker.{Streams}
use powerhoc.Network.{
  Request, Call, gave_up, awaiting, heard, MayAsk, Frames, IsFraming, Network, set_call, Step, asks,
  goes_up, goes_down, goes_back, hears, misses, gives_up, joins, leaves, Reach, here, next,
}
use powerhoc.Network.Messages.{IsAnswer}
use powerhoc.Worker.{Host}
use powerhoc.Worker.Replies.{IsReady}
use powerhoc.Network.Keeps.{IsSound}
use powerhoc.Network.Invariant.{asks-IsSound, goes_up-IsSound, goes_down-IsSound, goes_back-IsSound}
use powerhoc.Network.Clients.{
  hears-IsSound, misses-IsSound, gives_up-IsSound, stations-IsSound, hears-IsAnswer,
}

-- One step of the service, on nothing but the clients' calls: a client that does not wait asks, one
-- that waits gets an answer to what it asked, or gives up.
pub data Serves (host : Host) (pid : ℕ) (c d : ℕ → Call) : Type 0 where
  asked :
      (id : ℕ) (r : Request) → MayAsk (c id) → d ≡ set_call id (awaiting r) c → Serves host pid c d
  answered :
      (id : ℕ) (r : Request) (part : Bytes)
      → c id ≡ awaiting r
      → IsAnswer host pid r part
      → d ≡ set_call id (heard part) c
      → Serves host pid c d
  abandoned :
      (id : ℕ) (r : Request) → c id ≡ awaiting r → d ≡ set_call id gave_up c → Serves host pid c d

pub data Service (host : Host) (pid : ℕ) (c : ℕ → Call) : (ℕ → Call) → Type 0 where
  at_first : Service host pid c c
  then_ : {d e : ℕ → Call} → Service host pid c d → Serves host pid d e → Service host pid c e

-- A network without a message on its way, whose workers wait for jobs.
pub record IsQuiet (pid : ℕ) (s : Network) : Type 0 where
  pub this_broker : s.broker.pid ≡ pid
  pub no_up : s.up ≡ []
  pub no_down : s.down ≡ []
  pub no_back : s.back ≡ []
  pub no_out : s.out ≡ []
  pub all_ready : All (λ st. IsReady st.worker) s.stations

module _ (streams : Streams) (host : Host) (frames : Frames) (framing : IsFraming frames)
    (pid : ℕ) where
  pub IsQuiet-IsSound : (s : Network) → IsQuiet pid s → IsSound streams host frames framing pid s
  IsQuiet-IsSound s q = record {
    same_broker = q.this_broker;
    up_fits = rw q.no_up tt;
    down_fits = rw q.no_down tt;
    back_fits = rw q.no_back tt;
    out_fits = rw q.no_out tt;
    ready = q.all_ready;
    few = λ id. rw (q.no_up, q.no_down, q.no_back, q.no_out) (omega arith);
  }

  pub Step-IsSound :
      (s t : Network)
      → Step streams host frames s t
      → IsSound streams host frames framing pid s
      → IsSound streams host frames framing pid t
  Step-IsSound s t (asks id r may e) v =
      rw e (asks-IsSound streams host frames framing pid s id r may v)
  Step-IsSound s t (goes_up before behind msg q e) v =
      rw e (goes_up-IsSound streams host frames framing pid s before behind msg q v)
  Step-IsSound s t (goes_down before behind msg left right st meanwhile q g o k e) v = rw e (
      goes_down-IsSound streams host frames framing pid s before behind msg left right st meanwhile
        q g k v)
  Step-IsSound s t (goes_back before behind msg q e) v =
      rw e (goes_back-IsSound streams host frames framing pid s before behind msg q v)
  Step-IsSound s t (hears before behind msg id r part q a c e) v =
      rw e (hears-IsSound streams host frames framing pid s before behind msg id r part q a c v)
  Step-IsSound s t (misses before behind msg id part q a c e) v =
      rw e (misses-IsSound streams host frames framing pid s before behind msg q v)
  Step-IsSound s t (gives_up id r c e) v =
      rw e (gives_up-IsSound streams host frames framing pid s id r c v)
  Step-IsSound s t (joins st h e) v = rw e (
      stations-IsSound streams host frames framing pid s _
        (All-append (λ x. IsReady x.worker) s.stations (st ∷ []) v.ready (h, tt)) v)
  Step-IsSound s t (leaves left right st q e) v =
      let ready = rw q at v.ready in
      rw e (
        stations-IsSound streams host frames framing pid s _
          (All-append (λ x. IsReady x.worker) left right
            (All-left (λ x. IsReady x.worker) left (st ∷ right) ready)
            (All-right (λ x. IsReady x.worker) left (st ∷ right) ready).1)
          v)

  -- A step of the network is a step of the service, or none.
  Step-Serves :
      (s t : Network)
      → Step streams host frames s t
      → IsSound streams host frames framing pid s
      → (t.calls ≡ s.calls) ⊎ Serves host pid s.calls t.calls
  Step-Serves s t (asks id r may e) v = inr (asked id r may (ap (λ u. u.calls) e))
  Step-Serves s t (goes_up before behind msg q e) v = inl (ap (λ u. u.calls) e)
  Step-Serves s t (goes_down before behind msg left right st meanwhile q g o k e) v =
      inl (ap (λ u. u.calls) e)
  Step-Serves s t (goes_back before behind msg q e) v = inl (ap (λ u. u.calls) e)
  Step-Serves s t (hears before behind msg id r part q a c e) v = inr (
      answered id r part c
        (hears-IsAnswer streams host frames framing pid s before behind msg id r part q a c v)
        (ap (λ u. u.calls) e))
  Step-Serves s t (misses before behind msg id part q a c e) v = inl (ap (λ u. u.calls) e)
  Step-Serves s t (gives_up id r c e) v = inr (abandoned id r c (ap (λ u. u.calls) e))
  Step-Serves s t (joins st h e) v = inl (ap (λ u. u.calls) e)
  Step-Serves s t (leaves left right st q e) v = inl (ap (λ u. u.calls) e)

  Reach-IsSound :
      (s t : Network)
      → Reach streams host frames s t
      → IsSound streams host frames framing pid s
      → IsSound streams host frames framing pid t
  Reach-IsSound s t here v = v
  Reach-IsSound s t (next {t = u} r st) v = Step-IsSound u t st (Reach-IsSound s u r v)

  refines :
      (s t : Network)
      → Reach streams host frames s t
      → IsSound streams host frames framing pid s
      → Service host pid s.calls t.calls
  refines s t here v = at_first
  refines s t (next {t = u} r st) v = elim (Step-Serves u t st (Reach-IsSound s u r v)) [
    | inl e ↦ rw e (refines s u r v)
    | inr step ↦ then_ (refines s u r v) step
  ]

  -- From a network without messages, whatever its clients, its broker and its workers do, in any
  -- order, with streams that fail, jobs that time out and workers that come and go: the clients see
  -- a run of the service. Each answer that a client hears answers its own last request, and it hears
  -- at most one.
  pub Reach-Service :
      (s t : Network)
      → IsQuiet pid s
      → Reach streams host frames s t
      → Service host pid s.calls t.calls
  Reach-Service s t q r = refines s t r (IsQuiet-IsSound s q)

  -- From such a network on, every message on its way belongs to a call that waits for it or was given
  -- up, and holds that call's request or an answer to it; a client has one message on its way at
  -- most, and none if it neither waits nor gave up.
  pub Reach-few :
      (s t : Network)
      → IsQuiet pid s
      → Reach streams host frames s t
      → IsSound streams host frames framing pid t
  Reach-few s t q r = Reach-IsSound s t r (IsQuiet-IsSound s q)
