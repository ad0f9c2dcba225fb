-- ===== src/Pool/Shared.antt =====
-- A pool that several threads share: each of them holds a connector while its call runs.
use powerhoc.Common.{
  ℕ, zero, suc, ◌+◌, Bool, false, List, [], ◌∷◌, ◌++◌, Option, some, Bytes, All, All-append, length,
  length-append, ◌≡◌, refl, ap, arith,
}
use powerhoc.Client
use powerhoc.Client.{Client, JobArg}
use powerhoc.Client.Recovery.{IsReq}
use powerhoc.Client.Answered.{execute_answered}
use powerhoc.Exc.{Exn, ok, err}
use powerhoc.Pool.{Pool, Connector, create_client, put_connector, fill}
use powerhoc.Retry.{Socket}

pub record Shared (S : Type 0) : Type 0 where
  pub pool : Pool S
  pub busy : List (Connector S)

module _ {S : Type 0} (socket : Socket S) (max_retries fuel : ℕ) (fresh : S) where
  -- `get` hands a connector to a thread. When the thread's call returns, the connector is put back;
  -- when it raises, a new one is. An exception that is no `Exception`, such as
  -- `KeyboardInterrupt`, passes by both `put` calls.
  pub data Step (p q : Shared S) : Type 0 where
    takes :
        (c : Connector S) (rest : List (Connector S))
        → p.pool.connectors ≡ c ∷ rest
        → q ≡ record { pool = record p.pool { connectors = rest }; busy = c ∷ p.busy }
        → Step p q
    returns :
        (before behind : List (Connector S)) (c c' : Client) (s s' : S) (arg : JobArg)
        (timeout : Option ℕ) (text : Bytes)
        → p.busy ≡ before ++ (c, s) ∷ behind
        → Client.execute socket max_retries fuel c arg timeout s ≡ (some (ok text), c', s')
        → q ≡ record {
          pool = put_connector socket max_retries fuel fresh (c', s') p.pool;
          busy = before ++ behind;
        }
        → Step p q
    raises :
        (before behind : List (Connector S)) (c c' : Client) (s s' : S) (arg : JobArg)
        (timeout : Option ℕ) (e : Exn)
        → p.busy ≡ before ++ (c, s) ∷ behind
        → Client.execute socket max_retries fuel c arg timeout s ≡ (some (err e), c', s')
        → q ≡ record {
          pool =
              put_connector socket max_retries fuel fresh
                (create_client socket max_retries fuel fresh p.pool)
                p.pool;
          busy = before ++ behind;
        }
        → Step p q
    interrupted :
        (before behind : List (Connector S)) (c : Connector S)
        → p.busy ≡ before ++ c ∷ behind
        → q ≡ record { pool = p.pool; busy = before ++ behind }
        → Step p q

  -- Whether a step loses its connector.
  abbrev pub lost : {p q : Shared S} → Step p q → ℕ
  lost (takes c rest e f) = 0
  lost (returns before behind c c' s s' arg t text e f g) = 0
  lost (raises before behind c c' s s' arg t x e f g) = 0
  lost (interrupted before behind c e f) = 1

  -- The states that the threads can reach, with the connectors lost on the way.
  pub data Reach (p : Shared S) : Shared S → ℕ → Type 0 where
    here : {n : ℕ} → n ≡ 0 → Reach p p n
    next :
        {q r : Shared S} {n m : ℕ} → Reach p q n → (st : Step q r) → m ≡ n + lost st → Reach p r m

  abbrev pub connectors_of : Shared S → ℕ
  connectors_of p = length p.pool.connectors + length p.busy

  drop_busy :
      (busy before behind : List (Connector S)) (c : Connector S)
      → busy ≡ before ++ c ∷ behind
      → length busy ≡ length (before ++ behind) + 1
  drop_busy busy before behind c e =
      omega (arith, ap length e, length-append before (c ∷ behind), length-append before behind)

  Step-count : {p q : Shared S} (st : Step p q) → connectors_of q + lost st ≡ connectors_of p
  unfolding put_connector
  Step-count {p} (takes c rest e f) = rw f (omega (arith, ap length e))
  Step-count {p} (returns before behind c c' s s' arg t text e f g) = rw g (
      omega (
        arith,
        drop_busy p.busy before behind (c, s) e,
        length-append p.pool.connectors ((c', s') ∷ []),
      ))
  Step-count {p} (raises before behind c c' s s' arg t x e f g) = rw g (
      omega (
        arith,
        drop_busy p.busy before behind (c, s) e,
        length-append p.pool.connectors (create_client socket max_retries fuel fresh p.pool ∷ []),
      ))
  Step-count {p} (interrupted before behind c e f) =
      rw f (omega (arith, drop_busy p.busy before behind c e))

  -- Idle and busy connectors together stay as many as they were, but for one lost at each call that
  -- is interrupted by an exception which is no `Exception`.
  pub Reach-count : {p q : Shared S} {n : ℕ} → Reach p q n → connectors_of q + n ≡ connectors_of p
  Reach-count (here e) = omega arith
  Reach-count (next r st e) = omega (arith, Reach-count r, Step-count st)

  -- `Pool(size)` has `size` connectors.
  pub length-fill :
      (size : ℕ) (p : Pool S)
      → length (fill socket max_retries fuel fresh size p).connectors ≡ length p.connectors + size
  unfolding fill put_connector
  length-fill zero p = omega arith
  length-fill (suc size) p = omega (
    arith,
    length-fill size (
        put_connector socket max_retries fuel fresh (create_client socket max_retries fuel fresh p)
          p),
    length-append p.connectors (create_client socket max_retries fuel fresh p ∷ []),
  )

module _ {S : Type 0} (socket : Socket S) (max_retries fuel : ℕ) (fresh : S) (awaited : S → Bool)
    (req : IsReq socket awaited) (is_fresh : awaited fresh ≡ false) where
  -- No idle connector awaits the answer to an earlier call.
  abbrev pub IsClean : Shared S → Type 0
  IsClean p = All (λ c. awaited c.1 ≡ false) p.pool.connectors

  put_clean :
      (c : Connector S) (cs : List (Connector S))
      → All (λ d. awaited d.1 ≡ false) cs
      → awaited c.1 ≡ false
      → All (λ d. awaited d.1 ≡ false) (cs ++ c ∷ [])
  put_clean c cs h k = All-append (λ d. awaited d.1 ≡ false) cs (c ∷ []) h (k, tt)

  Step-IsClean : {p q : Shared S} → Step socket max_retries fuel fresh p q → IsClean p → IsClean q
  unfolding put_connector create_client
  Step-IsClean {p} (takes c rest e f) h = rw f ((rw e at h).1)
  Step-IsClean {p} (returns before behind c c' s s' arg t text e f g) h = rw g (
      put_clean (c', s') p.pool.connectors h
        (rw f at (
          execute_answered socket awaited req max_retries fuel c arg t s {text = text}
            (rw f refl))))
  Step-IsClean {p} (raises before behind c c' s s' arg t x e f g) h =
      rw g (put_clean _ p.pool.connectors h is_fresh)
  Step-IsClean (interrupted before behind c e f) h = rw f h

  -- On REQ sockets that await nothing when they are new, and from a pool whose idle connectors await
  -- nothing: whatever the threads do, no connector is put back, and so none is handed out, while its
  -- socket awaits the answer to an earlier call.
  pub Reach-IsClean :
      {p q : Shared S} {n : ℕ} → Reach socket max_retries fuel fresh p q n → IsClean p → IsClean q
  Reach-IsClean (here e) h = h
  Reach-IsClean (next r st e) h = Step-IsClean st (Reach-IsClean r h)
