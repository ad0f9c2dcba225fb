-- ===== src/Pool.antt =====
-- `Pool` of powerhose/client.py, for one thread, and below for several.
pub mod Shared
use powerhoc.Common.{ℕ, zero, suc, List, [], ◌∷◌, ◌++◌, Option, none, some, Bytes}
use powerhoc.Client.{Client, JobArg, connect}
use powerhoc.Client
use powerhoc.Exc.{Result, ok, err, queue_empty}
use powerhoc.Retry.{Socket}

-- A connector is a client with the state of its socket.
abbrev pub Connector : Type 0 → Type 0
Connector S = Client × S

pub record Pool (S : Type 0) : Type 0 where
  pub connectors : List (Connector S)
  pub timeout : ℕ
  pub timeout_max_overflow : ℕ
  pub timeout_overflows : ℕ

-- `fresh` is the socket of a new client, just connected.
module _ {S : Type 0} (socket : Socket S) (max_retries fuel : ℕ) (fresh : S) where
  -- `_create_client`
  unfoldable pub create_client : Pool S → Connector S
  unfolding connect
  create_client p = (connect p.timeout p.timeout_max_overflow p.timeout_overflows, fresh)

  -- `self._connectors.put`
  unfoldable pub put_connector : Connector S → Pool S → Pool S
  put_connector c p = record p { connectors = p.connectors ++ c ∷ [] }

  -- the loop of `__init__`
  unfoldable pub fill : ℕ → Pool S → Pool S
  unfolding create_client put_connector
  fill zero p = p
  fill (suc size) p = fill size (put_connector (create_client p) p)

  unfoldable pub with_connector :
      List (Connector S) → JobArg → Option ℕ → Pool S → Option (Result Bytes) × Pool S
  unfolding create_client put_connector Client.execute
  with_connector [] arg none p = (none, p)
  with_connector [] arg (some t) p = (some (err queue_empty), p)
  with_connector ((c, s) ∷ rest) arg timeout p =
      let p' = record p { connectors = rest } in
      let (r, c', s') = Client.execute socket max_retries fuel c arg timeout s in
      elim r [
        | none ↦ (none, p')
        | some (err e) ↦ (some (err e), put_connector (create_client p') p')
        | some (ok text) ↦ (some (ok text), put_connector (c', s') p')
      ]

  -- `execute`: `none` while no connector comes back, or while the call goes on.
  unfoldable pub execute : JobArg → Option ℕ → Pool S → Option (Result Bytes) × Pool S
  unfolding with_connector
  execute arg timeout p = with_connector p.connectors arg timeout p
