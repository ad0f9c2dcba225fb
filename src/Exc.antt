-- ===== src/Exc.antt =====
-- powerhose/exc.py and the other exceptions that the code raises, with results that may be one.
use powerhoc.Common.{ℕ, Bytes}

-- The error numbers that the code tells apart; `other` is any further one.
pub data Errno : Type 0 where
  efsm eagain eintr eterm : Errno
  other : ℕ → Errno

-- `TimeoutError`, `ExecutionError` and `DuplicateBrokerError` are the package's own. The others are
-- Python's (`ValueError`, `TypeError`, `KeyError`, `IndexError`, `ImportError`), `Queue.Empty`, psutil's for a
-- process that is gone, `ZMQError`, and `raised` for any other, by its text.
pub data Exn : Type 0 where
  timeout_error value_error type_error key_error index_error queue_empty no_such_process : Exn
  execution_error import_error raised : Bytes → Exn
  duplicate_broker : Bytes → Exn
  zmq_error : Errno → Exn

pub data Result {ℓ} (A : Type ℓ) : Type ℓ where
  ok : A → Result A
  err : Exn → Result A

infixl 5 ◌>>=◌
abbrev pub ◌>>=◌ {ℓ κ} : {A : Type ℓ} {B : Type κ} → Result A → (A → Result B) → Result B
ok a >>= f = f a
err e >>= f = err e
