-- ===== src/Stacks.antt =====
-- `dump_stacks` of powerhose/util.py, and what the timer's thread of powerhose/worker.py makes of it.
-- What the interpreter tells is data: the threads that `threading` knows, the frames of all threads,
-- and the greenlets, each with its text from `traceback.format_stack`.
pub mod Expiry
use powerhoc.Common.{
  ℕ, zero, suc, ◌+◌, ◌/◌, ◌%◌, Bool, true, false, List, [], ◌∷◌, ◌++◌, Option, none, some, Bytes,
  codes, ltb, ◌==◌, ==_iff, if◌then◌else◌,
}
use powerhoc.Dict.{Dict, Eq, get, set_all}
use powerhoc.Exc.{Result, ok, err, key_error, ◌>>=◌}
use powerhoc.Timer.{Timer, over, time_out}

instance abbrev pub nat_eq : Eq ℕ
nat_eq = record { same = ◌==◌; same_iff = ==_iff }

pub record Greenlet : Type 0 where
  pub runs : Bool
  pub stack : Bytes

pub record Interpreter : Type 0 where
  pub threads : List (ℕ × Bytes)
  pub frames : List (ℕ × Bytes)
  pub greenlets : Option (List Greenlet)

abbrev pub hex_digit : ℕ → ℕ
hex_digit d = if ltb d 10 then b'0' + d else 87 + d

-- The digits of `n` in base 16 in front of `out`; `n + 1` rounds are enough.
emit : ℕ → ℕ → Bytes → Bytes
emit zero n out = out
emit (suc fuel) n out =
    let rest = emit fuel (n / 16) (hex_digit (n % 16) ∷ out) in
    if ltb n 16 then hex_digit n ∷ out else rest

-- `'%x' % n`
unfoldable pub hex : ℕ → Bytes
unfolding emit
hex n = emit (suc n) n []

-- the loop over `sys._current_frames()`
unfoldable pub dump_threads : Dict ℕ Bytes → List (ℕ × Bytes) → Result (List Bytes)
unfolding get hex
dump_threads threads [] = ok []
dump_threads threads ((thread, frame) ∷ frames) = elim (get thread threads) [
  | none ↦ err key_error
  | some name ↦ do
    rest ← dump_threads threads frames
    ok (
        (codes "Thread 0x" ++ hex thread ++ codes " (" ++ name ++ codes ")\n")
        ∷ frame
        ∷ codes "\n"
        ∷ rest)
]

-- the loop over the greenlets
unfoldable pub dump_greenlets : List Greenlet → List Bytes
dump_greenlets [] = []
dump_greenlets (ob ∷ obs) =
    let rest = dump_greenlets obs in
    if ob.runs then codes "Greenlet\n" ∷ ob.stack ∷ codes "\n" ∷ rest else rest

-- `dump_stacks`; `none` is the `ImportError` of greenlet
unfoldable pub dump_stacks : Interpreter → Result (List Bytes)
unfolding set_all dump_threads dump_greenlets
dump_stacks i = do
  dump ← dump_threads (set_all i.threads []) i.frames
  elim i.greenlets [ none ↦ ok dump | some obs ↦ ok (dump ++ dump_greenlets obs) ]

-- `except Queue.Empty` of `run`, with its `finally`: an exception of `dump_stacks` ends the thread.
unfoldable pub expire : Interpreter → Timer → Timer
unfolding dump_stacks time_out
expire i t = elim (dump_stacks i) [
  | ok dump ↦ time_out dump t
  | err e ↦ record t { armed = false; place = over }
]
