-- ===== src/Examples/Calls.antt =====
-- The loops of the example clients: echo_client.py and bench.py. What they print for progress is left
-- out, but for the errors of the benchmark.
use powerhoc.Client.{Client, text, job, execute}
use powerhoc.Common.{
  ℕ, zero, suc, ◌+◌, true, false, List, [], ◌∷◌, Option, none, some, Bytes, codes, beq,
}
use powerhoc.Exc.{Result, ok, err, raised}
use powerhoc.Job.{new}
use powerhoc.Retry.{Socket}
use powerhoc.Text.Decimal.{format}

-- What a script has come to: it is `none` while a call goes on.
abbrev pub Script : Type 0 → Type 0 → Type 0
Script S A = Client → S → Option (Result A) × Client × S

module _ {S : Type 0} (socket : Socket S) (max_retries fuel : ℕ) where
  -- the loop of echo_client.py, on the random numbers' texts: `assert res == data`
  unfoldable pub echo_loop : List Bytes → Script S (Unit {0})
  unfolding execute new
  echo_loop [] c s = (some (ok tt), c, s)
  echo_loop (data_ ∷ rest) c s =
      let (r, c', s') = execute socket max_retries fuel c (job (new data_ none)) none s in
      elim r [
        | none ↦ (none, c', s')
        | some (err e) ↦ (some (err e), c', s')
        | some (ok res) ↦ elim (beq res data_) [
          | true ↦ echo_loop rest c' s'
          | false ↦ (some (err (raised (codes "AssertionError"))), c', s')
        ]
      ]

  -- `for i in range(…): try: client.execute(str(i)) except: print 'error'` of bench.py, for the
  -- `rounds` from `i` on: the lines that it prints, up to a call that goes on.
  unfoldable pub phose_loop : ℕ → ℕ → Client → S → List Bytes
  unfolding execute format
  phose_loop zero i c s = []
  phose_loop (suc rounds) i c s =
      let (r, c', s') = execute socket max_retries fuel c (text (format i)) none s in
      elim r [
        | none ↦ []
        | some (err e) ↦ codes "error" ∷ phose_loop rounds (i + 1) c' s'
        | some (ok res) ↦ phose_loop rounds (i + 1) c' s'
      ]
