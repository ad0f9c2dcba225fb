-- ===== src/Examples/Threads.antt =====
-- The runs of bench.py: alone or in threads, in the process or through a cluster. `os.urandom`, the
-- sockets that new clients get, and the order in which threads print are parameters. The times that
-- `timed` writes are in Examples/Bench.
use powerhoc.Client.{default_client, as_job, text, or_max}
use powerhoc.Client.Recovery.{IsReq}
use powerhoc.Common.{
  ℕ, zero, suc, ◌+◌, ◌*◌, Bool, false, true, List, [], ◌∷◌, ◌++◌, none, some, Bytes, codes, All,
  length, ◌≡◌, refl, ap, ◌∙◌, arith,
}
use powerhoc.Examples.Bench.{size, one, sign_data, bench_command}
use powerhoc.Examples.Calls.{phose_loop}
use powerhoc.Examples.Crypto.{b2a_hex, take}
use powerhoc.Examples.Runs.{errors, phose_loop-errors}
use powerhoc.Exc.{ok}
use powerhoc.Job.{serialize}
use powerhoc.Retry.{Socket, done, send, poll_loop}
use powerhoc.Text.Decimal.{format}

-- `_KEY`
unfoldable pub bench_key : Bytes → Bytes
unfolding b2a_hex take
bench_key noise = take 4096 (b2a_hex noise)

module _ (hexdigest : Bytes → Bytes → Bytes) (key : Bytes) where
  -- `for i in range(…): _sign(str(i))`, from `i` on, with what `_sign` returns each time
  unfoldable pub sign_range : ℕ → ℕ → List Bytes
  unfolding sign_data format
  sign_range zero i = []
  sign_range (suc rounds) i = (sign_data hexdigest key (format i)).0 ∷ sign_range rounds (i + 1)

  -- `simple` and `single`
  unfoldable pub simple : List Bytes
  unfolding sign_range
  simple = sign_range size 0

  unfoldable pub single : Bytes
  unfolding sign_data
  single = (sign_data hexdigest key (codes "1")).0

  -- `simple_3`, thread by thread
  unfoldable pub simple_threads : ℕ → List (List Bytes)
  unfolding sign_range
  simple_threads zero = []
  simple_threads (suc n) = sign_range one 0 ∷ simple_threads n

-- The process of `run_cluster`
pub record Child : Type 0 where
  pub command : Bytes
  pub terminated : Bool

unfoldable pub run_cluster : Bytes → Child
unfolding bench_command
run_cluster python = record { command = bench_command python; terminated = false }

-- The lines of threads in any order that keeps the order of each
pub data Interleaves : List (List Bytes) → List Bytes → Type 0 where
  all_done : Interleaves [] []
  ends :
      {ls : List (List Bytes)} {out : List Bytes} → Interleaves ls out → Interleaves ([] ∷ ls) out
  prints :
      (before behind : List (List Bytes)) (line : Bytes) (l : List Bytes) {out : List Bytes}
      → Interleaves (before ++ l ∷ behind) out
      → Interleaves (before ++ (line ∷ l) ∷ behind) (line ∷ out)

module _ {S : Type 0} (socket : Socket S) (max_retries fuel : ℕ) where
  -- `phose`: what it prints, and what becomes of the cluster
  unfoldable pub phose : Bytes → S → List Bytes × Child
  unfolding phose_loop run_cluster
  phose python s = (
    phose_loop socket max_retries fuel size 0 default_client s,
    record (run_cluster python) { terminated = true },
  )

  -- The threads of `_phose3`, each with a new client on its own socket
  unfoldable pub phose_threads : List S → List (List Bytes)
  unfolding phose_loop
  phose_threads [] = []
  phose_threads (s ∷ ss) =
      phose_loop socket max_retries fuel one 0 default_client s ∷ phose_threads ss

sum_of : List (List Bytes) → ℕ
sum_of [] = 0
sum_of (l ∷ ls) = length l + sum_of ls

sum_of-put :
    (before behind : List (List Bytes)) (line : Bytes) (l : List Bytes)
    → sum_of (before ++ (line ∷ l) ∷ behind) ≡ suc (sum_of (before ++ l ∷ behind))
unfolding sum_of
sum_of-put [] behind line l = omega arith
sum_of-put (k ∷ before) behind line l = omega (arith, sum_of-put before behind line l)

-- Every line is an error.
Failed : List Bytes → Type 0
Failed = All (λ line. line ≡ codes "error")

Failed-errors : (l : List Bytes) → Failed l → l ≡ errors (length l)
unfolding Failed
Failed-errors [] h = refl
Failed-errors (line ∷ l) (e, h) = rw e (ap (λ k. codes "error" ∷ k) (Failed-errors l h))

errors-Failed : (k : ℕ) → Failed (errors k)
unfolding Failed
errors-Failed zero = tt
errors-Failed (suc k) = (refl, errors-Failed k)

length-errors : (k : ℕ) → length (errors k) ≡ k
length-errors zero = refl
length-errors (suc k) = omega (arith, length-errors k)

first_Failed :
    (before behind : List (List Bytes)) (line : Bytes) (l : List Bytes)
    → All Failed (before ++ (line ∷ l) ∷ behind)
    → (line ≡ codes "error") × All Failed (before ++ l ∷ behind)
unfolding Failed
first_Failed [] behind line l ((e, h), hs) = (e, (h, hs))
first_Failed (k ∷ before) behind line l (h, hs) =
    let (e, rest) = first_Failed before behind line l hs in (e, (h, rest))

Interleaves-Failed :
    (ls : List (List Bytes)) (out : List Bytes)
    → Interleaves ls out
    → All Failed ls
    → Failed out × (length out ≡ sum_of ls)
unfolding Failed sum_of
Interleaves-Failed ls out all_done h = (tt, refl)
Interleaves-Failed ls out (ends w) (h, hs) =
    let (f, e) = Interleaves-Failed _ out w hs in (f, omega (arith, e))
Interleaves-Failed ls (first ∷ out) (prints before behind line l w) h =
    let (e, rest) = first_Failed before behind line l h in
    let (f, same) = Interleaves-Failed _ out w rest in
    ((e, f), omega (arith, same, sum_of-put before behind line l))

module _ {S : Type 0} (socket : Socket S) (n fuel : ℕ) (awaited : S → Bool)
    (req : IsReq socket awaited) where
  -- The first call of a client is sent, and gets no answer in time.
  abbrev pub IsLate : S → Type 0
  IsLate s =
      let (sent, s') = send socket n (serialize (as_job (text (format 0)))) false s in
      (sent ≡ ok tt)
      × ((poll_loop socket fuel (or_max default_client none) s').0 ≡ some (done false))

  threads_fail :
      (ss : List S)
      → All IsLate ss
      → All Failed (phose_threads socket n fuel ss)
        × (sum_of (phose_threads socket n fuel ss) ≡ length ss * one)
  unfolding phose_threads sum_of
  threads_fail [] h = (tt, refl)
  threads_fail (s ∷ ss) (late, h) =
      let (fs, e) = threads_fail ss h in
      let all_lines : phose_loop socket n fuel one 0 default_client s ≡ errors one =
        phose_loop-errors socket n fuel awaited req 99 0 default_client s late in
      (
        (rw all_lines (errors-Failed one), fs),
        omega (arith, e, ap length all_lines, length-errors one),
      )

  -- On REQ sockets, if no thread gets an answer to its first call in time, the benchmark with threads
  -- prints an error for every call of every thread, in whatever order the threads run.
  pub phose_threads-errors :
      (ss : List S) (out : List Bytes)
      → All IsLate ss
      → Interleaves (phose_threads socket n fuel ss) out
      → out ≡ errors (length ss * one)
  phose_threads-errors ss out h w =
      let (fs, e) = threads_fail ss h in
      let (f, same) = Interleaves-Failed (phose_threads socket n fuel ss) out w fs in
      Failed-errors out f ∙ ap errors (same ∙ e)
