-- ===== src/Examples/Runs.antt =====
-- What the loops of the example clients come to.
use powerhoc.Client.{Client, JobArg, text, job, as_job, or_max, execute}
use powerhoc.Client.Recovery.{IsReq, results, no_recovery}
use powerhoc.Common.{
  ℕ, zero, suc, ◌+◌, ◌-◌, ◌≤◌, Bool, false, List, [], ◌∷◌, Option, none, some, Bytes, codes,
  beq_refl, All, ◌≡◌, refl, ap, ◌∙◌,
}
use powerhoc.Exc.{Result, ok, err, timeout_error}
use powerhoc.Examples.{echo}
use powerhoc.Examples.Calls.{echo_loop, phose_loop}
use powerhoc.Job.{Job, new, serialize}
use powerhoc.Job.RoundTrip.{IsWireSafe}
use powerhoc.Retry.{Socket, done, send, poll_loop}
use powerhoc.System.{Carries, execute-target, outcome}
use powerhoc.Text.Decimal.{format}
use powerhoc.Worker.{Host}

-- The arguments of the calls of the echo client
abbrev pub echo_args : List Bytes → List JobArg
echo_args [] = []
echo_args (data_ ∷ rest) = job (new data_ none) ∷ echo_args rest

module _ {S : Type 0} (socket : Socket S) (host : Host) (n fuel : ℕ) where
  -- The network carries every call, one after the other, to some worker and back within the client's
  -- regular timeout, and the job's headers are safe.
  abbrev pub CarriesAll : List JobArg → Client → S → Type 0
  CarriesAll [] c s = Unit
  CarriesAll (arg ∷ args) c s =
      (s' : S) × (pid : ℕ) × Carries socket host n fuel pid c arg none s s'
      × IsWireSafe (as_job arg)
      × (socket.now s' - socket.now s ≤ c.timeout)
      × (let (r, c', s'') = execute socket n fuel c arg none s in CarriesAll args c' s'')

  made :
      (arg : JobArg) (t : Bytes) (c : Client) (s s' : S) (pid : ℕ)
      → Carries socket host n fuel pid c arg none s s'
      → IsWireSafe (as_job arg)
      → socket.now s' - socket.now s ≤ c.timeout
      → host.target (as_job arg) ≡ ok t
      → (execute socket n fuel c arg none s).0 ≡ some (ok t)
  made arg t c s s' pid k safe soon e =
      execute-target socket host n fuel pid c arg none s s' k safe soon
      ∙ ap (λ r. some (outcome host r)) e

  -- If the workers run `echo`, and every call is carried to one of them and back in time, the echo
  -- client runs to its end: no assertion fails, and no exception is raised.
  pub echo_loop-echo :
      ((j : Job) → host.target j ≡ echo j)
      → (texts : List Bytes) (c : Client) (s : S) → CarriesAll (echo_args texts) c s
      → (echo_loop socket n fuel texts c s).0 ≡ some (ok tt)
  unfolding echo_loop echo new
  echo_loop-echo h [] c s k = refl
  echo_loop-echo h (t ∷ texts) c s (s', pid, k, safe, soon, ks) =
      rw (made (job (new t none)) t c s s' pid k safe soon (h (new t none)), echo_loop)
        (rw beq_refl (echo_loop-echo h texts _ _ ks))

-- What the benchmark prints for the results of its calls.
abbrev printed : List (Option (Result Bytes)) → List Bytes
printed [] = []
printed (none ∷ rs) = []
printed (some (err e) ∷ rs) = codes "error" ∷ printed rs
printed (some (ok res) ∷ rs) = printed rs

abbrev phose_args : ℕ → ℕ → List (JobArg × Option ℕ)
phose_args zero i = []
phose_args (suc rounds) i = (text (format i), none) ∷ phose_args rounds (i + 1)

abbrev pub errors : ℕ → List Bytes
errors zero = []
errors (suc k) = codes "error" ∷ errors k

module _ {S : Type 0} (socket : Socket S) (n fuel : ℕ) where
  phose_step :
      (rounds i : ℕ) (c : Client) (s : S) (r : Option (Result Bytes))
      → (execute socket n fuel c (text (format i)) none s).0 ≡ r
      → (let (_, c', s') = execute socket n fuel c (text (format i)) none s in
          phose_loop socket n fuel rounds (i + 1) c' s'
          ≡ printed (results socket n fuel c' (phose_args rounds (i + 1)) s'))
      → phose_loop socket n fuel (suc rounds) i c s
        ≡ printed (results socket n fuel c (phose_args (suc rounds) i) s)
  unfolding phose_loop results
  phose_step rounds i c s none e ih = rw (e, phose_loop) refl
  phose_step rounds i c s (some (err x)) e ih = rw (e, phose_loop) (ap (λ l. codes "error" ∷ l) ih)
  phose_step rounds i c s (some (ok res)) e ih = rw (e, phose_loop) ih

  phose_loop-printed :
      (rounds i : ℕ) (c : Client) (s : S)
      → phose_loop socket n fuel rounds i c s
        ≡ printed (results socket n fuel c (phose_args rounds i) s)
  phose_loop-printed zero i c s = unfold phose_loop results in refl
  phose_loop-printed (suc rounds) i c s =
      phose_step rounds i c s _ refl (phose_loop-printed rounds (i + 1) _ _)

  printed_errors :
      (rounds i : ℕ) (c : Client) (s : S)
      → All (λ r. r ≡ some (err timeout_error)) (results socket n fuel c (phose_args rounds i) s)
      → printed (results socket n fuel c (phose_args rounds i) s) ≡ errors rounds
  unfolding results
  printed_errors zero i c s h = refl
  printed_errors (suc rounds) i c s (e, hs) =
      rw e (ap (λ l. codes "error" ∷ l) (printed_errors rounds (i + 1) _ _ hs))

  -- On a REQ socket: from the first call that was sent and got no answer in time, the benchmark
  -- prints an error for each call that is left, this one included, whatever the workers do.
  pub phose_loop-errors :
      (awaited : S → Bool)
      → IsReq socket awaited
      → (rounds i : ℕ) (c : Client) (s : S)
      → (let (sent, s') = send socket n (serialize (as_job (text (format i)))) false s in
          (sent ≡ ok tt) × ((poll_loop socket fuel (or_max c none) s').0 ≡ some (done false)))
      → phose_loop socket n fuel (suc rounds) i c s ≡ errors (suc rounds)
  phose_loop-errors awaited req rounds i c s late =
      phose_loop-printed (suc rounds) i c s
      ∙ printed_errors (suc rounds) i c s (
          no_recovery socket awaited req n fuel c (text (format i)) none (phose_args rounds (i + 1))
            s late)
