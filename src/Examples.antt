-- ===== src/Examples.antt =====
-- The targets and jobs of the examples echo_worker.py, crypto_worker.py, crypto_client.py and
-- web_client.py. The signers of pycryptopp and `json.dumps` are parameters.
pub mod Calls
pub mod Runs
pub mod Crypto
pub mod Signed
pub mod Bench
pub mod Threads
pub mod Web
use powerhoc.Common.{
  ℕ, true, false, ◌||◌, List, [], ◌∷◌, ◌++◌, none, some, Bytes, codes, Lacks, ◌≡◌, refl, ap, ◌∙◌,
  if◌then◌else◌,
}
use powerhoc.Dict.{Dict, bytes_eq, get}
use powerhoc.Exc.{Result, ok, err, value_error, key_error, ◌>>=◌}
use powerhoc.Job.{Job, new, serialize}
use powerhoc.Reply.{reply}
use powerhoc.Job.RoundTrip.{IsWireSafe}
use powerhoc.System.{succeeded, told, answer-serialize}
use powerhoc.Text.{split, join, starts_with}
use powerhoc.Text.Laws.{Lacks-NoneInside, split-join}
use powerhoc.Worker.{Host}
use powerhoc.Worker.Replies.{answer}

-- `echo` of echo_worker.py
unfoldable pub echo : Job → Result Bytes
echo job = ok job.job_data

-- `algs`: the `sign` of each signer by its name, which may raise
abbrev pub Algs : Type 0
Algs = Dict Bytes (Bytes → Result Bytes)

-- `msg, alg = …; ob = algs[alg]; return ob.sign(msg)`
unfoldable pub sign_parts : Algs → List Bytes → Result Bytes
unfolding get
sign_parts algs (msg ∷ alg ∷ []) = elim (get alg algs) [ none ↦ err key_error | some f ↦ f msg ]
sign_parts algs _ = err value_error

-- `sign` of crypto_worker.py
unfoldable pub sign : Algs → Job → Result Bytes
unfolding sign_parts split
sign algs job = sign_parts algs (split (codes "--") job.job_data)

-- the job of `run` in crypto_client.py and crypto_worker.py
unfoldable pub crypto_job : Bytes → Bytes → Job
unfolding new
crypto_job text alg = new (text ++ (codes "--" ++ alg)) none

-- the loop of `application` in web_client.py
unfoldable pub visible : Dict Bytes Bytes → Dict Bytes Bytes
unfolding starts_with
visible [] = []
visible ((key, value) ∷ environ) =
    let rest = visible environ in
    if starts_with (codes "wsgi.") key || starts_with (codes "gunicorn.") key
    then rest
    else (key, value) ∷ rest

-- its job, unless `json.dumps` raises
unfoldable pub web_job : (Dict Bytes Bytes → Result Bytes) → Dict Bytes Bytes → Result Job
unfolding new visible
web_job dumps environ = do text ← dumps (visible environ); ok (new text none)

split-crypto_job :
    (text alg : Bytes)
    → Lacks b'-' text
    → Lacks b'-' alg
    → split (codes "--") (crypto_job text alg).job_data ≡ text ∷ alg ∷ []
unfolding crypto_job new join
split-crypto_job text alg ht ha =
    split-join b'-' (b'-' ∷ []) text (alg ∷ [])
      (Lacks-NoneInside b'-' (b'-' ∷ []) text ht, (Lacks-NoneInside b'-' (b'-' ∷ []) alg ha, tt))

pub sign-crypto_job :
    (algs : Algs) (text alg : Bytes)
    → Lacks b'-' text
    → Lacks b'-' alg
    → sign algs (crypto_job text alg)
      ≡ (elim (get alg algs) [ none ↦ err key_error | some f ↦ f text ])
unfolding sign sign_parts
sign-crypto_job algs text alg ht ha = ap (sign_parts algs) (split-crypto_job text alg ht ha)

pub crypto_job-IsWireSafe : (text alg : Bytes) → IsWireSafe (crypto_job text alg)
unfolding crypto_job new
crypto_job-IsWireSafe text alg = record { safe = tt; distinct = tt }
