-- ===== src/Examples/Signed.antt =====
-- What the client of the crypto example gets for its jobs.
use mathlib.Core.List.{Memᴰ}
use powerhoc.Client.{Client, as_job, execute}
use powerhoc.Common.{
  ℕ, zero, suc, ◌/◌, ◌%◌, ◌-◌, ◌≤◌, List, [], ◌∷◌, none, some, Bytes, Lacks, All, ◌≡◌, ◌≢◌, refl,
  ap, ◌∙◌, arith,
}
use powerhoc.Dict.{bytes_eq, get, set}
use powerhoc.Examples.{Algs, sign, crypto_job, sign-crypto_job, crypto_job-IsWireSafe}
use powerhoc.Examples.Crypto.{
  Random, Pycryptopp, new_algs, b2a_hex, take, random_text, client_algs, client_arg,
}
use powerhoc.Exc.{Result}
use powerhoc.Job.{Job}
use powerhoc.Retry.{Socket}
use powerhoc.Stacks.{hex_digit}
use powerhoc.System.{Carries, outcome, execute-target}
use powerhoc.Worker.{Host}

hex_digit_ne : (d : ℕ) → hex_digit d ≢ b'-'
hex_digit_ne d e = ground arith

b2a_hex-Lacks : (s : Bytes) → Lacks b'-' (b2a_hex s)
unfolding b2a_hex
b2a_hex-Lacks [] = tt
b2a_hex-Lacks (c ∷ s) = (hex_digit_ne (c / 16), (hex_digit_ne (c % 16), b2a_hex-Lacks s))

take-Lacks : (b n : ℕ) (s : Bytes) → Lacks b s → Lacks b (take n s)
unfolding take
take-Lacks b zero s h = tt
take-Lacks b (suc n) [] h = tt
take-Lacks b (suc n) (c ∷ s) (h, hs) = (h, take-Lacks b n s hs)

random_text-Lacks : (noise : Bytes) → Lacks b'-' (random_text noise)
unfolding random_text
random_text-Lacks noise = take-Lacks b'-' 256 (b2a_hex noise) (b2a_hex-Lacks noise)

-- A worker's keys for what the client may choose
IsKnown : Algs → Bytes → Type 0
IsKnown algs alg = Lacks b'-' alg × (f : Bytes → Result Bytes) × (get alg algs ≡ some f)

new_algs-IsKnown :
    {R : Type 0} (randrange : Random R) (p : Pycryptopp R) (r : R)
    → All (IsKnown (new_algs randrange p r).0) client_algs
unfolding new_algs get set IsKnown
new_algs-IsKnown randrange p r = (
  (omega arith, _, refl),
  ((omega arith, _, refl), ((omega arith, _, refl), ((omega arith, _, refl), tt))),
)

chosen-IsKnown :
    (algs : Algs) (alg : Bytes) (names : List Bytes)
    → All (IsKnown algs) names
    → Memᴰ alg names
    → IsKnown algs alg
chosen-IsKnown algs alg [] ks m = elim m [ ]
chosen-IsKnown algs alg (name ∷ names) (k, ks) (Memᴰ.head e) = rw e k
chosen-IsKnown algs alg (name ∷ names) (k, ks) (Memᴰ.tail m) = chosen-IsKnown algs alg names ks m

module _ {R S : Type 0} (randrange : Random R) (p : Pycryptopp R) (r : R) (socket : Socket S)
    (host : Host) (n fuel pid : ℕ) (c : Client) (s s' : S) where
  known_signature :
      (noise alg : Bytes)
      → IsKnown (new_algs randrange p r).0 alg
      → (f : Bytes → Result Bytes) × (get alg (new_algs randrange p r).0 ≡ some f)
        × (sign (new_algs randrange p r).0 (crypto_job (random_text noise) alg)
            ≡ f (random_text noise))
  unfolding IsKnown
  known_signature noise alg (h, f, e) = (
    f,
    e,
    rw
        (
          sign-crypto_job (new_algs randrange p r).0 (random_text noise) alg
              (random_text-Lacks noise) h,
          e,
        )
        refl,
  )

  -- If a worker runs `sign` with keys that it has made at random for itself, the client of the crypto
  -- example chose the algorithm among those that it knows, and its call is carried to this worker and
  -- back in time: the caller gets what the signer of this algorithm makes of the random text, a
  -- signature or an `ExecutionError` with the report of what it raises; `sign` raises nothing of its
  -- own.
  pub execute-signature :
      (noise alg : Bytes)
      → Memᴰ alg client_algs
      → ((j : Job) → host.target j ≡ sign (new_algs randrange p r).0 j)
      → Carries socket host n fuel pid c (client_arg (noise, alg)) none s s'
      → socket.now s' - socket.now s ≤ c.timeout
      → (f : Bytes → Result Bytes) × (get alg (new_algs randrange p r).0 ≡ some f)
        × ((execute socket n fuel c (client_arg (noise, alg)) none s).0
            ≡ some (outcome host (f (random_text noise))))
  unfolding client_arg as_job
  execute-signature noise alg m h k soon =
      let (f, e, q) =
        known_signature noise alg
          (chosen-IsKnown _ alg client_algs (new_algs-IsKnown randrange p r) m) in
      (
        f,
        e,
        execute-target socket host n fuel pid c (client_arg (noise, alg)) none s s' k
              (crypto_job-IsWireSafe (random_text noise) alg) soon
            ∙ ap (λ x. some (outcome host x)) (h (crypto_job (random_text noise) alg) ∙ q),
      )
