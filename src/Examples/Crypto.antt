-- ===== src/Examples/Crypto.antt =====
-- The keys of crypto_worker.py, and the jobs that it and crypto_client.py make at random. pycryptopp,
-- `random` and `os.urandom` are parameters.
use powerhoc.Client.{JobArg, job}
use powerhoc.Common.{ℕ, zero, suc, ◌/◌, ◌%◌, List, [], ◌∷◌, Bytes, codes}
use powerhoc.Dict.{bytes_eq, set}
use powerhoc.Examples.{Algs, sign, crypto_job}
use powerhoc.Exc.{Result}
use powerhoc.Stacks.{hex_digit}

-- `random.randrange`, on the state of the generator
abbrev pub Random : Type 0 → Type 0
Random R = ℕ → ℕ → R → ℕ × R

-- `ecdsa.SigningKey(seed).sign`, `ed25519.SigningKey(seed).sign` and `rsa.generate(…).sign`, which
-- draws its key at random; each `sign` may raise.
pub record Pycryptopp (R : Type 0) : Type 0 where
  pub ecdsa : Bytes → Bytes → Result Bytes
  pub ed25519 : Bytes → Bytes → Result Bytes
  pub rsa : ℕ → R → (Bytes → Result Bytes) × R

-- `insecurerandstr`
unfoldable pub insecurerandstr : {R : Type 0} → Random R → ℕ → R → Bytes × R
insecurerandstr randrange zero r = ([], r)
insecurerandstr randrange (suc n) r =
    let (c, r') = randrange 0 256 r in let (s, r'') = insecurerandstr randrange n r' in (c ∷ s, r'')

-- The signers that the module puts into `algs`, with the lengths of their seeds and keys
unfoldable pub new_algs : {R : Type 0} → Random R → Pycryptopp R → R → Algs × R
unfolding insecurerandstr set
new_algs randrange p r =
    let (seed, r') = insecurerandstr randrange 12 r in
    let algs = set (codes "ECDSA256") (p.ecdsa seed) [] in
    let (seed', r'') = insecurerandstr randrange 32 r' in
    let algs' = set (codes "Ed25519") (p.ed25519 seed') algs in
    let (short, r3) = p.rsa 2048 r'' in
    let algs'' = set (codes "RSA2048") short algs' in
    let (long, r4) = p.rsa 3248 r3 in (set (codes "RSA3248") long algs'', r4)

-- `binascii.b2a_hex`
unfoldable pub b2a_hex : Bytes → Bytes
b2a_hex [] = []
b2a_hex (c ∷ s) = hex_digit (c / 16) ∷ hex_digit (c % 16) ∷ b2a_hex s

-- `s[:n]`
unfoldable pub take : ℕ → Bytes → Bytes
take zero s = []
take (suc n) [] = []
take (suc n) (c ∷ s) = c ∷ take n s

-- `data` in `run`, for the bytes of `os.urandom(256)`
unfoldable pub random_text : Bytes → Bytes
unfolding b2a_hex take
random_text noise = take 256 (b2a_hex noise)

-- the algorithms that crypto_client.py knows
abbrev pub client_algs : List Bytes
client_algs = codes "ECDSA256" ∷ codes "Ed25519" ∷ codes "RSA2048" ∷ codes "RSA3248" ∷ []

-- the argument of `client.execute` in `run` of crypto_client.py
unfoldable pub client_arg : Bytes × Bytes → JobArg
unfolding crypto_job random_text
client_arg (noise, alg) = job (crypto_job (random_text noise) alg)

-- `run` of crypto_worker.py
unfoldable pub worker_run : Algs → Bytes → Bytes → Result Bytes
unfolding sign crypto_job random_text
worker_run algs noise alg = sign algs (crypto_job (random_text noise) alg)
