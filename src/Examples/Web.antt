-- ===== src/Examples/Web.antt =====
-- web_client.py with web_worker.py, and crypto_server.py. `json`, `pprint` and pycryptopp are
-- parameters.
use mathlib.Core.List.{Memᴰ}
use powerhoc.Client.{JobArg, Client, text, job, as_job, execute}
use powerhoc.Common.{
  List, ◌↔◌, ℕ, ◌-◌, ◌≤◌, true, false, ◌||◌, [], ◌∷◌, ◌++◌, Option, none, some, Bytes, codes, ◌≡◌,
  refl, ap, ◌∙◌, arith, inl, inr, Bool-cases,
}
use powerhoc.Dict.{Dict}
use powerhoc.Examples.{visible, web_job}
use powerhoc.Exc.{err, Result, ok, ◌>>=◌}
use powerhoc.Job.{Job, new}
use powerhoc.Job.RoundTrip.{IsWireSafe}
use powerhoc.Pool
use powerhoc.Pool.{Pool, Connector, with_connector}
use powerhoc.Retry.{Socket}
use powerhoc.System.{Carries, execute-target, outcome}
use powerhoc.Text.{starts_with}
use powerhoc.Worker.{Host}

-- `page % printed`
unfoldable pub page : Bytes → Bytes
page printed =
    codes "<html>\n  <body>\n    <h1>Hello</h1>\n    <pre>"
    ++ printed
    ++ codes "\n    </pre>\n  </body>\n</html>\n"

-- `hello` of web_worker.py, for `json.loads` and the text of `pprint.pprint`
unfoldable pub hello : {J : Type 0} → (Bytes → Result J) → (J → Bytes) → Job → Result Bytes
unfolding page
hello loads pretty j = do environ ← loads j.job_data; ok (page (pretty environ))

-- `start_response(status, headers)`
pub record Response : Type 0 where
  pub status : Bytes
  pub headers : Dict Bytes Bytes
  pub body : Option (Result Bytes)

module _ {S : Type 0} (socket : Socket S) (max_retries fuel : ℕ) where
  -- `application` of web_client.py; the time that it prints is left out.
  unfoldable pub application :
      (Dict Bytes Bytes → Result Bytes) → Dict Bytes Bytes → Client → S → Response × Client × S
  unfolding web_job execute
  application dumps environ c s =
      let answered : Option (Result Bytes) → Response = λ body. record {
        status = codes "200 OK";
        headers = (codes "Content-type", codes "text/html") ∷ [];
        body = body;
      } in
      elim (web_job dumps environ) [
        | err e ↦ (answered (some (err e)), c, s)
        | ok j ↦
            let (r, c', s') = execute socket max_retries fuel c (job j) none s in
            (answered r, c', s')
      ]

  -- `phose` of crypto_server.py: the pool's `execute` of the request's body
  unfoldable pub phose_route : S → Bytes → Pool S → Option (Result Bytes) × Pool S
  unfolding Pool.execute
  phose_route fresh data_ p = Pool.execute socket max_retries fuel fresh (text data_) none p

-- `index` and `sign` of crypto_server.py: what the signer raises comes out, and the signature is dropped.
unfoldable pub index_route : (Bytes → Result Bytes) → Bytes → Result Bytes
index_route sign data_ = do signed ← sign data_; ok (codes "OK")

unfoldable pub server_sign : (Bytes → Result Bytes) → Job → Result Bytes
server_sign sign j = do signed ← sign j.job_data; ok (codes "OK")

-- A variable that the page shows
abbrev pub IsShown : Bytes × Bytes → Type 0
IsShown (key, value) =
    (starts_with (codes "wsgi.") key ≡ false) × (starts_with (codes "gunicorn.") key ≡ false)

kept-IsShown :
    (key value : Bytes)
    → (starts_with (codes "wsgi.") key || starts_with (codes "gunicorn.") key) ≡ false
    → IsShown (key, value)
kept-IsShown key value h = ground (arith, h)

hidden :
    (key value : Bytes)
    → (starts_with (codes "wsgi.") key || starts_with (codes "gunicorn.") key) ≡ true
    → ¬ IsShown (key, value)
hidden key value h (a, b) = ground (arith, h, a, b)

from_visible :
    (item : Bytes × Bytes) (environ : Dict Bytes Bytes)
    → Memᴰ item (visible environ)
    → Memᴰ item environ × IsShown item
unfolding visible
from_visible item [] m = elim m [ ]
from_visible item ((key, value) ∷ environ) m =
    elim (Bool-cases (starts_with (codes "wsgi.") key || starts_with (codes "gunicorn.") key)) [
      | inl away ↦ let (k, shown) = from_visible item environ (rw away at m) in (Memᴰ.tail k, shown)
      | inr kept ↦ elim (rw kept at m) [
        | Memᴰ.head e ↦ (Memᴰ.head e, rw e (kept-IsShown key value kept))
        | Memᴰ.tail k ↦ let (k', shown) = from_visible item environ k in (Memᴰ.tail k', shown)
      ]
    ]

to_visible :
    (item : Bytes × Bytes) (environ : Dict Bytes Bytes)
    → Memᴰ item environ
    → IsShown item
    → Memᴰ item (visible environ)
unfolding visible
to_visible item [] m h = elim m [ ]
to_visible item ((key, value) ∷ environ) (Memᴰ.head e) h =
    elim (Bool-cases (starts_with (codes "wsgi.") key || starts_with (codes "gunicorn.") key)) [
      | inl away ↦ absurd (hidden key value away (rw e at h))
      | inr kept ↦ rw kept (Memᴰ.head e)
    ]
to_visible item ((key, value) ∷ environ) (Memᴰ.tail k) h =
    elim (Bool-cases (starts_with (codes "wsgi.") key || starts_with (codes "gunicorn.") key)) [
      | inl away ↦ rw away (to_visible item environ k h)
      | inr kept ↦ rw kept (Memᴰ.tail (to_visible item environ k h))
    ]

-- What `json.loads` makes of each text that `json.dumps` gives
abbrev pub IsCodec :
    {J : Type 0}
    → (Bytes → Result J)
    → (Dict Bytes Bytes → Result Bytes)
    → (Dict Bytes Bytes → J)
    → Type 0
IsCodec loads dumps decoded =
    (d : Dict Bytes Bytes) (text : Bytes) → dumps d ≡ ok text → loads text ≡ ok (decoded d)

hello-dumps :
    {J : Type 0} (loads : Bytes → Result J) (dumps : Dict Bytes Bytes → Result Bytes)
    (decoded : Dict Bytes Bytes → J) (pretty : J → Bytes)
    → IsCodec loads dumps decoded
    → (d : Dict Bytes Bytes) (wire : Bytes) → dumps d ≡ ok wire
    → hello loads pretty (new wire none) ≡ ok (page (pretty (decoded d)))
unfolding hello new
hello-dumps loads dumps decoded pretty codec d wire e = rw (codec d wire e) refl

module _ {S : Type 0} (socket : Socket S) (host : Host) (n fuel pid : ℕ) (c : Client) (s s' : S)
    {J : Type 0} (loads : Bytes → Result J) (dumps : Dict Bytes Bytes → Result Bytes)
    (decoded : Dict Bytes Bytes → J) (pretty : J → Bytes) where
  -- If `json.loads` makes `decoded d` of what `json.dumps` gives for `d`, `json.dumps` does not raise
  -- for certain variables, the worker runs `hello`, and the call is carried in time: the body is the
  -- page of those variables, which are just the request's whose names do not begin with `wsgi.` or
  -- `gunicorn.`.
  pub application-hello :
      IsCodec loads dumps decoded
      → ((j : Job) → host.target j ≡ hello loads pretty j)
      → (environ : Dict Bytes Bytes) (wire : Bytes) → dumps (visible environ) ≡ ok wire
      → Carries socket host n fuel pid c (job (new wire none)) none s s'
      → socket.now s' - socket.now s ≤ c.timeout
      → ((application socket n fuel dumps environ c s).0.body
          ≡ some (ok (page (pretty (decoded (visible environ))))))
        × ((item : Bytes × Bytes)
            → Memᴰ item (visible environ) ↔ (Memᴰ item environ × IsShown item))
  unfolding application as_job new
  application-hello codec h environ wire e k soon = (
    rw (e, application)
        (execute-target socket host n fuel pid c (job (new wire none)) none s s' k
            (record { safe = tt; distinct = tt }) soon
          ∙ ap (λ r. some (outcome host r))
              (h (new wire none)
                ∙ hello-dumps loads dumps decoded pretty codec (visible environ) wire e)),
    λ item. (from_visible item environ, λ (m, shown). to_visible item environ m shown),
  )

module _ {S : Type 0} (socket : Socket S) (host : Host) (n fuel pid : ℕ) (fresh s s' : S)
    (c : Client) where
  pooled :
      (arg : JobArg) (rest : List (Connector S)) (p : Pool S) (r : Result Bytes)
      → p.connectors ≡ (c, s) ∷ rest
      → (execute socket n fuel c arg none s).0 ≡ some r
      → (Pool.execute socket n fuel fresh arg none p).0 ≡ some r
  unfolding Pool.execute with_connector
  pooled arg rest p (ok t) e q = rw (e, with_connector) (rw q refl)
  pooled arg rest p (err x) e q = rw (e, with_connector) (rw q refl)

  server_sign-index_route :
      (sign : Bytes → Result Bytes) (data_ : Bytes)
      → server_sign sign (as_job (text data_)) ≡ index_route sign data_
  unfolding server_sign index_route as_job new
  server_sign-index_route sign data_ = refl

  text-IsWireSafe : (data_ : Bytes) → IsWireSafe (as_job (text data_))
  unfolding as_job new
  text-IsWireSafe data_ = record { safe = tt; distinct = tt }

  -- If the workers run the server's `sign` and the pool's first connector carries the call in time, the
  -- two routes of the crypto server agree: the one through the workers gives what the one in the
  -- process gives, and an `ExecutionError` with the report of what the signer raised where it raises.
  pub phose_route-index_route :
      (sign : Bytes → Result Bytes)
      → ((j : Job) → host.target j ≡ server_sign sign j)
      → (data_ : Bytes) (p : Pool S) (rest : List (Connector S)) → p.connectors ≡ (c, s) ∷ rest
      → Carries socket host n fuel pid c (text data_) none s s'
      → socket.now s' - socket.now s ≤ c.timeout
      → (phose_route socket n fuel fresh data_ p).0 ≡ some (outcome host (index_route sign data_))
  unfolding phose_route
  phose_route-index_route sign h data_ p rest e k soon =
      pooled (text data_) rest p (outcome host (index_route sign data_)) e (
        execute-target socket host n fuel pid c (text data_) none s s' k (text-IsWireSafe data_)
          soon
        ∙ ap (λ r. some (outcome host r))
            (h (as_job (text data_)) ∙ server_sign-index_route sign data_))
