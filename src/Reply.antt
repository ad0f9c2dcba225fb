-- ===== src/Reply.antt =====
-- The text that a worker sends back: `'%d:OK:%s'` and `'%d:ERROR:%s'` of powerhose/worker.py, read
-- by `extract_result` of powerhose/util.py.
use powerhoc.Common.{
  ℕ, Bool, true, false, List, [], ◌∷◌, ◌++◌, Option, none, some, Bytes, codes, beq, Lacks, ◌≡◌,
  refl, arith,
}
use powerhoc.Exc.{Result, ok, err, value_error}
use powerhoc.Text.{split_max}
use powerhoc.Text.Laws.{Lacks-NoneInside, split_max-append}
use powerhoc.Text.Decimal.{ℤ, pos, format, to_long}
use powerhoc.Text.Decimal.RoundTrip.{format-Lacks, to_long-format}

-- The second part of a reply.
abbrev pub status : Bool → Bytes
status true = codes "OK"
status false = codes "ERROR"

-- `'%d:OK:%s' % (pid, text)` and `'%d:ERROR:%s' % (pid, text)`
unfoldable pub reply : ℕ → Bool → Bytes → Bytes
reply pid success text = format pid ++ (codes ":" ++ (status success ++ (codes ":" ++ text)))

-- the tuple that `extract_result` returns, after `long(pid)`
unfoldable pub with_pid : Option ℤ → Bytes → Bytes → Result (ℤ × Bool × Bytes)
with_pid none result text = err value_error
with_pid (some pid) result text = ok (pid, beq result (codes "OK"), text)

unfoldable pub three_parts : List Bytes → Result (ℤ × Bool × Bytes)
unfolding with_pid
three_parts (pid ∷ result ∷ text ∷ []) = with_pid (to_long pid) result text
three_parts _ = err value_error

-- `extract_result`
unfoldable pub extract_result : Bytes → Result (ℤ × Bool × Bytes)
unfolding three_parts
extract_result wire = three_parts (split_max 2 (codes ":") wire)

status-Lacks : (success : Bool) → Lacks b':' (status success)
status-Lacks true = omega arith
status-Lacks false = omega arith

reply_parts :
    (pid : ℕ) (success : Bool) (text : Bytes)
    → split_max 2 (codes ":") (reply pid success text) ≡ format pid ∷ status success ∷ text ∷ []
unfolding reply split_max
reply_parts pid success text = rw (
  split_max-append b':' [] 1 (format pid) (status success ++ (codes ":" ++ text))
      (Lacks-NoneInside b':' [] (format pid) (format-Lacks b':' pid refl)),
  split_max-append b':' [] 0 (status success) text
      (Lacks-NoneInside b':' [] (status success) (status-Lacks success)),
)

status_read : (success : Bool) → beq (status success) (codes "OK") ≡ success
status_read true = refl
status_read false = refl

-- The client reads the process id, the outcome and the text that the worker wrote, whatever the
-- text holds.
pub extract_result-reply :
    (pid : ℕ) (success : Bool) (text : Bytes)
    → extract_result (reply pid success text) ≡ ok (pos pid, success, text)
unfolding extract_result
extract_result-reply pid success text =
    rw (reply_parts pid success text, to_long-format pid, status_read success)
