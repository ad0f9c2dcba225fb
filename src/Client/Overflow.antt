-- ===== src/Client/Overflow.antt =====
-- The timeout counters of `execute`, against the history of the calls.
use powerhoc.Common.{ℕ, ◌+◌, Bool, ◌&&◌, List, [], ◌∷◌, Bytes, ltb, ◌≡◌, refl, arith, if◌then◌else◌}
use powerhoc.Dict.{get, get-set}
use powerhoc.Exc.{err, timeout_error}
use powerhoc.Client.{Client, same_int, same_int_iff, int_eq, counter, set_counter, checked, settle}
use powerhoc.Text.Decimal.{ℤ}

-- One answered call: the worker, the time it took, and what it sent.
pub record Answer : Type 0 where
  pub pid : ℤ
  pub duration : ℕ
  pub res : Bool
  pub text : Bytes

-- The client after the answers, the newest first.
unfoldable pub settled : Client → List Answer → Client
unfolding settle
settled c [] = c
settled c (a ∷ before) = (settle (settled c before) a.duration a.pid a.res a.text).1

-- How many answers of the worker in a row were late, back from the newest.
unfoldable pub streak : ℕ → ℤ → List Answer → ℕ
streak timeout pid [] = 0
streak timeout pid (a ∷ before) =
    let earlier = streak timeout pid before in
    if same_int a.pid pid then if ltb timeout a.duration then earlier + 1 else 0 else earlier

counter-set :
    (c : Client) (pid q : ℤ) (n : ℕ)
    → counter (set_counter pid n c) q ≡ (if same_int pid q then n else counter c q)
unfolding counter set_counter
counter-set c pid q n = ground (arith, get-set pid q n c.timeout_counters)

counter-settle :
    (c : Client) (a : Answer) (q : ℤ)
    → counter (settle c a.duration a.pid a.res a.text).1 q ≡ (
        if same_int a.pid q
        then if ltb c.timeout a.duration then counter c a.pid + 1 else 0
        else counter c q)
unfolding settle
counter-settle c a q =
    ground (arith, counter-set c a.pid q (counter c a.pid + 1), counter-set c a.pid q 0)

timeout-settle :
    (c : Client) (a : Answer) → (settle c a.duration a.pid a.res a.text).1.timeout ≡ c.timeout
unfolding settle set_counter
timeout-settle c a = ground arith

timeout-settled : (c : Client) (h : List Answer) → (settled c h).timeout ≡ c.timeout
unfolding settled
timeout-settled c [] = refl
timeout-settled c (a ∷ h) = ground (arith, timeout-settle (settled c h) a, timeout-settled c h)

overflows-settled :
    (c : Client) (h : List Answer) → (settled c h).timeout_overflows ≡ c.timeout_overflows
unfolding settled settle set_counter
overflows-settled c [] = refl
overflows-settled c (a ∷ h) = ground (arith, overflows-settled c h)

-- From a new client, a worker's counter is the length of its current run of late answers.
pub counter-settled :
    (c : Client) (h : List Answer) (pid : ℤ)
    → c.timeout_counters ≡ []
    → counter (settled c h) pid ≡ streak c.timeout pid h
unfolding settled streak
counter-settled c [] pid e = rw (e, counter) (unfold get in refl)
counter-settled c (a ∷ h) pid e = rw counter-settle (
    ground (
      arith,
      timeout-settled c h,
      same_int_iff a.pid pid,
      counter-settled c h pid e,
      counter-settled c h a.pid e,
    ))

settle_result :
    (c : Client) (a : Answer)
    → (settle c a.duration a.pid a.res a.text).0 ≡ (
        if ltb c.timeout a.duration && ltb c.timeout_overflows (counter c a.pid + 1)
        then err timeout_error
        else checked a.res a.text)
unfolding settle
settle_result c a =
    ground (arith, counter-set c a.pid a.pid (counter c a.pid + 1), same_int_iff a.pid a.pid)

-- What `execute` gives for an answer after any history of a new client: `TimeoutError` if the
-- worker's run of late answers, this one included, is longer than `timeout_overflows`, and the
-- worker's own result or error else.
pub settle-streak :
    (c : Client) (h : List Answer) (a : Answer)
    → c.timeout_counters ≡ []
    → (settle (settled c h) a.duration a.pid a.res a.text).0 ≡ (
        if ltb c.timeout_overflows (streak c.timeout a.pid (a ∷ h))
        then err timeout_error
        else checked a.res a.text)
unfolding streak
settle-streak c h a e = rw settle_result (
    ground (
      arith,
      timeout-settled c h,
      overflows-settled c h,
      same_int_iff a.pid a.pid,
      counter-settled c h a.pid e,
    ))
