-- ===== src/Timer/Stop.antt =====
-- How `stop` ends the timer's thread: the thread takes what is in the queue and leaves its loop.
use powerhoc.Common.{
  Bytes, Bool, true, false, List, [], ◌∷◌, ◌++◌, ◌≡◌, ◌≢◌, refl, ap, ◌∙◌, arith, if◌then◌else◌,
}
use powerhoc.Timer.{
  Msg, starting, finished, Place, idle, timing, over, Timer, put, new, run_begins, next_place,
  take_msg, time_out, stop, Step, starts, ends, takes, times_out, job_starts_ok, job_ends_ok,
}

-- The states that are reached, timeouts included.
pub data Reached (t : Timer) : Timer → Type 0 where
  here : Reached t t
  next : {u w : Timer} → Reached t u → Step u w → Reached t w

-- The timer's thread alone, on the messages of the queue.
unfoldable pub drain : List Msg → Timer → Timer
unfolding take_msg
drain [] t = t
drain (m ∷ rest) t = drain rest (take_msg t rest t.place)

-- `armed` holds only where the thread is timing, and the thread is in its loop.
pub record Sound (t : Timer) : Type 0 where
  armed_times : t.armed ≡ true → t.place ≡ timing
  runs : t.running ≡ true
  inside : t.place ≢ over

pub take-Sound :
    (t : Timer) (rest : List Msg) (p : Place)
    → t.running ≡ true
    → p ≢ over
    → Sound (take_msg t rest p)
unfolding take_msg
take-Sound t rest idle r h = record { armed_times = λ e. refl; runs = r; inside = λ e. cc }
take-Sound t rest timing r h = record {
  armed_times = λ e. cc;
  runs = r;
  inside = λ e. ground (arith, r);
}
take-Sound t rest over r h = absurd (h refl)

pub time_out-Sound : (dump : List Bytes) (t : Timer) → Sound t → Sound (time_out dump t)
unfolding time_out
time_out-Sound dump t v = record {
  armed_times = λ h. cc;
  runs = v.runs;
  inside = λ h. ground (arith, v.runs);
}

pub Step-Sound : {t u : Timer} → Step t u → Sound t → Sound u
unfolding put
Step-Sound {t} {u} (starts e) v =
    let (w, q) = job_starts_ok t u e in
    rw (← q) (record { armed_times = v.armed_times; runs = v.runs; inside = v.inside })
Step-Sound {t} {u} (ends e) v =
    let (w, q) = job_ends_ok t u e in
    rw (← q) (record { armed_times = λ h. cc; runs = v.runs; inside = v.inside })
Step-Sound {t} (takes m rest e f) v = rw f (take-Sound t rest t.place v.runs v.inside)
Step-Sound {t} (times_out dump e f g) v = rw g (time_out-Sound dump t v)

Reached-Sound : {t u : Timer} → Reached t u → Sound t → Sound u
Reached-Sound here v = v
Reached-Sound (next r st) v = Step-Sound st (Reached-Sound r v)

pub new-Sound : Sound (run_begins new)
unfolding new run_begins
new-Sound = record { armed_times = λ h. cc; runs = refl; inside = λ h. cc }

taken :
    (m : Msg) (rest : List Msg) (t : Timer) (p : Place)
    → t.place ≡ p
    → (drain (m ∷ rest) t).place ≡ (drain rest (take_msg t rest p)).place
unfolding drain
taken m rest t p e = ap (λ q. (drain rest (take_msg t rest q)).place) e

over_stays : (q : List Msg) (t : Timer) → t.place ≡ over → (drain q t).place ≡ over
unfolding drain take_msg
over_stays [] t e = e
over_stays (m ∷ rest) t e = taken m rest t over e ∙ over_stays rest t e

timing_ends :
    (m : Msg) (rest : List Msg) (t : Timer)
    → t.place ≡ timing
    → t.running ≡ false
    → (drain (m ∷ rest) t).place ≡ over
unfolding take_msg
timing_ends m rest t e r =
    taken m rest t timing e ∙ over_stays rest (take_msg t rest timing) (ap next_place r)

two_end :
    (a b : Msg) (rest : List Msg) (t : Timer) (p : Place)
    → t.place ≡ p
    → t.running ≡ false
    → (drain (a ∷ b ∷ rest) t).place ≡ over
unfolding take_msg
two_end a b rest t idle e r =
    taken a (b ∷ rest) t idle e ∙ timing_ends b rest (take_msg t (b ∷ rest) idle) refl r
two_end a b rest t timing e r = timing_ends a (b ∷ rest) t e r
two_end a b rest t over e r = over_stays (a ∷ b ∷ rest) t e

-- The messages that `stop` puts are enough, whatever is in the queue before them.
end_put :
    (q : List Msg) (t : Timer)
    → t.place ≡ timing
    → t.running ≡ false
    → (drain (q ++ finished ∷ []) t).place ≡ over
end_put [] t e r = timing_ends finished [] t e r
end_put (m ∷ q) t e r = timing_ends m (q ++ finished ∷ []) t e r

both_put :
    (q : List Msg) (t : Timer)
    → t.running ≡ false
    → (drain ((q ++ starting ∷ []) ++ finished ∷ []) t).place ≡ over
both_put [] t r = two_end starting finished [] t t.place refl r
both_put (m ∷ []) t r = two_end m starting (finished ∷ []) t t.place refl r
both_put (m ∷ n ∷ q) t r = two_end m n ((q ++ starting ∷ []) ++ finished ∷ []) t t.place refl r

-- `stop` at a value of `armed`
unfoldable told : Bool → Timer → Timer
unfolding put
told armed t =
    let t' = record t { running = false } in put finished (if armed then t' else put starting t')

stop_drained :
    (t : Timer) (armed : Bool)
    → t.armed ≡ armed
    → Sound t
    → (drain (told armed t).queue (told armed t)).place ≡ over
unfolding put told
stop_drained t true e v = end_put t.queue _ (v.armed_times e) refl
stop_drained t false e v = both_put t.queue _ refl

-- The thread is in its loop, or has left it.
pub data CanEnd (t : Timer) : Type 0 where
  in_loop : Sound t → CanEnd t
  has_left : t.place ≡ over → CanEnd t

puts_keep : (t : Timer) (armed : Bool) → t.place ≡ over → (told armed t).place ≡ over
unfolding told put
puts_keep t true e = e
puts_keep t false e = e

pub CanEnd-drain : (t : Timer) → CanEnd t → (drain (stop t).queue (stop t)).place ≡ over
unfolding stop told
CanEnd-drain t (in_loop v) = stop_drained t t.armed refl v
CanEnd-drain t (has_left e) = over_stays (stop t).queue (stop t) (puts_keep t t.armed e)

-- In whatever state `stop` finds the thread, once it runs, between any two steps and after any
-- timeouts: with the messages that are then in the queue the thread leaves its loop, so the `join`
-- of `stop` returns.
pub stop-drain :
    (t : Timer) → Reached (run_begins new) t → (drain (stop t).queue (stop t)).place ≡ over
stop-drain t r = CanEnd-drain t (in_loop (Reached-Sound r new-Sound))
