-- ===== src/Stacks/Expiry.antt =====
-- When a job that runs out of time is noticed.
use powerhoc.Common.{
  ℕ, ◌+◌, ◌*◌, false, List, [], ◌∷◌, ◌++◌, Option, none, some, Bytes, codes, All, length,
  length-append, ◌≡◌, refl, ap, arith, if◌then◌else◌,
}
use powerhoc.Dict.{Dict, get, set_all}
use powerhoc.Exc.{ok, err, key_error}
use powerhoc.Stacks.{
  nat_eq, Greenlet, Interpreter, hex, dump_threads, dump_greenlets, dump_stacks, expire,
}
use powerhoc.Timer.{Timer, over, time_out}

-- `threading` has a name for the thread of a frame.
abbrev pub IsNamed : Interpreter → ℕ × Bytes → Type 0
IsNamed i frame = (name : Bytes) × (get frame.0 (set_all i.threads []) ≡ some name)

abbrev pub IsUnnamed : Interpreter → ℕ × Bytes → Type 0
IsUnnamed i frame = get frame.0 (set_all i.threads []) ≡ none

abbrev pub running : List Greenlet → ℕ
running [] = 0
running (ob ∷ obs) = (if ob.runs then 1 else 0) + running obs

abbrev pub greenlets_of : Interpreter → ℕ
greenlets_of i = elim i.greenlets [ none ↦ 0 | some obs ↦ running obs ]

dump_threads_named :
    (threads : Dict ℕ Bytes) (frames : List (ℕ × Bytes))
    → All (λ f. (name : Bytes) × (get f.0 threads ≡ some name)) frames
    → (dump : List Bytes) × (dump_threads threads frames ≡ ok dump)
      × (length dump ≡ 3 * length frames)
unfolding dump_threads
dump_threads_named threads [] h = ([], refl, omega arith)
dump_threads_named threads ((thread, frame) ∷ frames) ((name, e), hs) =
    let (dump, q, n) = dump_threads_named threads frames hs in
    (
      (codes "Thread 0x" ++ hex thread ++ codes " (" ++ name ++ codes ")\n")
          ∷ frame
          ∷ codes "\n"
          ∷ dump,
      rw (e, dump_threads) (rw q refl),
      omega (arith, n),
    )

dump_threads_unnamed :
    (threads : Dict ℕ Bytes) (before behind : List (ℕ × Bytes)) (f : ℕ × Bytes)
    → All (λ f. (name : Bytes) × (get f.0 threads ≡ some name)) before
    → get f.0 threads ≡ none
    → dump_threads threads (before ++ f ∷ behind) ≡ err key_error
unfolding dump_threads
dump_threads_unnamed threads [] behind f h e = rw (e, dump_threads) refl
dump_threads_unnamed threads ((thread, frame) ∷ before) behind f ((name, q), hs) e =
    rw (q, dump_threads) (rw (dump_threads_unnamed threads before behind f hs e) refl)

length-dump_greenlets : (obs : List Greenlet) → length (dump_greenlets obs) ≡ 3 * running obs
unfolding dump_greenlets
length-dump_greenlets [] = omega arith
length-dump_greenlets (ob ∷ obs) = ground (arith, length-dump_greenlets obs)

dump_stacks_named :
    (i : Interpreter)
    → All (IsNamed i) i.frames
    → (dump : List Bytes) × (dump_stacks i ≡ ok dump)
      × (length dump ≡ 3 * (length i.frames + greenlets_of i))
dump_stacks_named i h =
    let (dump, q, n) = dump_threads_named (set_all i.threads []) i.frames h in
    go i.greenlets refl dump q n
  where
    go :
        (o : Option (List Greenlet))
        → i.greenlets ≡ o
        → (dump : List Bytes) → dump_threads (set_all i.threads []) i.frames ≡ ok dump
        → length dump ≡ 3 * length i.frames
        → (dump : List Bytes) × (dump_stacks i ≡ ok dump)
          × (length dump ≡ 3 * (length i.frames + greenlets_of i))
    go none e dump q n = (dump, unfold dump_stacks in rw (q, e) refl, rw e (omega (arith, n)))
    go (some obs) e dump q n = (
      dump ++ dump_greenlets obs,
      unfold dump_stacks in rw (q, e) refl,
      rw e (omega (arith, n, length-append dump (dump_greenlets obs), length-dump_greenlets obs)),
    )

expire_ok :
    (i : Interpreter) (t : Timer) (dump : List Bytes)
    → dump_stacks i ≡ ok dump
    → expire i t ≡ time_out dump t
unfolding expire
expire_ok i t dump q = rw (q, expire) refl

expire_err :
    (i : Interpreter) (t : Timer)
    → dump_stacks i ≡ err key_error
    → expire i t ≡ record t { armed = false; place = over }
unfolding expire
expire_err i t q = rw (q, expire) refl

-- Where `threading` knows the thread of every frame, a job that runs out of time is marked so, with
-- a dump of three entries for each thread and for each running greenlet. Where a frame is there whose
-- thread it does not know, behind frames that it does, the job is not marked, no dump is kept, and
-- the timer's thread has ended.
pub expire_lem :
    (i : Interpreter) (t : Timer)
    → (All (IsNamed i) i.frames
        → (dump : List Bytes) × (expire i t ≡ time_out dump t)
          × (length dump ≡ 3 * (length i.frames + greenlets_of i)))
      × ((before behind : List (ℕ × Bytes)) (f : ℕ × Bytes)
          → i.frames ≡ before ++ f ∷ behind
          → All (IsNamed i) before
          → IsUnnamed i f
          → ((expire i t).timed_out ≡ t.timed_out)
            × ((expire i t).last_dump ≡ t.last_dump)
            × ((expire i t).place ≡ over))
expire_lem i t = (
  λ h. let (dump, q, n) = dump_stacks_named i h in (dump, expire_ok i t dump q, n),
  λ before behind f e h u.
      let failed : dump_stacks i ≡ err key_error =
        unfold dump_stacks in
        rw e (rw (dump_threads_unnamed (set_all i.threads []) before behind f h u) refl) in
      let q = expire_err i t failed in
      (ap (λ x. x.timed_out) q, ap (λ x. x.last_dump) q, ap (λ x. x.place) q),
)
