-- ===== src/Loop.antt =====
-- The loop that `Broker.start`, `Worker.start` and `Stethoscope.run` share: the event loop is run
-- again as long as a signal interrupts it.
use powerhoc.Common.{
  Bool, true, false, List, [], ◌∷◌, ◌++◌, Option, none, some, All, ap, refl, ◌≡◌, ◌≢◌, ◌⊎◌, inl,
  inr,
}
use powerhoc.Exc.{Errno, efsm, eagain, eintr, eterm, other, Result, ok, err, zmq_error}

-- How one `self.loop.start()` ends.
pub data Round : Type 0 where
  returned : Round
  interrupted : Errno → Round

-- `while running`, on the ends of the rounds and on what `running` is after each; `none` while
-- the event loop still runs.
unfoldable pub loop : Bool → List (Round × Bool) → Option (Result (Unit {0}))
loop false rounds = some (ok tt)
loop true [] = none
loop true ((returned, running) ∷ rounds) = some (ok tt)
loop true ((interrupted eintr, running) ∷ rounds) = loop running rounds
loop true ((interrupted eterm, running) ∷ rounds) = some (ok tt)
loop true ((interrupted e, running) ∷ rounds) = some (err (zmq_error e))

-- A round that a signal ended while `running` held.
abbrev pub signal : Round × Bool
signal = (interrupted eintr, true)

abbrev pub AllSignals : List (Round × Bool) → Type 0
AllSignals = All (λ round. (round.0 ≡ interrupted eintr) × (round.1 ≡ true))

-- The ways in which the loop goes on or ends, with the result of each.
pub data Stops (rounds : List (Round × Bool)) (r : Option (Result (Unit {0}))) : Type 0 where
  still_runs :
      (signals : List (Round × Bool))
      → AllSignals signals
      → rounds ≡ signals
      → r ≡ none
      → Stops rounds r
  told_to_stop :
      (signals rest : List (Round × Bool))
      → AllSignals signals
      → rounds ≡ signals ++ (interrupted eintr, false) ∷ rest
      → r ≡ some (ok tt)
      → Stops rounds r
  left :
      (signals rest : List (Round × Bool)) (round : Round) (running : Bool)
      → AllSignals signals
      → rounds ≡ signals ++ (round, running) ∷ rest
      → (round ≡ returned) ⊎ (round ≡ interrupted eterm)
      → r ≡ some (ok tt)
      → Stops rounds r
  raises :
      (signals rest : List (Round × Bool)) (e : Errno) (running : Bool)
      → AllSignals signals
      → rounds ≡ signals ++ (interrupted e, running) ∷ rest
      → e ≢ eintr
      → e ≢ eterm
      → r ≡ some (err (zmq_error e))
      → Stops rounds r

one_more :
    (rounds : List (Round × Bool)) (r : Option (Result (Unit {0})))
    → Stops rounds r
    → Stops ((interrupted eintr, true) ∷ rounds) r
one_more rounds r (still_runs s h e q) =
    still_runs (signal ∷ s) ((refl, refl), h) (ap (λ l. signal ∷ l) e) q
one_more rounds r (told_to_stop s rest h e q) =
    told_to_stop (signal ∷ s) rest ((refl, refl), h) (ap (λ l. signal ∷ l) e) q
one_more rounds r (left s rest round b h e k q) =
    left (signal ∷ s) rest round b ((refl, refl), h) (ap (λ l. signal ∷ l) e) k q
one_more rounds r (raises s rest x b h e k l q) =
    raises (signal ∷ s) rest x b ((refl, refl), h) (ap (λ m. signal ∷ m) e) k l q

-- The loop passes over signals as long as `running` holds. What comes behind them decides: it ends
-- in good order when the event loop returns, when the context is terminated, or when a signal finds
-- `running` unset, and it raises any other error.
pub loop-Stops : (rounds : List (Round × Bool)) → Stops rounds (loop true rounds)
unfolding loop
loop-Stops [] = still_runs [] tt refl refl
loop-Stops ((returned, b) ∷ rest) = left [] rest returned b tt refl (inl refl) refl
loop-Stops ((interrupted eintr, true) ∷ rest) = one_more rest _ (loop-Stops rest)
loop-Stops ((interrupted eintr, false) ∷ rest) = told_to_stop [] rest tt refl refl
loop-Stops ((interrupted eterm, b) ∷ rest) =
    left [] rest (interrupted eterm) b tt refl (inr refl) refl
loop-Stops ((interrupted efsm, b) ∷ rest) = raises [] rest efsm b tt refl (λ e. cc) (λ e. cc) refl
loop-Stops ((interrupted eagain, b) ∷ rest) =
    raises [] rest eagain b tt refl (λ e. cc) (λ e. cc) refl
loop-Stops ((interrupted (other n), b) ∷ rest) =
    raises [] rest (other n) b tt refl (λ e. cc) (λ e. cc) refl
