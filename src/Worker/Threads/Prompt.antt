-- ===== src/Worker/Threads/Prompt.antt =====
-- Where no dump outlasts the handling of a message, the mark says whether the time of the job ran out.
use powerhoc.Common.{
  ℕ, Bool, true, List, [], ◌∷◌, ◌++◌, Option, none, Bytes, All, All-append, ◌≡◌, ◌≢◌, refl, sym, ap,
  ◌∙◌, if◌then◌else◌,
}
use powerhoc.Worker.{Worker, Host}
use powerhoc.Worker.Replies.{IsReady, Delivers, answer}
use powerhoc.Worker.Threads.{
  Watch, Handled, Run, begins, receives, is_refused, returns, raises, replies, takes, expires,
  marks,
}
use powerhoc.Worker.Threads.Marks.{unmarked, Run-unmarked}

module _ (host : Host) where
  -- No dump is made when a message comes, nor when the handler looks at the mark.
  abbrev pub IsPrompt :
      {w : Worker} {h : List Handled} {x l : Bool} {s : Watch} → Run host w h x l s → Type 0
  IsPrompt begins = Unit
  IsPrompt (receives {s = s} msg t run q e) = IsPrompt run × (s.dumping ≡ none)
  IsPrompt (is_refused {s = s} msg e run q f) = IsPrompt run × (s.dumping ≡ none)
  IsPrompt (returns msg t run q e) = IsPrompt run
  IsPrompt (raises msg e run q f) = IsPrompt run
  IsPrompt (replies {s = s} msg res run q) = IsPrompt run × (s.dumping ≡ none)
  IsPrompt (takes m rest run q e) = IsPrompt run
  IsPrompt (expires dump run q p e) = IsPrompt run
  IsPrompt (marks dump run q) = IsPrompt run

  -- The answers to the messages whose job ended in time
  abbrev pub in_time : ℕ → List Handled → List Bytes
  in_time pid [] = []
  in_time pid (m ∷ h) =
      let rest = in_time pid h in if m.expired then rest else answer host pid m.msg ∷ rest

  abbrev IsExact : Handled → Type 0
  IsExact m = m.marked ≡ m.expired

  record Agrees (h : List Handled) (x l : Bool) (dumping : Option (List Bytes)) : Type 0 where
    exact : All IsExact h
    level : dumping ≡ none → l ≡ x
    ahead : dumping ≢ none → x ≡ true

  Run-Agrees :
      (w : Worker) {h : List Handled} {x l : Bool} {s : Watch} (run : Run host w h x l s)
      → IsPrompt run
      → Agrees h x l s.dumping
  Run-Agrees w begins p = record { exact = tt; level = λ e. refl; ahead = λ e. absurd (e refl) }
  Run-Agrees w (receives msg t run q e) (p, d) =
      let v = Run-Agrees w run p in
      record { exact = v.exact; level = λ k. refl; ahead = λ k. absurd (k d) }
  Run-Agrees w (is_refused msg x run q e) (p, d) =
      let v = Run-Agrees w run p in
      record { exact = v.exact; level = λ k. refl; ahead = λ k. absurd (k d) }
  Run-Agrees w (returns msg t run q e) p = Run-Agrees w run p
  Run-Agrees w (raises msg x run q e) p = Run-Agrees w run p
  Run-Agrees w (replies {h = h} {x = x} {l = l} msg res run q) (p, d) =
      let v = Run-Agrees w run p in
      record {
        exact =
            All-append IsExact h (record { msg = msg; expired = x; marked = l } ∷ []) v.exact
              (v.level d, tt);
        level = λ k. refl;
        ahead = λ k. absurd (k d);
      }
  Run-Agrees w (takes m rest run q e) p = Run-Agrees w run p
  Run-Agrees w (expires dump run q p e) r =
      let v = Run-Agrees w run r in record { exact = v.exact; level = λ k. cc; ahead = λ k. refl }
  Run-Agrees w (marks dump run q) p =
      let v = Run-Agrees w run p in
      record {
        exact = v.exact;
        level = λ k. sym (v.ahead (λ e. cc (e, q)));
        ahead = λ k. absurd (k refl);
      }

  unmarked-in_time :
      (pid : ℕ) (h : List Handled) → All IsExact h → unmarked host pid h ≡ in_time pid h
  unmarked-in_time pid [] e = refl
  unmarked-in_time pid (m ∷ h) (e, es) = rw (e, unmarked-in_time pid h es) refl

  -- If no dump is made when a message comes, nor when the handler looks at the mark, and the stream
  -- takes every reply: a worker that was ready has sent, in order, the answer to each handled message
  -- during which no time ran out, malformed ones included, and nothing else.
  pub Run-in_time :
      (delivers : Delivers host) (w : Worker) (h : List Handled) (x l : Bool) (s : Watch)
      → IsReady w
      → (run : Run host w h x l s) → IsPrompt run
      → s.worker.sent ≡ w.sent ++ in_time w.pid h
  Run-in_time delivers w h x l s r run p =
      (Run-unmarked host delivers w h x l s r run).0
      ∙ ap (λ a. w.sent ++ a) (unmarked-in_time w.pid h (Run-Agrees w run p).exact)
