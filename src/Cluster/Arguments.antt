-- ===== src/Cluster/Arguments.antt =====
-- The arguments that the two programs of a cluster are started with.
use powerhoc.Common.{
  ℕ, ◌&&◌, not, leb, ◌==◌, Bool, true, false, List, [], ◌∷◌, ◌++◌, append-nil, Bytes, codes, All,
  All-append, Lacks, ◌≡◌, ◌≢◌, refl, ap, ◌∙◌, arith,
}
use powerhoc.Cluster.{
  Settings, debug_part, params_part, broker_before, broker_behind, broker_cmd, worker_before,
  worker_behind, worker_cmd, command,
}
use powerhoc.Text.{split, join}
use powerhoc.Text.Laws.{NoneInside, Lacks-NoneInside, split-join}

-- A byte of printed ASCII that is no quote, no backslash, and neither `$` nor a parenthesis.
abbrev pub is_plain : ℕ → Bool
is_plain c =
    leb 32 c
    && leb c 126
    && not (c == b'"')
    && not (c == b'\'')
    && not (c == b'\\')
    && not (c == b'$')
    && not (c == b'(')
    && not (c == b')')

abbrev pub all_plain : Bytes → Bool
all_plain [] = true
all_plain (c ∷ s) = is_plain c && all_plain s

-- A text that is one argument: not empty, without a blank, and plain.
abbrev pub IsWord : Bytes → Type 0
IsWord w = (w ≢ []) × Lacks b' ' w × (all_plain w ≡ true)

abbrev pub drop_empty : List Bytes → List Bytes
drop_empty [] = []
drop_empty ([] ∷ ws) = drop_empty ws
drop_empty ((c ∷ w) ∷ ws) = (c ∷ w) ∷ drop_empty ws

-- The words of a plain command line.
unfoldable pub words : Bytes → List Bytes
unfolding split
words line = drop_empty (split (codes " ") line)

abbrev pub debug_words : Bool → List Bytes
debug_words true = codes "--debug" ∷ []
debug_words false = []

abbrev split_parts : Bool → List Bytes
split_parts true = [] ∷ codes "--debug" ∷ []
split_parts false = [] ∷ []

drop_empty-words :
    (ws vs : List Bytes) → All IsWord ws → drop_empty (ws ++ vs) ≡ ws ++ drop_empty vs
drop_empty-words [] vs h = refl
drop_empty-words ([] ∷ ws) vs ((h, _, _), _) = absurd (h refl)
drop_empty-words ((c ∷ w) ∷ ws) vs (_, hs) = ap (λ l. (c ∷ w) ∷ l) (drop_empty-words ws vs hs)

drop_words : (ws : List Bytes) → All IsWord ws → drop_empty ws ≡ ws
drop_words ws h = rw append-nil at (drop_empty-words ws [] h)

none_inside : (ws : List Bytes) → All IsWord ws → All (NoneInside (codes " ")) ws
none_inside [] h = tt
none_inside (w ∷ ws) ((_, l, _), hs) = (Lacks-NoneInside b' ' [] w l, none_inside ws hs)

-- The blank in `' --debug'` makes an empty part.
join-debug :
    (before behind : List Bytes) (debug : Bool) (w : Bytes)
    → join (codes " ") (before ++ debug_part debug ∷ w ∷ behind)
      ≡ join (codes " ") (before ++ (split_parts debug ++ w ∷ behind))
unfolding join
join-debug [] behind true w = refl
join-debug [] behind false w = refl
join-debug (p ∷ []) behind true w = refl
join-debug (p ∷ []) behind false w = refl
join-debug (p ∷ q ∷ before) behind debug w =
    ap (λ l. p ++ (codes " " ++ l)) (join-debug (q ∷ before) behind debug w)

parts_inside :
    (debug : Bool) (ws : List Bytes)
    → All IsWord ws
    → All (NoneInside (codes " ")) (split_parts debug ++ ws)
parts_inside true ws h =
    (tt, (Lacks-NoneInside b' ' [] (codes "--debug") (omega arith), none_inside ws h))
parts_inside false ws h = (tt, none_inside ws h)

drop_parts :
    (debug : Bool) (ws : List Bytes)
    → All IsWord ws
    → drop_empty (split_parts debug ++ ws) ≡ debug_words debug ++ ws
drop_parts true ws h = ap (λ l. codes "--debug" ∷ l) (drop_words ws h)
drop_parts false ws h = drop_words ws h

words-command :
    (p : Bytes) (before behind : List Bytes) (debug : Bool) (w : Bytes)
    → All IsWord (p ∷ before)
    → All IsWord (w ∷ behind)
    → words (command ((p ∷ before) ++ debug_part debug ∷ w ∷ behind))
      ≡ (p ∷ before) ++ (debug_words debug ++ w ∷ behind)
unfolding words command
words-command p before behind debug w h k =
    ap (λ l. drop_empty (split (codes " ") l)) (join-debug (p ∷ before) behind debug w)
    ∙ ap drop_empty (
        split-join b' ' [] p (before ++ (split_parts debug ++ w ∷ behind)) (
          All-append (NoneInside (codes " ")) (p ∷ before) (split_parts debug ++ w ∷ behind)
            (none_inside (p ∷ before) h) (parts_inside debug (w ∷ behind) k)))
    ∙ drop_empty-words (p ∷ before) _ h
    ∙ ap (λ l. (p ∷ before) ++ l) (drop_parts debug (w ∷ behind) k)

all_plain-append :
    (a b : Bytes) → all_plain a ≡ true → all_plain b ≡ true → all_plain (a ++ b) ≡ true
all_plain-append [] b h k = k
all_plain-append (c ∷ a) b h k = ground (arith, h, all_plain-append a b)

abbrev ArePlain : List Bytes → Type 0
ArePlain = All (λ w. all_plain w ≡ true)

all_plain-join : (ws : List Bytes) → ArePlain ws → all_plain (join (codes " ") ws) ≡ true
unfolding join
all_plain-join [] h = refl
all_plain-join (w ∷ []) (h, _) = h
all_plain-join (w ∷ v ∷ ws) (h, hs) =
    all_plain-append w (codes " " ++ join (codes " ") (v ∷ ws)) h
      (all_plain-append (codes " ") (join (codes " ") (v ∷ ws)) refl (all_plain-join (v ∷ ws) hs))

words_plain : (ws : List Bytes) → All IsWord ws → ArePlain ws
words_plain [] h = tt
words_plain (w ∷ ws) ((_, _, p), hs) = (p, words_plain ws hs)

debug_plain : (debug : Bool) → all_plain (debug_part debug) ≡ true
debug_plain true = refl
debug_plain false = refl

all_plain-command :
    (before behind : List Bytes) (debug : Bool)
    → All IsWord before
    → All IsWord behind
    → all_plain (command (before ++ debug_part debug ∷ behind)) ≡ true
unfolding command
all_plain-command before behind debug h k = all_plain-join (before ++ debug_part debug ∷ behind) (
    All-append (λ w. all_plain w ≡ true) before (debug_part debug ∷ behind) (words_plain before h)
      (debug_plain debug, words_plain behind k))

-- The settings are words.
pub record AreWords (s : Settings) : Type 0 where
  pub python : IsWord s.python
  pub target : IsWord s.target
  pub frontend : IsWord s.frontend
  pub backend : IsWord s.backend
  pub heartbeat : IsWord s.heartbeat
  pub logfile : IsWord s.logfile
  pub timeout : IsWord s.timeout
  pub max_age : IsWord s.max_age
  pub max_age_delta : IsWord s.max_age_delta
  pub params : All IsWord (params_part s.worker_params)

option : {w : Bytes} → w ≢ [] → Lacks b' ' w → all_plain w ≡ true → IsWord w
option h l p = (h, l, p)

broker_words :
    (s : Settings)
    → AreWords s
    → All IsWord (s.python ∷ broker_before s) × All IsWord (codes "--frontend" ∷ broker_behind s)
unfolding broker_before broker_behind
broker_words s v = (
  (
    v.python,
    (
      option (λ e. cc) (omega arith) refl,
      (option (λ e. cc) (omega arith) refl, (option (λ e. cc) (omega arith) refl, (v.logfile, tt))),
    ),
  ),
  (
    option (λ e. cc) (omega arith) refl,
    (
      v.frontend,
      (
        option (λ e. cc) (omega arith) refl,
        (v.backend, (option (λ e. cc) (omega arith) refl, (v.heartbeat, tt))),
      ),
    ),
  ),
)

worker_words :
    (s : Settings)
    → AreWords s
    → All IsWord (s.python ∷ worker_before s) × All IsWord (codes "--backend" ∷ worker_behind s)
unfolding worker_before worker_behind
worker_words s v = (
  (
    v.python,
    (
      option (λ e. cc) (omega arith) refl,
      (
        option (λ e. cc) (omega arith) refl,
        (v.target, (option (λ e. cc) (omega arith) refl, (v.logfile, tt))),
      ),
    ),
  ),
  (
    option (λ e. cc) (omega arith) refl,
    (
      v.backend,
      (
        option (λ e. cc) (omega arith) refl,
        (
          v.heartbeat,
          (
            option (λ e. cc) (omega arith) refl,
            (
              v.timeout,
              (
                option (λ e. cc) (omega arith) refl,
                (v.max_age, (option (λ e. cc) (omega arith) refl, (v.max_age_delta, v.params))),
              ),
            ),
          ),
        ),
      ),
    ),
  ),
)

-- If every setting is one word, the words of the two command lines are the arguments that broker and
-- worker read: each option is followed by its setting, both get the same backend and heartbeat, and
-- the empty part that `debug` leaves does no harm.
pub words-cluster :
    (s : Settings)
    → AreWords s
    → (words (command (broker_cmd s))
        ≡ (s.python ∷ codes "-m" ∷ codes "powerhose.broker" ∷ codes "--logfile" ∷ s.logfile ∷ [])
          ++ (debug_words s.debug
              ++ codes "--frontend"
                ∷ s.frontend
                ∷ codes "--backend"
                ∷ s.backend
                ∷ codes "--heartbeat"
                ∷ s.heartbeat
                ∷ []))
      × (words (command (worker_cmd s))
          ≡ (s.python
              ∷ codes "-m"
              ∷ codes "powerhose.worker"
              ∷ s.target
              ∷ codes "--logfile"
              ∷ s.logfile
              ∷ [])
            ++ (debug_words s.debug
                ++ codes "--backend"
                  ∷ s.backend
                  ∷ codes "--heartbeat"
                  ∷ s.heartbeat
                  ∷ codes "--timeout"
                  ∷ s.timeout
                  ∷ codes "--max-age"
                  ∷ s.max_age
                  ∷ codes "--max-age-delta"
                  ∷ s.max_age_delta
                  ∷ params_part s.worker_params))
unfolding broker_cmd worker_cmd broker_before broker_behind worker_before worker_behind
words-cluster s v =
    let (a, b) = broker_words s v in
    let (c, d) = worker_words s v in
    (
      words-command s.python (broker_before s) (broker_behind s) s.debug (codes "--frontend") a b,
      words-command s.python (worker_before s) (worker_behind s) s.debug (codes "--backend") c d,
    )

-- The two command lines are plain.
pub all_plain-cluster :
    (s : Settings)
    → AreWords s
    → (all_plain (command (broker_cmd s)) ≡ true) × (all_plain (command (worker_cmd s)) ≡ true)
unfolding broker_cmd worker_cmd
all_plain-cluster s v =
    let (a, b) = broker_words s v in
    let (c, d) = worker_words s v in
    (
      all_plain-command (s.python ∷ broker_before s) (codes "--frontend" ∷ broker_behind s) s.debug
          a b,
      all_plain-command (s.python ∷ worker_before s) (codes "--backend" ∷ worker_behind s) s.debug c
          d,
    )
