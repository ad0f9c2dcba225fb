-- ===== src/Logging.antt =====
-- `set_logger` of powerhose/util.py: the handlers of the loggers, by name. A line is logged once by
-- each handler whose level it reaches.
use powerhoc.Common.{
  ℕ, ◌+◌, Bool, true, false, List, [], ◌∷◌, ◌++◌, Option, none, some, Bytes, codes, beq, beq_refl,
  ◌≡◌, refl, arith, if◌then◌else◌,
}
use powerhoc.Dict.{Dict, bytes_eq, get, set, get-set}

pub data Level : Type 0 where
  debug_level info_level : Level

-- `none` is the stream to stdout.
pub record Handler : Type 0 where
  pub level : Level
  pub file : Option Bytes

abbrev pub Loggers : Type 0
Loggers = Dict Bytes (List Handler)

unfoldable pub handlers : Bytes → Loggers → List Handler
unfolding get
handlers name loggers = elim (get name loggers) [ none ↦ [] | some hs ↦ hs ]

-- `set_logger`
unfoldable pub set_logger : Bool → Bytes → Bytes → Loggers → Loggers
unfolding handlers set
set_logger debug name logfile loggers =
    let file = if beq logfile (codes "stdout") then none else some logfile in
    let level = if debug then debug_level else info_level in
    set name (handlers name loggers ++ record { level = level; file = file } ∷ []) loggers

abbrev pub takes : Level → Handler → Bool
takes info_level h = true
takes debug_level h = elim h.level [ debug_level ↦ true | info_level ↦ false ]

-- How often a line is written.
unfoldable pub written : Level → List Handler → ℕ
written l [] = 0
written l (h ∷ hs) = (if takes l h then 1 else 0) + written l hs

written-append :
    (l : Level) (hs ks : List Handler) → written l (hs ++ ks) ≡ written l hs + written l ks
unfolding written
written-append l [] ks = omega arith
written-append l (h ∷ hs) ks = omega (arith, written-append l hs ks)

handlers-set :
    (name other : Bytes) (hs : List Handler) (loggers : Loggers)
    → handlers other (set name hs loggers) ≡ (if beq name other then hs else handlers other loggers)
unfolding handlers
handlers-set name other hs loggers = ground (arith, get-set name other hs loggers)

-- Each call of `set_logger` adds a handler: a line at the level INFO is written once more than before,
-- one at the level DEBUG only if `debug` is set, and other loggers are as they were.
pub set_logger_lem :
    (debug : Bool) (name logfile other : Bytes) (loggers : Loggers)
    → (written info_level (handlers name (set_logger debug name logfile loggers))
        ≡ written info_level (handlers name loggers) + 1)
      × (written debug_level (handlers name (set_logger debug name logfile loggers))
          ≡ written debug_level (handlers name loggers) + (if debug then 1 else 0))
      × (beq name other ≡ false
          → handlers other (set_logger debug name logfile loggers) ≡ handlers other loggers)
unfolding set_logger
set_logger_lem debug name logfile other loggers = (
  rw (handlers-set name name _ loggers, beq_refl name, written-append)
      (unfold written in ground arith),
  rw (handlers-set name name _ loggers, beq_refl name, written-append)
      (unfold written in ground arith),
  λ e. rw (handlers-set name other _ loggers, e) refl,
)
