-- ===== src/Text.antt =====
-- What the code uses of Python 2's `str`: `in`, `split` with and without a bound, `join`, `replace`
-- of one byte, `strip` and `startswith`. The separators in the source are never empty.
pub mod Laws
pub mod Strip
pub mod Parts
pub mod Decimal
use powerhoc.Common.{
  ℕ, zero, suc, Bool, true, false, ◌&&◌, ◌||◌, List, [], ◌∷◌, ◌++◌, Option, none, some, Bytes,
  length, leb, ◌==◌, if◌then◌else◌,
}

-- The rest of the text behind a prefix.
unfoldable pub strip_prefix : Bytes → Bytes → Option Bytes
strip_prefix [] s = some s
strip_prefix (c ∷ sep) [] = none
strip_prefix (c ∷ sep) (d ∷ s) = if c == d then strip_prefix sep s else none

unfoldable pub starts_with : Bytes → Bytes → Bool
unfolding strip_prefix
starts_with prefix s = elim (strip_prefix prefix s) [ none ↦ false | some r ↦ true ]

abbrev pub cons_before : ℕ → Option (Bytes × Bytes) → Option (Bytes × Bytes)
cons_before c none = none
cons_before c (some (before, after)) = some (c ∷ before, after)

abbrev pub here_or : Option Bytes → Option (Bytes × Bytes) → Option (Bytes × Bytes)
here_or none later = later
here_or (some after) later = some ([], after)

-- The text before and after the first place of the separator.
unfoldable pub partition : Bytes → Bytes → Option (Bytes × Bytes)
unfolding strip_prefix
partition sep [] = none
partition sep (c ∷ s) = here_or (strip_prefix sep (c ∷ s)) (cons_before c (partition sep s))

-- `sep in s`
unfoldable pub contains : Bytes → Bytes → Bool
unfolding partition
contains sep s = elim (partition sep s) [ none ↦ false | some r ↦ true ]

-- `s.split(sep, n)`
unfoldable pub split_max : ℕ → Bytes → Bytes → List Bytes
unfolding partition
split_max zero sep s = s ∷ []
split_max (suc n) sep s = elim (partition sep s) [
  | none ↦ s ∷ []
  | some (before, after) ↦ before ∷ split_max n sep after
]

-- `s.split(sep)`: each separator takes a byte at least, so the length bounds the cuts.
unfoldable pub split : Bytes → Bytes → List Bytes
unfolding split_max
split sep s = split_max (length s) sep s

-- `sep.join(parts)`
unfoldable pub join : Bytes → List Bytes → Bytes
join sep [] = []
join sep (p ∷ []) = p
join sep (p ∷ q ∷ ps) = p ++ (sep ++ join sep (q ∷ ps))

-- `s.replace(old, new)` for one byte `old`
unfoldable pub replace : ℕ → Bytes → Bytes → Bytes
replace old new [] = []
replace old new (c ∷ s) = (if c == old then new else c ∷ []) ++ replace old new s

-- Space, tab, line feed, vertical tab, form feed and carriage return.
abbrev pub is_space : ℕ → Bool
is_space c = (c == 32) || (leb 9 c && leb c 13)

unfoldable pub lstrip : Bytes → Bytes
lstrip [] = []
lstrip (c ∷ s) = if is_space c then lstrip s else c ∷ s

abbrev pub keep_right : ℕ → Bytes → Bytes
keep_right c [] = if is_space c then [] else c ∷ []
keep_right c (d ∷ s) = c ∷ d ∷ s

unfoldable pub rstrip : Bytes → Bytes
rstrip [] = []
rstrip (c ∷ s) = keep_right c (rstrip s)

-- `s.strip()`
unfoldable pub strip : Bytes → Bytes
unfolding lstrip rstrip
strip s = rstrip (lstrip s)
