-- ===== src/Text/Decimal.antt =====
-- `'%d' % n`, `int(s)` and `long(s)` in base ten. Python's integers have no bound.
pub mod RoundTrip
use powerhoc.Common.{
  ℕ, zero, suc, ◌+◌, ◌-◌, ◌*◌, ◌/◌, ◌%◌, ◌<◌, ◌≤◌, ◌≡◌, ◌≢◌, refl, Bool, true, false, ◌&&◌, ◌||◌,
  [], ◌∷◌, ◌++◌, Option, none, some, Bytes, codes, Lacks, All, All-append, arith, leb, ltb, ◌==◌,
  if◌then◌else◌,
}
use powerhoc.Text.{is_space, lstrip, rstrip}

-- Python's `int` and `long` over the native numbers: `negsuc n` is -(n + 1).
pub data ℤ : Type 0 where
  pos : ℕ → ℤ
  negsuc : ℕ → ℤ

abbrev pub negate : ℕ → ℤ
negate zero = pos 0
negate (suc n) = negsuc n

-- The digits of `n` in front of `out`; `n + 1` rounds are enough.
emit : ℕ → ℕ → Bytes → Bytes
emit zero n out = out
emit (suc fuel) n out =
    let rest = emit fuel (n / 10) ((b'0' + n % 10) ∷ out) in
    if ltb n 10 then (b'0' + n) ∷ out else rest

-- `'%d' % n` for a number that is not negative, such as a process id
unfoldable pub format : ℕ → Bytes
unfolding emit
format n = emit (suc n) n []

abbrev pub is_digit : ℕ → Bool
is_digit c = leb b'0' c && leb c b'9'

scan : Bytes → ℕ → Option ℕ
scan [] n = some n
scan (c ∷ s) n = if is_digit c then scan s (n * 10 + (c - b'0')) else none

-- one digit at least
digits : Bytes → Option ℕ
digits [] = none
digits (c ∷ s) = scan (c ∷ s) 0

-- the sign, and the blanks that may follow it
unsigned : Bytes → Option ℤ
unsigned s = elim (digits (lstrip s)) [ none ↦ none | some n ↦ some (pos n) ]

signed : Bytes → Option ℤ
signed [] = none
signed (c ∷ s) =
    if c == b'-'
    then elim (digits (lstrip s)) [ none ↦ none | some n ↦ some (negate n) ]
    else if c == b'+'
    then unsigned s
    else unsigned (c ∷ s)

-- `int(s)`: blanks around the number are dropped; `none` is a `ValueError`.
unfoldable pub to_int : Bytes → Option ℤ
unfolding signed unsigned digits scan
to_int s = signed (rstrip (lstrip s))

drop_suffix : Bytes → Bytes
drop_suffix [] = []
drop_suffix (c ∷ []) = if (c == b'L') || (c == b'l') then [] else c ∷ []
drop_suffix (c ∷ d ∷ s) = c ∷ drop_suffix (d ∷ s)

-- `long(s)`: as `int(s)`, and the number may end in `L`.
unfoldable pub to_long : Bytes → Option ℤ
unfolding signed unsigned digits scan drop_suffix
to_long s = signed (drop_suffix (rstrip (lstrip s)))
