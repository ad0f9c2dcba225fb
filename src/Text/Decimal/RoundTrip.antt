-- ===== src/Text/Decimal/RoundTrip.antt =====
-- A printed number is read back.
use powerhoc.Common.{
  ℕ, zero, suc, ◌+◌, ◌/◌, ◌%◌, ◌<◌, ◌≡◌, ◌≢◌, refl, true, false, [], ◌∷◌, some, Bytes, Lacks, All,
  arith,
}
use powerhoc.Text.{lstrip, rstrip, keep_right}
use powerhoc.Text.Decimal.{
  pos, emit, format, is_digit, scan, digits, unsigned, signed, to_int, drop_suffix, to_long,
}

scan-emit : (fuel n : ℕ) (out : Bytes) → n < fuel → scan (emit fuel n out) 0 ≡ scan out n
unfolding scan emit
scan-emit zero n out h = absurd (omega arith)
scan-emit (suc fuel) n out h = ground (arith, scan-emit fuel (n / 10) ((b'0' + n % 10) ∷ out))

abbrev AllDigits : Bytes → Type 0
AllDigits = All (λ c. is_digit c ≡ true)

emit-AllDigits : (fuel n : ℕ) (out : Bytes) → AllDigits out → AllDigits (emit fuel n out)
unfolding emit
emit-AllDigits zero n out h = h
emit-AllDigits (suc fuel) n out h =
    ground (arith, emit-AllDigits fuel (n / 10) ((b'0' + n % 10) ∷ out))

emit_grows : (fuel n c : ℕ) (s : Bytes) → emit fuel n (c ∷ s) ≢ []
unfolding emit
emit_grows zero n c s = λ e. cc
emit_grows (suc fuel) n c s = ground (arith, emit_grows fuel (n / 10) (b'0' + n % 10) (c ∷ s))

pub format-ne-nil : (n : ℕ) → format n ≢ []
unfolding format
format-ne-nil n = ground (arith, emit_grows n (n / 10) (b'0' + n % 10) [])

format-AllDigits : (n : ℕ) → AllDigits (format n)
unfolding format
format-AllDigits n = emit-AllDigits (suc n) n [] tt

digits_Lacks : (c : ℕ) (s : Bytes) → is_digit c ≡ false → AllDigits s → Lacks c s
digits_Lacks c [] h _ = tt
digits_Lacks c (d ∷ s) h (hd, hs) = (λ e. ground arith, digits_Lacks c s h hs)

-- A printed number holds digits alone.
pub format-Lacks : (c n : ℕ) → is_digit c ≡ false → Lacks c (format n)
format-Lacks c n h = digits_Lacks c (format n) h (format-AllDigits n)

lstrip_digits : (s : Bytes) → AllDigits s → lstrip s ≡ s
unfolding lstrip
lstrip_digits [] h = refl
lstrip_digits (c ∷ s) (h, _) = ground arith

keep_digit : (c : ℕ) (s : Bytes) → is_digit c ≡ true → keep_right c s ≡ c ∷ s
keep_digit c [] h = ground arith
keep_digit c (d ∷ s) h = refl

rstrip_digits : (s : Bytes) → AllDigits s → rstrip s ≡ s
unfolding rstrip
rstrip_digits [] h = refl
rstrip_digits (c ∷ s) (h, hs) = rw (rstrip_digits s hs) (keep_digit c s h)

drop_suffix_digits : (s : Bytes) → AllDigits s → drop_suffix s ≡ s
unfolding drop_suffix
drop_suffix_digits [] h = refl
drop_suffix_digits (c ∷ []) (h, _) = ground arith
drop_suffix_digits (c ∷ d ∷ s) (h, hs) = rw (drop_suffix_digits (d ∷ s) hs)

signed_digits :
    (s : Bytes) (n : ℕ) → s ≢ [] → AllDigits s → scan s 0 ≡ some n → signed s ≡ some (pos n)
unfolding signed unsigned digits
signed_digits [] n h _ _ = absurd (h refl)
signed_digits (c ∷ s) n h ds e = ground (arith, lstrip_digits (c ∷ s) ds)

signed-format : (n : ℕ) → signed (format n) ≡ some (pos n)
unfolding format
signed-format n =
    signed_digits _ n (format-ne-nil n) (format-AllDigits n)
      (unfold scan in scan-emit (suc n) n [] (omega arith))

-- `int('%d' % n) == n`
pub to_int-format : (n : ℕ) → to_int (format n) ≡ some (pos n)
unfolding to_int
to_int-format n =
    let ds = format-AllDigits n in
    rw (lstrip_digits (format n) ds, rstrip_digits (format n) ds) (signed-format n)

-- `long('%d' % n) == n`
pub to_long-format : (n : ℕ) → to_long (format n) ≡ some (pos n)
unfolding to_long
to_long-format n =
    let ds = format-AllDigits n in
    rw (lstrip_digits (format n) ds, rstrip_digits (format n) ds, drop_suffix_digits (format n) ds)
      (signed-format n)
