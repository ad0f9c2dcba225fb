-- ===== src/Text/Strip.antt =====
-- Laws of `strip` and `replace`.
use powerhoc.Common.{
  ℕ, ◌≤◌, ◌≡◌, ◌≢◌, refl, true, [], ◌∷◌, ◌++◌, Bytes, Lacks, arith, length, ap, append_assoc, inl,
  inr, Bool-cases,
}
use powerhoc.Text.{is_space, lstrip, keep_right, rstrip, strip, replace}

length-lstrip : (s : Bytes) → length (lstrip s) ≤ length s
unfolding lstrip
length-lstrip [] = omega arith
length-lstrip (c ∷ s) = ground (arith, length-lstrip s)

-- A text with no space in front keeps its front when more is joined to it.
pub lstrip-append : (n p : Bytes) → n ≢ [] → lstrip n ≡ n → lstrip (n ++ p) ≡ n ++ p
unfolding lstrip
lstrip-append [] p h e = absurd (h refl)
lstrip-append (c ∷ n) p h e = elim (Bool-cases (is_space c)) [
  | inl space ↦ absurd (omega (arith, length-lstrip n, ap length (shorter space)))
  | inr solid ↦ rw solid
]
  where
    shorter : is_space c ≡ true → lstrip n ≡ c ∷ n
    shorter space = rw space at e

keep_right-append : (c : ℕ) (p v : Bytes) → v ≢ [] → keep_right c (p ++ v) ≡ c ∷ (p ++ v)
keep_right-append c [] [] h = absurd (h refl)
keep_right-append c [] (d ∷ v) h = refl
keep_right-append c (d ∷ p) v h = refl

pub rstrip-append : (p v : Bytes) → v ≢ [] → rstrip v ≡ v → rstrip (p ++ v) ≡ p ++ v
unfolding rstrip
rstrip-append [] v h e = e
rstrip-append (c ∷ p) v h e = rw (rstrip-append p v h e) (keep_right-append c p v h)

-- Text between a start and an end that are not blank is left alone.
pub strip-append :
    (n m v : Bytes)
    → n ≢ []
    → v ≢ []
    → lstrip n ≡ n
    → rstrip v ≡ v
    → strip (n ++ (m ++ v)) ≡ n ++ (m ++ v)
unfolding strip
strip-append n m v hn hv en ev =
    rw (lstrip-append n (m ++ v) hn en, ← append_assoc n m v) (rstrip-append (n ++ m) v hv ev)

pub replace_absent : (c : ℕ) (new s : Bytes) → Lacks c s → replace c new s ≡ s
unfolding replace
replace_absent c new [] h = refl
replace_absent c new (d ∷ s) (h, hs) = ground (arith, replace_absent c new s hs)

pub replace-append :
    (c : ℕ) (new s t : Bytes) → replace c new (s ++ t) ≡ replace c new s ++ replace c new t
unfolding replace
replace-append c new [] t = refl
replace-append c new (d ∷ s) t = simp (replace-append c new s t, append_assoc)
