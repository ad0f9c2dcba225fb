-- ===== src/Text/Laws.antt =====
-- Laws of the string functions: what a cut means, and when a join is cut back into its parts.
use powerhoc.Common.{
  ℕ, zero, suc, ◌≤◌, ◌≡◌, ◌≢◌, ◌∙◌, ◌⊎◌, refl, sym, List, [], ◌∷◌, ◌++◌, Option, none, some, Bytes,
  All, Lacks, arith, length, length-append, inl, inr, Option-cases,
}
use powerhoc.Text.{strip_prefix, partition, here_or, cons_before, split_max, split, join}

pub strip_prefix-append : (sep r : Bytes) → strip_prefix sep (sep ++ r) ≡ some r
unfolding strip_prefix
strip_prefix-append [] r = refl
strip_prefix-append (c ∷ sep) r = ground (arith, strip_prefix-append sep r)

pub strip_prefix_sound : (sep s r : Bytes) → strip_prefix sep s ≡ some r → s ≡ sep ++ r
unfolding strip_prefix
strip_prefix_sound [] s r h = ground arith
strip_prefix_sound (c ∷ sep) [] r h = cc
strip_prefix_sound (c ∷ sep) (d ∷ s) r h = ground (arith, strip_prefix_sound sep s r)

-- A prefix stays one when the text grows behind it.
strip_prefix_grow :
    (sep s r t : Bytes) → strip_prefix sep s ≡ some r → strip_prefix sep (s ++ t) ≡ some (r ++ t)
unfolding strip_prefix
strip_prefix_grow [] s r t h = ground arith
strip_prefix_grow (c ∷ sep) [] r t h = cc
strip_prefix_grow (c ∷ sep) (d ∷ s) r t h = ground (arith, strip_prefix_grow sep s r t)

partition_here :
    (sep s : Bytes) (o : Option Bytes) (later : Option (Bytes × Bytes)) (before after : Bytes)
    → strip_prefix sep s ≡ o
    → ((b a : Bytes) → later ≡ some (b, a) → s ≡ b ++ (sep ++ a))
    → here_or o later ≡ some (before, after)
    → s ≡ before ++ (sep ++ after)
partition_here sep s none later before after e k h = k before after h
partition_here sep s (some r) later before after e k h =
    ground (arith, strip_prefix_sound sep s r e)

cons_before_sound :
    (sep s : Bytes) (c : ℕ) (o : Option (Bytes × Bytes)) (before after : Bytes)
    → ((b a : Bytes) → o ≡ some (b, a) → s ≡ b ++ (sep ++ a))
    → cons_before c o ≡ some (before, after)
    → c ∷ s ≡ before ++ (sep ++ after)
cons_before_sound sep s c none before after k h = cc
cons_before_sound sep s c (some (b, a)) before after k h = ground (arith, k b a refl)

-- A cut is a place where the separator stands.
pub partition_sound :
    (sep s before after : Bytes)
    → partition sep s ≡ some (before, after)
    → s ≡ before ++ (sep ++ after)
unfolding partition
partition_sound sep [] before after h = cc
partition_sound sep (c ∷ s) before after h =
    partition_here sep (c ∷ s) _ _ before after refl
      (λ b a. cons_before_sound sep s c (partition sep s) b a (partition_sound sep s)) h

-- No separator begins inside `p` when the separator follows `p`.
abbrev pub NoneInside : Bytes → Bytes → Type 0
NoneInside sep [] = Unit
NoneInside sep (c ∷ p) =
    ((r : Bytes) → strip_prefix sep (c ∷ (p ++ (sep ++ r))) ≡ none) × NoneInside sep p

-- A separator of at least one byte.
module _ (b : ℕ) (bs : Bytes) where
  -- The first cut is behind such a part.
  pub partition-append :
      (p r : Bytes)
      → NoneInside (b ∷ bs) p
      → partition (b ∷ bs) (p ++ ((b ∷ bs) ++ r)) ≡ some (p, r)
  unfolding partition
  partition-append [] r h = rw (strip_prefix-append (b ∷ bs) r)
  partition-append (c ∷ p) r (h, hs) = rw (h r, partition-append p r hs)

  no_prefix :
      (p : Bytes)
      → ((r : Bytes) → strip_prefix (b ∷ bs) (p ++ ((b ∷ bs) ++ r)) ≡ none)
      → strip_prefix (b ∷ bs) p ≡ none
  no_prefix p h = elim (Option-cases (strip_prefix (b ∷ bs) p)) [
    | inl e ↦ e
    | inr (r, e) ↦ let grown = strip_prefix_grow (b ∷ bs) p r ((b ∷ bs) ++ []) e in cc (h [], grown)
  ]

  -- There is no cut in such a part alone.
  pub partition-none : (p : Bytes) → NoneInside (b ∷ bs) p → partition (b ∷ bs) p ≡ none
  unfolding partition
  partition-none [] h = refl
  partition-none (c ∷ p) (h, hs) = rw (no_prefix (c ∷ p) h, partition-none p hs)

  pub split_max_none : (n : ℕ) (p : Bytes) → NoneInside (b ∷ bs) p → split_max n (b ∷ bs) p ≡ p ∷ []
  unfolding split_max
  split_max_none zero p h = refl
  split_max_none (suc n) p h = rw (partition-none p h, split_max)

  pub split_max-append :
      (n : ℕ) (p r : Bytes)
      → NoneInside (b ∷ bs) p
      → split_max (suc n) (b ∷ bs) (p ++ ((b ∷ bs) ++ r)) ≡ p ∷ split_max n (b ∷ bs) r
  unfolding split_max
  split_max-append n p r h = rw (partition-append p r h, split_max)

  -- With cuts enough, a join is cut back into its parts.
  pub split_max-join :
      (n : ℕ) (p : Bytes) (ps : List Bytes)
      → All (NoneInside (b ∷ bs)) (p ∷ ps)
      → length ps ≤ n
      → split_max n (b ∷ bs) (join (b ∷ bs) (p ∷ ps)) ≡ p ∷ ps
  unfolding join
  split_max-join n p [] (h, _) le = split_max_none n p h
  split_max-join zero p (q ∷ ps) (h, hs) le = absurd (omega arith)
  split_max-join (suc n) p (q ∷ ps) (h, hs) le =
      rw (split_max-append n p (join (b ∷ bs) (q ∷ ps)) h, split_max-join n q ps hs (omega arith))

  length-join : (p : Bytes) (ps : List Bytes) → length ps ≤ length (join (b ∷ bs) (p ∷ ps))
  unfolding join
  length-join p [] = omega arith
  length-join p (q ∷ ps) = omega (
    arith,
    length-append p ((b ∷ bs) ++ join (b ∷ bs) (q ∷ ps)),
    length-append bs (join (b ∷ bs) (q ∷ ps)),
    length-join q ps,
  )

  -- `sep.join(parts).split(sep) == parts`, for one part at least, if no separator begins inside one.
  pub split-join :
      (p : Bytes) (ps : List Bytes)
      → All (NoneInside (b ∷ bs)) (p ∷ ps)
      → split (b ∷ bs) (join (b ∷ bs) (p ∷ ps)) ≡ p ∷ ps
  unfolding split
  split-join p ps h = split_max-join _ p ps h (length-join p ps)

-- A part without the separator's first byte.
pub Lacks-NoneInside : (b : ℕ) (bs p : Bytes) → Lacks b p → NoneInside (b ∷ bs) p
unfolding strip_prefix
Lacks-NoneInside b bs [] h = tt
Lacks-NoneInside b bs (c ∷ p) (h, hs) = (λ r. ground arith, Lacks-NoneInside b bs p hs)

-- A separator of several bytes begins with `b`: a part grows by other bytes in front.
pub NoneInside-append :
    (b : ℕ) (bs n p : Bytes) → Lacks b n → NoneInside (b ∷ bs) p → NoneInside (b ∷ bs) (n ++ p)
unfolding strip_prefix
NoneInside-append b bs [] p h k = k
NoneInside-append b bs (c ∷ n) p (h, hs) k = (λ r. ground arith, NoneInside-append b bs n p hs k)

cut_cases :
    (n : ℕ) (sep s : Bytes)
    → ((partition sep s ≡ none) × (split_max (suc n) sep s ≡ s ∷ []))
      ⊎ ((b : Bytes) × (a : Bytes) × (partition sep s ≡ some (b, a))
          × (split_max (suc n) sep s ≡ b ∷ split_max n sep a))
cut_cases n sep s = go (partition sep s) refl
  where
    go :
        (o : Option (Bytes × Bytes))
        → partition sep s ≡ o
        → ((partition sep s ≡ none) × (split_max (suc n) sep s ≡ s ∷ []))
          ⊎ ((b : Bytes) × (a : Bytes) × (partition sep s ≡ some (b, a))
              × (split_max (suc n) sep s ≡ b ∷ split_max n sep a))
    go none e = inl (e, unfold split_max in rw (e, split_max))
    go (some (b, a)) e = inr (b, a, e, unfold split_max in rw (e, split_max))

split_max-cons :
    (n : ℕ) (sep s : Bytes) → (q : Bytes) × (qs : List Bytes) × (split_max n sep s ≡ q ∷ qs)
split_max-cons zero sep s = (s, [], unfold split_max in refl)
split_max-cons (suc n) sep s = elim (cut_cases n sep s) [
  | inl (_, e) ↦ (s, [], e)
  | inr (b, a, _, e) ↦ (b, split_max n sep a, e)
]

join-cons :
    (sep b s : Bytes) (ps : List Bytes)
    → ((q : Bytes) × (qs : List Bytes) × (ps ≡ q ∷ qs))
    → join sep ps ≡ s
    → join sep (b ∷ ps) ≡ b ++ (sep ++ s)
unfolding join
join-cons sep b s ps (q, qs, e) h = rw (← h, e)

-- Cutting loses nothing, whatever the bound.
pub join-split_max : (n : ℕ) (sep s : Bytes) → join sep (split_max n sep s) ≡ s
join-split_max zero sep s = unfold split_max join in refl
join-split_max (suc n) sep s = elim (cut_cases n sep s) [
  | inl (_, e) ↦ rw e (unfold join in refl)
  | inr (b, a, p, e) ↦ rw e (
      join-cons sep b a _ (split_max-cons n sep a) (join-split_max n sep a)
      ∙ sym (partition_sound sep s b a p))
]

pub join-split : (sep s : Bytes) → join sep (split sep s) ≡ s
unfolding split
join-split sep s = join-split_max (length s) sep s

pub split-cons : (sep s : Bytes) → (q : Bytes) × (qs : List Bytes) × (split sep s ≡ q ∷ qs)
unfolding split
split-cons sep s = split_max-cons (length s) sep s

pub split-ne-nil : (sep s : Bytes) → split sep s ≢ []
split-ne-nil sep s = let (q, qs, e) = split-cons sep s in λ h. cc (e, h)
