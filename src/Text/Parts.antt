-- ===== src/Text/Parts.antt =====
-- What the parts of a cut at one byte look like.
use powerhoc.Common.{
  ℕ, zero, suc, ◌+◌, ◌≤◌, ◌≡◌, ap, [], ◌∷◌, Option, none, some, Bytes, All, Lacks, arith, length,
  length-append, inl, inr, Option-cases, Bool-cases, ◌==◌,
}
use powerhoc.Text.{strip_prefix, partition, here_or, cons_before, split_max, split}
use powerhoc.Text.Laws.{partition_sound}

module _ (b : ℕ) where
  -- What `partition` finds: the part in front of the first `b`.
  abbrev BeforeLacks : Option (Bytes × Bytes) → Bytes → Type 0
  BeforeLacks none s = Lacks b s
  BeforeLacks (some (p, r)) s = Lacks b p

  before_cons :
      (c : ℕ) (s : Bytes) (o : Option (Bytes × Bytes))
      → BeforeLacks o s
      → BeforeLacks (here_or (strip_prefix (b ∷ []) (c ∷ s)) (cons_before c o)) (c ∷ s)
  unfolding strip_prefix
  before_cons c s none h = elim (Bool-cases (b == c)) [
    | inl e ↦ rw e tt
    | inr e ↦ rw e ((λ q. ground arith), h)
  ]
  before_cons c s (some (p, r)) h = elim (Bool-cases (b == c)) [
    | inl e ↦ rw e tt
    | inr e ↦ rw e ((λ q. ground arith), h)
  ]

  partition-BeforeLacks : (s : Bytes) → BeforeLacks (partition (b ∷ []) s) s
  unfolding partition
  partition-BeforeLacks [] = tt
  partition-BeforeLacks (c ∷ s) = before_cons c s _ (partition-BeforeLacks s)

  cut_shorter : (s p r : Bytes) → partition (b ∷ []) s ≡ some (p, r) → length r + 1 ≤ length s
  cut_shorter s p r e =
      omega (arith, ap length (partition_sound (b ∷ []) s p r e), length-append p (b ∷ r))

  -- No part holds the separator.
  pub split_max-Lacks : (n : ℕ) (s : Bytes) → length s ≤ n → All (Lacks b) (split_max n (b ∷ []) s)
  unfolding split_max
  split_max-Lacks zero [] h = (tt, tt)
  split_max-Lacks zero (c ∷ s) h = absurd (omega arith)
  split_max-Lacks (suc n) s h = elim (Option-cases (partition (b ∷ []) s)) [
    | inl e ↦ rw (e, split_max) ((rw e at (partition-BeforeLacks s)), tt)
    | inr ((p, r), e) ↦
        rw (e, split_max)
          (
            (rw e at (partition-BeforeLacks s)),
            split_max-Lacks n r (omega (arith, cut_shorter s p r e)),
          )
  ]

  pub split-Lacks : (s : Bytes) → All (Lacks b) (split (b ∷ []) s)
  unfolding split
  split-Lacks s = split_max-Lacks (length s) s (omega arith)
