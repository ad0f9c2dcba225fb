-- ===== src/Dict.antt =====
-- Python's `dict`, as the list of its items in the order in which `items()` gives them.
-- Python 2 promises no order: a statement about every list of items is one about every order.
use powerhoc.Common.{
  Bool, true, List, [], ◌∷◌, ◌++◌, append_assoc, Option, none, some, ◌≡◌, ◌≢◌, ◌↔◌, ◌∙◌, refl, sym,
  append-nil, arith, Bytes, beq, beq_iff, All, if◌then◌else◌,
}

pub record Eq {ℓ} (K : Type ℓ) : Type ℓ where
  pub same : K → K → Bool
  pub same_iff : (a b : K) → (same a b ≡ true) ↔ (a ≡ b)

instance abbrev pub bytes_eq : Eq Bytes
bytes_eq = record { same = beq; same_iff = beq_iff }

abbrev pub Dict {ℓ κ} : Type ℓ → Type κ → Type (ℓ ⊔ κ)
Dict K V = List (K × V)

module _ {ℓ κ} {K : Type ℓ} {V : Type κ} ⦃e : Eq K⦄ where
  -- `d[k]`; `none` where Python raises `KeyError`
  unfoldable pub get : K → Dict K V → Option V
  get k [] = none
  get k ((j, v) ∷ d) = if e.same j k then some v else get k d

  -- `d[k] = v`
  unfoldable pub set : K → V → Dict K V → Dict K V
  set k v [] = (k, v) ∷ []
  set k v ((j, w) ∷ d) = if e.same j k then (j, v) ∷ d else (j, w) ∷ set k v d

  -- `for k, v in items: d[k] = v`
  unfoldable pub set_all : List (K × V) → Dict K V → Dict K V
  unfolding set
  set_all [] d = d
  set_all ((k, v) ∷ items) d = set_all items (set k v d)

module _ {ℓ κ} {K : Type ℓ} {V : Type κ} where
  abbrev pub Absent : K → Dict K V → Type ℓ
  Absent k = All (λ item. item.0 ≢ k)

  -- What every dict satisfies: no key stands twice.
  abbrev pub Distinct : Dict K V → Type ℓ
  Distinct [] = Unit
  Distinct ((k, v) ∷ d) = Absent k d × Distinct d

module _ {ℓ κ} {K : Type ℓ} {V : Type κ} ⦃e : Eq K⦄ where
  pub get-set :
      (k j : K) (v : V) (d : Dict K V)
      → get j (set k v d) ≡ (if e.same k j then some v else get j d)
  unfolding get set
  get-set k j v [] = refl
  get-set k j v ((i, w) ∷ d) =
      ground (arith, e.same_iff k j, e.same_iff i k, e.same_iff i j, get-set k j v d)

  pub set-Absent : (k : K) (v : V) (d : Dict K V) → Absent k d → set k v d ≡ d ++ (k, v) ∷ []
  unfolding set
  set-Absent k v [] h = refl
  set-Absent k v ((j, w) ∷ d) (h, hs) = ground (arith, e.same_iff j k, set-Absent k v d hs)

  Absent-set : (k j : K) (v : V) (d : Dict K V) → k ≢ j → Absent j d → Absent j (set k v d)
  unfolding set
  Absent-set k j v [] h _ = (h, tt)
  Absent-set k j v ((i, w) ∷ d) h (a, rest) = ground (arith, Absent-set k j v d h rest)

  -- An assignment never makes a key stand twice.
  pub set-Distinct : (k : K) (v : V) (d : Dict K V) → Distinct d → Distinct (set k v d)
  unfolding set
  set-Distinct k v [] _ = (tt, tt)
  set-Distinct k v ((j, w) ∷ d) (a, ds) =
      ground (arith, e.same_iff j k, Absent-set k j v d, set-Distinct k v d ds)

  pub set_all-Distinct : (items d : Dict K V) → Distinct d → Distinct (set_all items d)
  unfolding set_all
  set_all-Distinct [] d h = h
  set_all-Distinct ((k, v) ∷ items) d h = set_all-Distinct items (set k v d) (set-Distinct k v d h)

  middle :
      (P : K × V → Type ℓ) (d items : Dict K V) (k : K) (v : V)
      → All P (d ++ (k, v) ∷ items)
      → P (k, v)
  middle P [] items k v h = h.0
  middle P (x ∷ d) items k v h = middle P d items k v h.1

  Distinct-Absent :
      (d items : Dict K V) (k : K) (v : V) → Distinct (d ++ (k, v) ∷ items) → Absent k d
  Distinct-Absent [] items k v h = tt
  Distinct-Absent ((j, w) ∷ d) items k v (a, h) =
      (λ q. middle (λ item. item.0 ≢ j) d items k v a (sym q), Distinct-Absent d items k v h)

  -- Filling a dict with further items, key by key, appends them.
  pub set_all-append : (items d : Dict K V) → Distinct (d ++ items) → set_all items d ≡ d ++ items
  unfolding set_all
  set_all-append [] d h = sym (append-nil d)
  set_all-append ((k, v) ∷ items) d h = rw (set-Absent k v d (Distinct-Absent d items k v h)) (
      set_all-append items (d ++ (k, v) ∷ []) (rw (append_assoc d ((k, v) ∷ []) items) h)
      ∙ append_assoc d ((k, v) ∷ []) items)
