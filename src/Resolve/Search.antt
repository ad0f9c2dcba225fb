-- ===== src/Resolve/Search.antt =====
-- Which prefix of a dotted name is imported, and what is returned for it.
use powerhoc.Common.{ℕ, zero, suc, true, List, ◌∷◌, Bytes, codes, length, ◌≡◌, refl, ap}
use powerhoc.Exc.{Exn, Result, err, import_error}
use powerhoc.Resolve.{
  Lookup, found, missing, raises, Imports, take, find_module, walk, after_search, resolve_parts,
  resolve_name,
}
use powerhoc.Text.{contains, split, join}
use powerhoc.Text.Laws.{split-cons}

module _ {S Obj : Type 0} (imports : Imports S Obj) (parts : List Bytes) where
  -- The import of the first `n` parts.
  abbrev pub attempt : ℕ → S → Lookup Obj × S
  attempt n = imports.import_module (join (codes ".") (take n parts))

  -- All imports of `cursor` parts down to more than `n` fail, one after the other, and leave `t`.
  pub data Failing (n : ℕ) : ℕ → S → S → Type 0 where
    reached : {s : S} → Failing n n s s
    shorter :
        {cursor : ℕ} {s t : S}
        → (attempt (suc cursor) s).0 ≡ missing
        → Failing n cursor (attempt (suc cursor) s).1 t
        → Failing n (suc cursor) s t

  -- How the search ends.
  pub data Found (cursor : ℕ) (s : S) (r : Lookup Obj × S) : Type 0 where
    longest :
        (n : ℕ) (t : S) (ret : Obj)
        → Failing (suc n) cursor s t
        → (attempt (suc n) t).0 ≡ found ret
        → r ≡ (found ret, (attempt (suc n) t).1)
        → Found cursor s r
    broken :
        (n : ℕ) (t : S) (x : Exn)
        → Failing (suc n) cursor s t
        → (attempt (suc n) t).0 ≡ raises x
        → r ≡ (raises x, (attempt (suc n) t).1)
        → Found cursor s r
    nothing : (t : S) → Failing 0 cursor s t → r ≡ (missing, t) → Found cursor s r

  search_step :
      (cursor : ℕ) (s : S) (o : Lookup Obj)
      → (attempt (suc cursor) s).0 ≡ o
      → Found cursor
          (attempt (suc cursor) s).1
          (find_module imports cursor parts (attempt (suc cursor) s).1)
      → Found (suc cursor) s (find_module imports (suc cursor) parts s)
  unfolding find_module
  search_step cursor s (found ret) e f = longest cursor s ret reached e (rw (e, find_module))
  search_step cursor s (raises x) e f = broken cursor s x reached e (rw (e, find_module))
  search_step cursor s missing e (broken n t x g h q) =
      broken n t x (shorter e g) h (rw (e, find_module) q)
  search_step cursor s missing e (longest n t ret g h q) =
      longest n t ret (shorter e g) h (rw (e, find_module) q)
  search_step cursor s missing e (nothing t g q) = nothing t (shorter e g) (rw (e, find_module) q)

  -- The search imports prefixes from the longest on, until one does not raise an `ImportError` or none
  -- is left.
  pub find_module-Found : (cursor : ℕ) (s : S) → Found cursor s (find_module imports cursor parts s)
  find_module-Found zero s = nothing s reached (unfold find_module in refl)
  find_module-Found (suc cursor) s =
      search_step cursor s _ refl (find_module-Found cursor (attempt (suc cursor) s).1)

-- How the resolution of a name with a dot ends.
pub data Resolution {S Obj : Type 0} (imports : Imports S Obj) (part : Bytes) (rest : List Bytes)
    (s : S) (r : Result Obj × S) : Type 0 where
  no_module :
      (t : S)
      → Failing imports (part ∷ rest) 0 (length (part ∷ rest)) s t
      → r ≡ (err (import_error part), t)
      → Resolution imports part rest s r
  module_found :
      (n : ℕ) (t u : S) (ret : Obj)
      → Failing imports (part ∷ rest) (suc n) (length (part ∷ rest)) s t
      → attempt imports (part ∷ rest) (suc n) t ≡ (found ret, u)
      → r ≡ (walk imports rest ret u, u)
      → Resolution imports part rest s r
  import_raised :
      (n : ℕ) (t u : S) (x : Exn)
      → Failing imports (part ∷ rest) (suc n) (length (part ∷ rest)) s t
      → attempt imports (part ∷ rest) (suc n) t ≡ (raises x, u)
      → r ≡ (err x, u)
      → Resolution imports part rest s r

module _ {S Obj : Type 0} (imports : Imports S Obj) where
  resolve_parts_end :
      (part : Bytes) (rest : List Bytes) (s : S)
      → Found imports
          (part ∷ rest)
          (length (part ∷ rest))
          s
          (find_module imports (length (part ∷ rest)) (part ∷ rest) s)
      → Resolution imports part rest s (resolve_parts imports (part ∷ rest) s)
  unfolding resolve_parts
  resolve_parts_end part rest s (longest n t ret f e q) =
      module_found n t _ ret f (λ i. (e i, (attempt imports (part ∷ rest) (suc n) t).1))
        (ap (after_search imports part rest) q)
  resolve_parts_end part rest s (broken n t x f e q) =
      import_raised n t _ x f (λ i. (e i, (attempt imports (part ∷ rest) (suc n) t).1))
        (ap (after_search imports part rest) q)
  resolve_parts_end part rest s (nothing t f q) =
      no_module t f (ap (after_search imports part rest) q)

  -- A name with a dot: its prefixes are imported from the longest on, as long as there is an
  -- `ImportError`. If all end so, the result is an `ImportError` of the first part; if one raises
  -- another exception, it is that exception, and no shorter prefix is tried; otherwise it is the walk
  -- over the attributes that the later parts name, from what the first import that succeeds returned.
  pub resolve_name-Resolution :
      (name : Bytes) (s : S)
      → contains (codes ".") name ≡ true
      → (part : Bytes) × (rest : List Bytes) × (split (codes ".") name ≡ part ∷ rest)
        × Resolution imports part rest s (resolve_name imports name s)
  unfolding resolve_name
  resolve_name-Resolution name s dotted =
      let (part, rest, e) = split-cons (codes ".") name in
      (
        part,
        rest,
        e,
        rw (dotted, e)
            (resolve_parts_end part rest s (find_module-Found imports (part ∷ rest) _ s)),
      )
