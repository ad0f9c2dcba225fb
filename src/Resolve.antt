-- ===== src/Resolve.antt =====
-- `resolve_name` of powerhose/util.py.
pub mod Search
use powerhoc.Common.{
  ℕ, zero, suc, ◌-◌, Bool, true, false, List, [], ◌∷◌, Option, none, some, Bytes, codes, length,
  if◌then◌else◌,
}
use powerhoc.Exc.{Exn, Result, ok, err, import_error, ◌>>=◌}
use powerhoc.Text.{contains, split, join}

-- How an import or a `getattr` ends: with an object, with the `ImportError` or the `AttributeError`
-- that the code catches, or with any other exception.
pub data Lookup (Obj : Type 0) : Type 0 where
  found : Obj → Lookup Obj
  missing : Lookup Obj
  raises : Exn → Lookup Obj

-- Python's import system: `import_module` is `__import__`, which returns the top package, `loaded`
-- is `sys.modules[name]` after a successful import, and `attribute` is `getattr`. `S` is what an
-- import changes.
pub record Imports (S Obj : Type 0) : Type 0 where
  pub import_module : Bytes → S → Lookup Obj × S
  pub loaded : Bytes → S → Obj
  pub attribute : Obj → Bytes → S → Lookup Obj

-- `parts[:cursor]`
unfoldable pub take : ℕ → List Bytes → List Bytes
take zero parts = []
take (suc n) [] = []
take (suc n) (part ∷ parts) = part ∷ take n parts

module _ {S Obj : Type 0} (imports : Imports S Obj) where
  -- The `while` loop: the import of the longest prefix of `parts`, at most `cursor` of them. Only an
  -- `ImportError` is passed over.
  unfoldable pub find_module : ℕ → List Bytes → S → Lookup Obj × S
  unfolding take join
  find_module zero parts s = (missing, s)
  find_module (suc cursor) parts s =
      let (ret, s') = imports.import_module (join (codes ".") (take (suc cursor) parts)) s in
      elim ret [
        | found top ↦ (found top, s')
        | missing ↦ find_module cursor parts s'
        | raises e ↦ (raises e, s')
      ]

  -- `for part in parts[1:]: ret = getattr(ret, part)`
  unfoldable pub walk : List Bytes → Obj → S → Result Obj
  walk [] ret s = ok ret
  walk (part ∷ parts) ret s = elim (imports.attribute ret part s) [
    | missing ↦ err (import_error part)
    | raises e ↦ err e
    | found ret' ↦ walk parts ret' s
  ]

  -- What follows the search: `ImportError(parts[0])`, or the walk over `parts[1:]`.
  unfoldable pub after_search : Bytes → List Bytes → Lookup Obj × S → Result Obj × S
  unfolding walk
  after_search part parts (missing, s) = (err (import_error part), s)
  after_search part parts (raises e, s) = (err e, s)
  after_search part parts (found ret, s) = (walk parts ret s, s)

  unfoldable pub resolve_parts : List Bytes → S → Result Obj × S
  unfolding find_module after_search
  resolve_parts [] s = (err (import_error []), s)
  resolve_parts (part ∷ parts) s =
      after_search part parts (find_module (length (part ∷ parts)) (part ∷ parts) s)

  -- `resolve_name`
  unfoldable pub resolve_name : Bytes → S → Result Obj × S
  unfolding contains split resolve_parts
  resolve_name name s =
      if contains (codes ".") name
      then resolve_parts (split (codes ".") name) s
      else (let (ret, s') = imports.import_module name s in
          elim ret [
            | missing ↦ (err (import_error name), s')
            | raises e ↦ (err e, s')
            | found top ↦ (ok (imports.loaded name s'), s')
          ])
