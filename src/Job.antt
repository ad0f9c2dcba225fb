-- ===== src/Job.antt =====
-- powerhose/job.py. `data` is a reserved word here, so the field is `job_data`.
pub mod RoundTrip
pub mod Escaping
use powerhoc.Common.{
  ℕ, Bool, List, [], ◌∷◌, ◌++◌, Option, none, some, Bytes, codes, beq, if◌then◌else◌,
}
use powerhoc.Dict.{Dict, bytes_eq, set}
use powerhoc.Exc.{Result, ok, err, value_error, ◌>>=◌}
use powerhoc.Text.{split, join, replace, strip, partition}

pub record Job : Type 0 where
  pub job_data : Bytes
  pub headers : Dict Bytes Bytes

-- `s.replace(':', '\:')`; in a Python 2 string `'\:'` is two characters.
abbrev pub escape : Bytes → Bytes
escape = replace b':' (codes "\\:")

-- `add_header`
unfoldable pub add_header : Bytes → Bytes → Job → Job
unfolding set
add_header name value job = record job { headers = set (escape name) (escape value) job.headers }

-- the loop of `__init__` over the given headers
unfoldable pub add_headers : List (Bytes × Bytes) → Job → Job
unfolding add_header
add_headers [] job = job
add_headers ((name, value) ∷ items) job = add_headers items (add_header name value job)

-- `__init__`; `none` is the default `headers=None`
unfoldable pub new : Bytes → Option (Dict Bytes Bytes) → Job
unfolding add_headers
new text none = record { job_data = text; headers = [] }
new text (some items) = add_headers items (record { job_data = text; headers = [] })

-- `'%s:%s' % (name, value)`
abbrev pub header_line : Bytes × Bytes → Bytes
header_line (name, value) = name ++ (b':' ∷ value)

abbrev pub header_lines : Dict Bytes Bytes → List Bytes
header_lines [] = []
header_lines (item ∷ items) = header_line item ∷ header_lines items

-- the list that `serialize` joins
unfoldable pub wire_headers : Dict Bytes Bytes → List Bytes
wire_headers [] = codes "NONE" ∷ []
wire_headers (item ∷ items) = header_lines (item ∷ items)

-- `serialize`
unfoldable pub serialize : Job → Bytes
unfolding wire_headers join
serialize job = join (codes "::") (wire_headers job.headers) ++ (codes ":::" ++ job.job_data)

-- `header_data` must have two parts
unfoldable pub header_pair : List Bytes → Result (Bytes × Bytes)
header_pair (name ∷ value ∷ []) = ok (name, value)
header_pair _ = err value_error

-- the loop of `load_from_string`
unfoldable pub load_headers : List Bytes → Dict Bytes Bytes → Result (Dict Bytes Bytes)
unfolding header_pair set split strip
load_headers [] res = ok res
load_headers (header ∷ rest) res = if beq header (codes "NONE") then ok res else do
  (name, value) ← header_pair (split (codes ":") (strip header))
  load_headers rest (set name value res)

-- `load_from_string`
unfoldable pub load_from_string : Bytes → Result Job
unfolding load_headers partition split new
load_from_string wire = elim (partition (codes ":::") wire) [
  | none ↦ err value_error
  | some (before, text) ↦ do
    res ← load_headers (split (codes "::") before) []
    ok (new text (some res))
]
