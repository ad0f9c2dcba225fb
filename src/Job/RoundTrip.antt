-- ===== src/Job/RoundTrip.antt =====
-- A serialized job is loaded back, when its headers hold nothing that the wire format uses.
use powerhoc.Common.{
  ℕ, [], ◌∷◌, ◌++◌, append_assoc, append-nil, some, Bytes, codes, All, Lacks, beq, ◌≡◌, ◌≢◌, refl,
  ◌∙◌, arith, false,
}
use powerhoc.Dict.{Dict, Distinct, bytes_eq, set, set_all, set_all-append}
use powerhoc.Exc.{ok, ◌>>=◌}
use powerhoc.Text.{strip_prefix, split, join, strip, lstrip, rstrip}
use powerhoc.Text.Laws.{
  NoneInside, NoneInside-append, Lacks-NoneInside, partition-append, split-join,
}
use powerhoc.Text.Strip.{strip-append, replace_absent}
use powerhoc.Job.{
  Job, add_headers, new, header_line, header_lines, serialize, load_headers, load_from_string,
}

-- Neither part is empty or holds a colon; no blank stands before the name or behind the value.
pub record IsSafeHeader (item : Bytes × Bytes) : Type 0 where
  pub name_lacks : Lacks b':' item.0
  pub value_lacks : Lacks b':' item.1
  pub name_ne_nil : item.0 ≢ []
  pub value_ne_nil : item.1 ≢ []
  pub name_trimmed : lstrip item.0 ≡ item.0
  pub value_trimmed : rstrip item.1 ≡ item.1

pub record IsWireSafe (job : Job) : Type 0 where
  pub safe : All IsSafeHeader job.headers
  pub distinct : Distinct job.headers

-- The text begins with a byte that is no colon.
abbrev pub HeadLacks : Bytes → Type 0
HeadLacks [] = ⊥
HeadLacks (c ∷ p) = c ≢ b':'

pub head_lacks : (n p : Bytes) → n ≢ [] → Lacks b':' n → HeadLacks (n ++ p)
head_lacks [] p h _ = absurd (h refl)
head_lacks (c ∷ n) p h (l, _) = l

module _ (bs : Bytes) where
  pub one_colon :
      (p : Bytes)
      → HeadLacks p
      → NoneInside (b':' ∷ b':' ∷ bs) p
      → NoneInside (b':' ∷ b':' ∷ bs) (b':' ∷ p)
  unfolding strip_prefix
  one_colon [] h k = absurd h
  one_colon (c ∷ p) h k = (λ r. ground arith, k)

  -- A header's line, with what follows it.
  line-NoneInside :
      (n v p : Bytes)
      → IsSafeHeader (n, v)
      → NoneInside (b':' ∷ b':' ∷ bs) p
      → NoneInside (b':' ∷ b':' ∷ bs) (n ++ (b':' ∷ (v ++ p)))
  line-NoneInside n v p s k = NoneInside-append b':' (b':' ∷ bs) n (b':' ∷ (v ++ p)) s.name_lacks (
      one_colon (v ++ p) (head_lacks v p s.value_ne_nil s.value_lacks)
        (NoneInside-append b':' (b':' ∷ bs) v p s.value_lacks k))

two_colons :
    (p : Bytes)
    → HeadLacks p
    → NoneInside (codes ":::") p
    → NoneInside (codes ":::") (codes "::" ++ p)
unfolding strip_prefix
two_colons [] h k = absurd h
two_colons (c ∷ p) h k = (λ r. ground arith, (λ r. ground arith, k))

line_alone :
    (bs n v : Bytes) → IsSafeHeader (n, v) → NoneInside (b':' ∷ b':' ∷ bs) (header_line (n, v))
line_alone bs n v s = rw append-nil at (
    let whole : NoneInside (b':' ∷ b':' ∷ bs) (n ++ (b':' ∷ (v ++ []))) =
      line-NoneInside bs n v [] s tt in
    whole)

lines-NoneInside :
    (items : Dict Bytes Bytes)
    → All IsSafeHeader items
    → All (NoneInside (codes "::")) (header_lines items)
lines-NoneInside [] h = tt
lines-NoneInside ((n, v) ∷ items) (s, h) = (line_alone [] n v s, lines-NoneInside items h)

joined_head :
    (n v : Bytes) (items : Dict Bytes Bytes)
    → IsSafeHeader (n, v)
    → HeadLacks (join (codes "::") (header_lines ((n, v) ∷ items)))
unfolding join
joined_head n v [] s = head_lacks n (b':' ∷ v) s.name_ne_nil s.name_lacks
joined_head n v (item ∷ items) s =
    rw (append_assoc n (b':' ∷ v)) (head_lacks n _ s.name_ne_nil s.name_lacks)

-- The joined header lines hold no `:::`, also where the `:::` of the wire follows.
joined-NoneInside :
    (item : Bytes × Bytes) (items : Dict Bytes Bytes)
    → All IsSafeHeader (item ∷ items)
    → NoneInside (codes ":::") (join (codes "::") (header_lines (item ∷ items)))
unfolding join
joined-NoneInside (n, v) [] (s, _) = line_alone (codes ":") n v s
joined-NoneInside (n, v) ((m, w) ∷ items) (s, h) = rw (append_assoc n (b':' ∷ v)) (
    line-NoneInside (codes ":") n v _ s
      (two_colons _ (joined_head m w items h.0) (joined-NoneInside (m, w) items h)))

header_split :
    (n v : Bytes)
    → IsSafeHeader (n, v)
    → split (codes ":") (strip (header_line (n, v))) ≡ n ∷ v ∷ []
unfolding join
header_split n v s =
    rw (strip-append n (codes ":") v s.name_ne_nil s.value_ne_nil s.name_trimmed s.value_trimmed) (
      split-join b':' [] n (v ∷ [])
        (Lacks-NoneInside b':' [] n s.name_lacks, (Lacks-NoneInside b':' [] v s.value_lacks, tt)))

pub beq-Lacks : (c : ℕ) (n v t : Bytes) → Lacks c t → beq (n ++ (c ∷ v)) t ≡ false
beq-Lacks c [] v [] h = refl
beq-Lacks c (d ∷ n) v [] h = refl
beq-Lacks c [] v (e ∷ t) (h, _) = ground arith
beq-Lacks c (d ∷ n) v (e ∷ t) (_, h) = ground (arith, beq-Lacks c n v t h)

-- A line with a colon is not the word for no headers.
pub line-ne-none : (n v : Bytes) → beq (header_line (n, v)) (codes "NONE") ≡ false
line-ne-none n v = beq-Lacks b':' n v (codes "NONE") (omega arith)

load_headers-lines :
    (items res : Dict Bytes Bytes)
    → All IsSafeHeader items
    → load_headers (header_lines items) res ≡ ok (set_all items res)
unfolding load_headers set_all
load_headers-lines [] res h = refl
load_headers-lines ((n, v) ∷ items) res (s, h) =
    rw (line-ne-none n v, header_split n v s) (load_headers-lines items (set n v res) h)

add_headers-safe :
    (items : Dict Bytes Bytes) (job : Job)
    → All IsSafeHeader items
    → add_headers items job ≡ record job { headers = set_all items job.headers }
unfolding add_headers set_all
add_headers-safe [] job h = refl
add_headers-safe ((n, v) ∷ items) job (s, h) =
    rw
      (
        replace_absent b':' (codes "\\:") n s.name_lacks,
        replace_absent b':' (codes "\\:") v s.value_lacks,
      )
      (add_headers-safe items _ h)

pub load_wire :
    (text : Bytes) (before : Bytes)
    → NoneInside (codes ":::") before
    → load_from_string (before ++ (codes ":::" ++ text))
      ≡ (load_headers (split (codes "::") before) [] >>= λ res. ok (new text (some res)))
unfolding load_from_string
load_wire text before h = rw (partition-append b':' (codes "::") before text h, load_from_string)

rebuilt :
    (text : Bytes) (items : Dict Bytes Bytes)
    → All IsSafeHeader items
    → Distinct items
    → ok (new text (some (set_all items []))) ≡ ok (record { job_data = text; headers = items })
unfolding new
rebuilt text items h d =
    rw (set_all-append items [] d, add_headers-safe items _ h, set_all-append items [] d)

load-serialize_items :
    (text : Bytes) (items : Dict Bytes Bytes)
    → All IsSafeHeader items
    → Distinct items
    → load_from_string (serialize (record { job_data = text; headers = items }))
      ≡ ok (record { job_data = text; headers = items })
unfolding serialize
load-serialize_items text [] h d =
    load_wire text (codes "NONE") (Lacks-NoneInside b':' (codes "::") (codes "NONE") (omega arith))
    ∙ (unfold split load_headers new in refl)
load-serialize_items text (item ∷ items) h d =
    load_wire text _ (joined-NoneInside item items h)
    ∙ rw
        (
          split-join b':' (codes ":") (header_line item) (header_lines items)
              (lines-NoneInside (item ∷ items) h),
          load_headers-lines (item ∷ items) [] h,
        )
        (rebuilt text (item ∷ items) h d)

-- Loading what a job serializes to gives the job, whatever its data, if its headers are safe.
pub load-serialize : (job : Job) → IsWireSafe job → load_from_string (serialize job) ≡ ok job
load-serialize job s = load-serialize_items job.job_data job.headers s.safe s.distinct
