-- ===== src/Job/Escaping.antt =====
-- Header values with a colon: `add_header` escapes it and `load_from_string` does not know of that.
use mathlib.Core.List.{concat-ne-nil}
use powerhoc.Common.{
  [], ◌∷◌, ◌++◌, append_assoc, append-nil, none, Bytes, codes, Lacks, All-append, ◌≡◌, ◌≢◌, ◌∙◌,
  refl, arith,
}
use powerhoc.Dict.{bytes_eq}
use powerhoc.Exc.{ok, err, value_error}
use powerhoc.Text.{split, join, replace, strip, lstrip, rstrip}
use powerhoc.Text.Laws.{NoneInside, NoneInside-append, Lacks-NoneInside, split-join}
use powerhoc.Text.Strip.{replace_absent, replace-append, rstrip-append, strip-append}
use powerhoc.Job.RoundTrip.{
  IsSafeHeader, load-serialize, load_wire, HeadLacks, one_colon, head_lacks, line-ne-none,
}
use powerhoc.Job.{Job, add_header, new, header_line, serialize, load_headers, load_from_string}

-- A job with one header.
abbrev pub with_header : Bytes → Bytes → Bytes → Job
with_header text name value = add_header name value (new text none)

module _ (n a : Bytes) (hn : Lacks b':' n) (ha : Lacks b':' a) where
  header_escaped :
      (text b : Bytes)
      → Lacks b':' b
      → with_header text n (a ++ (b':' ∷ b))
        ≡ record { job_data = text; headers = (n, (a ++ codes "\\") ++ (b':' ∷ b)) ∷ [] }
  unfolding add_header new replace
  header_escaped text b hb = rw (
    replace-append b':' (codes "\\:") a (b':' ∷ b),
    replace_absent b':' (codes "\\:") n hn,
    replace_absent b':' (codes "\\:") a ha,
    replace_absent b':' (codes "\\:") b hb,
    append_assoc a (codes "\\") (b':' ∷ b),
  )

  escaped-Lacks : Lacks b':' (a ++ codes "\\")
  escaped-Lacks = All-append (λ c. c ≢ b':') a (codes "\\") ha (omega arith)

  escaped_ne : a ++ codes "\\" ≢ []
  escaped_ne = concat-ne-nil b'\\' a

  -- The header that is loaded for a value `a:`.
  moved-IsSafeHeader : n ≢ [] → lstrip n ≡ n → IsSafeHeader (n, a ++ codes "\\")
  moved-IsSafeHeader ne trimmed = record {
    name_lacks = hn;
    value_lacks = escaped-Lacks;
    name_ne_nil = ne;
    value_ne_nil = escaped_ne;
    name_trimmed = trimmed;
    value_trimmed = rstrip-append a (codes "\\") (λ e. cc) (unfold rstrip in refl);
  }

  same_wire :
      (text : Bytes)
      → serialize (with_header text n (a ++ codes ":"))
        ≡ serialize (record { job_data = b':' ∷ text; headers = (n, a ++ codes "\\") ∷ [] })
  same_wire text = rw (header_escaped text [] tt) (unfold serialize in simp append_assoc)

  -- A header value that ends in its only colon, under a name that is not empty, has no colon and no
  -- white space in front, is silently changed: the job is loaded with the
  -- value `a\`, and the colon has moved to the front of the data.
  pub load_trailing_colon :
      (text : Bytes)
      → n ≢ []
      → lstrip n ≡ n
      → load_from_string (serialize (with_header text n (a ++ codes ":")))
        ≡ ok (record { job_data = b':' ∷ text; headers = (n, a ++ codes "\\") ∷ [] })
  load_trailing_colon text ne trimmed = rw (same_wire text) (
      load-serialize _ (record { safe = (moved-IsSafeHeader ne trimmed, tt); distinct = (tt, tt) }))

  joined : (b : Bytes) → b ≢ [] → Lacks b':' b → HeadLacks (b ++ [])
  joined b nb hb = head_lacks b [] nb hb

  inner_line :
      (bs b : Bytes)
      → b ≢ []
      → Lacks b':' b
      → NoneInside (b':' ∷ b':' ∷ bs) (header_line (n, (a ++ codes "\\") ++ (b':' ∷ b)))
  inner_line bs b nb hb = NoneInside-append b':' (b':' ∷ bs) n _ hn (
      one_colon bs _ (head_lacks _ (b':' ∷ b) escaped_ne escaped-Lacks) (
        NoneInside-append b':' (b':' ∷ bs) (a ++ codes "\\") (b':' ∷ b) escaped-Lacks (
          one_colon bs b (rw append-nil at (joined b nb hb))
            (Lacks-NoneInside b':' (b':' ∷ bs) b hb))))

  three_parts :
      (b : Bytes)
      → n ≢ []
      → lstrip n ≡ n
      → b ≢ []
      → rstrip b ≡ b
      → Lacks b':' b
      → split (codes ":") (strip (header_line (n, (a ++ codes "\\") ++ (b':' ∷ b))))
        ≡ n ∷ (a ++ codes "\\") ∷ b ∷ []
  unfolding join
  three_parts b ne trimmed nb tb hb =
      let part = λ (p : Bytes) (h : Lacks b':' p). Lacks-NoneInside b':' [] p h in
      rw
        (rw (append_assoc (a ++ codes "\\") (codes ":") b) at
          (strip-append n (b':' ∷ ((a ++ codes "\\") ++ codes ":")) b ne nb trimmed tb))
        (split-join b':' [] n ((a ++ codes "\\") ∷ b ∷ [])
          (part n hn, (part (a ++ codes "\\") escaped-Lacks, (part b hb, tt))))

  -- A header value with one colon, followed by a text that is not empty and has no white space at its
  -- end, is refused by `load_from_string`, under a name that is not empty, has no colon and no white
  -- space in front.
  pub load_inner_colon :
      (text b : Bytes)
      → n ≢ []
      → lstrip n ≡ n
      → b ≢ []
      → rstrip b ≡ b
      → Lacks b':' b
      → load_from_string (serialize (with_header text n (a ++ (b':' ∷ b)))) ≡ err value_error
  load_inner_colon text b ne trimmed nb tb hb =
      let line = header_line (n, (a ++ codes "\\") ++ (b':' ∷ b)) in
      rw (header_escaped text b hb) (
        unfold serialize in
        load_wire text line (inner_line (codes ":") b nb hb)
        ∙ rw (split-join b':' (codes ":") line [] (inner_line [] b nb hb, tt))
            (unfold load_headers in rw (line-ne-none n _, three_parts b ne trimmed nb tb hb)))
