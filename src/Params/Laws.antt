-- ===== src/Params/Laws.antt =====
-- What `encode_params` writes is decoded back, and what `decode_params` accepts was so written.
use powerhoc.Common.{
  List, [], ◌∷◌, ◌++◌, Bytes, codes, All, Lacks, ◌≡◌, ◌≢◌, refl, ◌∙◌, arith, ◌⊎◌, inl, inr, ap, sym,
  All-append, All-left, All-right,
}
use powerhoc.Dict.{Dict, Distinct, bytes_eq, set, set_all, set_all-append}
use powerhoc.Exc.{ok, err, value_error}
use powerhoc.Text.{split, join}
use powerhoc.Text.Laws.{Lacks-NoneInside, NoneInside, split-join, join-split, split-ne-nil}
use powerhoc.Text.Parts.{split-Lacks}
use powerhoc.Params.{item_lines, encode_params, unpack_pair, decode_items, decode_params}

-- Neither the key nor the value holds a separator.
abbrev pub IsPlain : Bytes × Bytes → Type 0
IsPlain (key, value) = Lacks b':' key × Lacks b':' value × Lacks b'|' key × Lacks b'|' value

line_split :
    (k v : Bytes) → IsPlain (k, v) → split (codes ":") (join (codes ":") (k ∷ v ∷ [])) ≡ k ∷ v ∷ []
line_split k v (hk, hv, _, _) =
    split-join b':' [] k (v ∷ [])
      (Lacks-NoneInside b':' [] k hk, (Lacks-NoneInside b':' [] v hv, tt))

line-Lacks : (k v : Bytes) → IsPlain (k, v) → Lacks b'|' (join (codes ":") (k ∷ v ∷ []))
unfolding join
line-Lacks k v (_, _, hk, hv) = All-append (λ c. c ≢ b'|') k (b':' ∷ v) hk (omega arith, hv)

lines-NoneInside :
    (d : Dict Bytes Bytes) → All IsPlain d → All (NoneInside (codes "|")) (item_lines d)
unfolding item_lines
lines-NoneInside [] h = tt
lines-NoneInside ((k, v) ∷ d) (h, hs) =
    (Lacks-NoneInside b'|' [] _ (line-Lacks k v h), lines-NoneInside d hs)

decode_items-lines :
    (items d : Dict Bytes Bytes)
    → All IsPlain items
    → decode_items (item_lines items) d ≡ ok (set_all items d)
unfolding item_lines decode_items set_all
decode_items-lines [] d h = refl
decode_items-lines ((k, v) ∷ items) d (h, hs) =
    rw (line_split k v h) (decode_items-lines items (set k v d) hs)

-- Decoding an encoded dict gives the dict, if it has an item and no separator stands in it.
pub decode-encode_params :
    (d : Dict Bytes Bytes)
    → d ≢ []
    → Distinct d
    → All IsPlain d
    → decode_params (encode_params d) ≡ ok d
unfolding decode_params encode_params
decode-encode_params [] ne ds h = absurd (ne refl)
decode-encode_params ((k, v) ∷ d) ne ds (h, hs) =
    rw
      (
        split-join b'|' [] (join (codes ":") (k ∷ v ∷ [])) (item_lines d)
            (lines-NoneInside ((k, v) ∷ d) (h, hs)),
        decode_items-lines ((k, v) ∷ d) [] (h, hs),
      )
      (ap ok (set_all-append ((k, v) ∷ d) [] ds))

-- The items that a list of parts spells.
record Spelled (parts : List Bytes) (d r : Dict Bytes Bytes) : Type 0 where
  items : Dict Bytes Bytes
  spelled : item_lines items ≡ parts
  collected : set_all items d ≡ r
  plain : All IsPlain items

line-IsPlain :
    (k v : Bytes) → Lacks b':' k → Lacks b':' v → Lacks b'|' (k ++ (b':' ∷ v)) → IsPlain (k, v)
line-IsPlain k v hk hv h =
    (hk, hv, All-left (λ c. c ≢ b'|') k (b':' ∷ v) h, (All-right (λ c. c ≢ b'|') k (b':' ∷ v) h).1)

-- What unpacking a part can give.
record Unpacked (part : Bytes) : Type 0 where
  key : Bytes
  value : Bytes
  unpacked : unpack_pair (split (codes ":") part) ≡ ok (key, value)
  plain : IsPlain (key, value)
  written : join (codes ":") (key ∷ value ∷ []) ≡ part

unpack_cases :
    (part : Bytes)
    → Lacks b'|' part
    → (unpack_pair (split (codes ":") part) ≡ err value_error) ⊎ Unpacked part
unpack_cases part h = go (split (codes ":") part) refl
  where
    go :
        (ps : List Bytes)
        → split (codes ":") part ≡ ps
        → (unpack_pair (split (codes ":") part) ≡ err value_error) ⊎ Unpacked part
    go [] e = inl (rw e (unfold unpack_pair in refl))
    go (x ∷ []) e = inl (rw e (unfold unpack_pair in refl))
    go (x ∷ y ∷ []) e =
        let written : join (codes ":") (x ∷ y ∷ []) ≡ part =
          rw e at (join-split (codes ":") part) in
        let clean : All (Lacks b':') (x ∷ y ∷ []) = rw e at (split-Lacks b':' part) in
        inr (record {
          key = x;
          value = y;
          unpacked = rw e (unfold unpack_pair in refl);
          plain = line-IsPlain x y clean.0 clean.1.0 (unfold join in rw written h);
          written = written;
        })
    go (x ∷ y ∷ z ∷ ps) e = inl (rw e (unfold unpack_pair in refl))

decode_items_sound :
    (parts : List Bytes) (d r : Dict Bytes Bytes)
    → All (Lacks b'|') parts
    → decode_items parts d ≡ ok r
    → Spelled parts d r
unfolding decode_items item_lines set_all
decode_items_sound [] d r h e = record {
  items = [];
  spelled = refl;
  collected = ground arith;
  plain = tt;
}
decode_items_sound (p ∷ parts) d r (h, hs) e = elim (unpack_cases p h) [
  | inl bad ↦ cc (rw bad at e)
  | inr u ↦
      let rest = decode_items_sound parts (set u.key u.value d) r hs (rw u.unpacked at e) in
      record {
        items = (u.key, u.value) ∷ rest.items;
        spelled = cc (u.written, rest.spelled);
        collected = rest.collected;
        plain = (u.plain, rest.plain);
      }
]

-- Accepted parameters are the encoding of items without separators, at least one, and the result
-- holds those items, a later one in the place of an earlier one with its key.
pub decode_params_sound :
    (s : Bytes) (d : Dict Bytes Bytes)
    → decode_params s ≡ ok d
    → (items : Dict Bytes Bytes) × (items ≢ [])
      × All IsPlain items
      × (encode_params items ≡ s)
      × (set_all items [] ≡ d)
unfolding decode_params encode_params
decode_params_sound s d e =
    let found = decode_items_sound (split (codes "|") s) [] d (split-Lacks b'|' s) e in
    (
      found.items,
      (λ q.
          split-ne-nil (codes "|") s
            (sym found.spelled ∙ ap item_lines q ∙ (unfold item_lines in refl))),
      found.plain,
      rw found.spelled (join-split (codes "|") s),
      found.collected,
    )
