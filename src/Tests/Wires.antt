-- ===== src/Tests/Wires.antt =====
-- Jobs, parameters and replies on the wire.
use powerhoc.Common.{[], ◌∷◌, Bytes, codes, true, ◌≡◌, ◌≢◌, refl, arith, All, beq_ne}
use powerhoc.Dict.{Dict, set_all, bytes_eq}
use powerhoc.Exc.{ok, err, value_error}
use powerhoc.Job.{Job, serialize, load_from_string}
use powerhoc.Job.RoundTrip.{IsSafeHeader, IsWireSafe, load-serialize}
use powerhoc.Job.Escaping.{with_header, load_inner_colon}
use powerhoc.Params.{encode_params, decode_params}
use powerhoc.Params.Laws.{IsPlain, decode_params_sound}
use powerhoc.Reply.{reply}
use powerhoc.Text.{lstrip, rstrip}
use powerhoc.Text.Decimal.{format}

abbrev two_headers : Job
two_headers = record {
  job_data = codes ":::x";
  headers = (codes "one", codes "1") ∷ (codes "a b", codes "2") ∷ [];
}

wire_of_two : serialize two_headers ≡ codes "one:1::a b:2::::::x"
unfolding serialize
wire_of_two = refl

first_header : IsSafeHeader (codes "one", codes "1")
unfolding lstrip rstrip
first_header = record {
  name_lacks = omega arith;
  value_lacks = omega arith;
  name_ne_nil = λ e. cc;
  value_ne_nil = λ e. cc;
  name_trimmed = refl;
  value_trimmed = refl;
}

second_header : IsSafeHeader (codes "a b", codes "2")
unfolding lstrip rstrip
second_header = record {
  name_lacks = omega arith;
  value_lacks = omega arith;
  name_ne_nil = λ e. cc;
  value_ne_nil = λ e. cc;
  name_trimmed = refl;
  value_trimmed = refl;
}

two_headers-IsWireSafe : IsWireSafe two_headers
two_headers-IsWireSafe = record {
  safe = (first_header, (second_header, tt));
  distinct = ((beq_ne _ _ refl, tt), (tt, tt));
}

load-serialize_example : load_from_string (serialize two_headers) ≡ ok two_headers
load-serialize_example = load-serialize two_headers two_headers-IsWireSafe

load_inner_colon_example :
    load_from_string (serialize (with_header (codes "data") (codes "url") (codes "http://x")))
    ≡ err value_error
load_inner_colon_example =
    load_inner_colon (codes "url") (codes "http") (omega arith) (omega arith) (codes "data")
      (codes "//x") (λ e. cc) (unfold lstrip in refl) (λ e. cc) (unfold rstrip in refl)
      (omega arith)

abbrev params : Dict Bytes Bytes
params = (codes "spam", codes "yeah") ∷ (codes "eggs", codes "blah") ∷ []

params_line : encode_params params ≡ codes "spam:yeah|eggs:blah"
unfolding encode_params
params_line = refl

decoded_twice : decode_params (codes "a:1|a:2") ≡ ok ((codes "a", codes "2") ∷ [])
unfolding decode_params
decoded_twice = refl

decode_params_sound_example :
    (items : Dict Bytes Bytes) × (items ≢ [])
    × All IsPlain items
    × (encode_params items ≡ codes "a:1|a:2")
    × (set_all items [] ≡ (codes "a", codes "2") ∷ [])
decode_params_sound_example = decode_params_sound (codes "a:1|a:2") _ decoded_twice

reply_line : reply 7 true (codes "a:b") ≡ codes "7:OK:a:b"
unfolding reply format
reply_line = refl
