-- ===== src/Tests/Pages.antt =====
-- The web servers among the examples.
use mathlib.Core.List.{Memᴰ}
use powerhoc.Client.{job, as_job}
use powerhoc.Common.{
  ℕ, zero, suc, ◌↔◌, true, false, [], ◌∷◌, ◌++◌, none, some, Bytes, codes, ◌≡◌, refl, ap, arith,
}
use powerhoc.Dict.{Dict}
use powerhoc.Examples.{visible}
use powerhoc.Examples.Web.{page, hello, IsShown, IsCodec, application, application-hello}
use powerhoc.Exc.{Result, ok, err}
use powerhoc.Job.{new, serialize}
use powerhoc.Reply.{reply}
use powerhoc.Retry.{send, recv, poll_loop}
use powerhoc.System.{Carries}
use powerhoc.Tests.Fixtures.{Wire, wire_socket, new_client}
use powerhoc.Text.Decimal.{format}
use powerhoc.Worker.{Host, run_target}
use powerhoc.Worker.Replies.{answer}

-- A codec in the place of `json`: each byte of a key follows a 0, each byte of a value a 1, and 2 and
-- 0 stand in front of each item.
abbrev marked : ℕ → Bytes → Bytes → Bytes
marked mark [] rest = rest
marked mark (c ∷ cs) rest = mark ∷ c ∷ marked mark cs rest

abbrev dumps : Dict Bytes Bytes → Bytes
dumps [] = []
dumps ((key, value) ∷ d) = 2 ∷ 0 ∷ marked 0 key (marked 1 value (dumps d))

abbrev Parsed : Type 0
Parsed = Bytes × Bytes × Dict Bytes Bytes

abbrev put_mark : ℕ → ℕ → Parsed → Parsed
put_mark zero c (key, value, d) = (c ∷ key, value, d)
put_mark (suc zero) c (key, value, d) = (key, c ∷ value, d)
put_mark (suc (suc n)) c (key, value, d) = ([], [], (key, value) ∷ d)

abbrev parse : Bytes → Parsed
parse [] = ([], [], [])
parse (mark ∷ []) = ([], [], [])
parse (mark ∷ c ∷ s) = put_mark mark c (parse s)

abbrev loads : Bytes → Result (Dict Bytes Bytes)
loads s = let (key, value, d) = parse s in ok d

abbrev pretty : Dict Bytes Bytes → Bytes
pretty [] = []
pretty ((key, value) ∷ d) = key ++ (codes ": ") ++ value ++ codes "\n" ++ pretty d

parse-marked_value :
    (value s : Bytes) (d : Dict Bytes Bytes)
    → parse s ≡ ([], [], d)
    → parse (marked 1 value s) ≡ ([], value, d)
parse-marked_value [] s d e = e
parse-marked_value (c ∷ cs) s d e = ap (put_mark 1 c) (parse-marked_value cs s d e)

parse-marked_key :
    (key value s : Bytes) (d : Dict Bytes Bytes)
    → parse s ≡ ([], value, d)
    → parse (marked 0 key s) ≡ (key, value, d)
parse-marked_key [] value s d e = e
parse-marked_key (c ∷ cs) value s d e = ap (put_mark 0 c) (parse-marked_key cs value s d e)

parse-dumps : (d : Dict Bytes Bytes) → parse (dumps d) ≡ ([], [], d)
parse-dumps [] = refl
parse-dumps ((key, value) ∷ d) = ap (put_mark 2 0) (
    parse-marked_key key value (marked 1 value (dumps d)) d
      (parse-marked_value value (dumps d) d (parse-dumps d)))

text-dumps : (d : Dict Bytes Bytes) (wire : Bytes) → ok (dumps d) ≡ ok wire → dumps d ≡ wire
text-dumps d wire e = ap (λ r. elim r [ ok t ↦ t | err x ↦ [] ]) e

dumps-IsCodec : IsCodec loads (λ d. ok (dumps d)) (λ d. d)
dumps-IsCodec d wire e =
    rw (text-dumps d wire e) at (ap (λ (key, value, d'). ok d') (parse-dumps d))

abbrev environ : Dict Bytes Bytes
environ = (codes "wsgi.input", codes "x") ∷ (codes "PATH_INFO", codes "/a") ∷ []

abbrev page_server : Host
page_server = record {
  target = hello loads pretty;
  report = λ e. codes "failed";
  deliver = λ res. ok tt;
}

abbrev page_ready : Wire
page_ready = record {
  awaits = false;
  inbox = some (reply 7 true (page (codes "PATH_INFO: /a\n")));
  clock = 0;
}

page_carried :
    Carries wire_socket page_server 3 5 7 new_client
      (job (new (dumps (visible environ)) none))
      none
      page_ready
      (record page_ready { clock = 40 })
page_carried = record {
  taken = record page_ready { awaits = true };
  polled = record page_ready { awaits = true; clock = 40 };
  sends = unfold send in refl;
  polls = unfold poll_loop in refl;
  receives =
      unfold recv answer run_target serialize as_job reply format hello page new visible in refl;
}

application-hello_example :
    ((application wire_socket 3 5 (λ d. ok (dumps d)) environ new_client page_ready).0.body
      ≡ some (ok (page (pretty (visible environ)))))
    × ((item : Bytes × Bytes) → Memᴰ item (visible environ) ↔ (Memᴰ item environ × IsShown item))
application-hello_example =
    application-hello wire_socket page_server 3 5 7 new_client page_ready
      (record page_ready { clock = 40 }) loads (λ d. ok (dumps d)) (λ d. d) pretty dumps-IsCodec
      (λ j. refl) environ (dumps (visible environ)) refl page_carried (omega arith)
