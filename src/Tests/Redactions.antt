-- ===== src/Tests/Redactions.antt =====
-- The redaction stage over a regex crate with one regex, which finds the first byte of a text.
use archiv_agent.Base.{some, arith, List, [], ◌∷◌, All}
use archiv_agent.Wire.{Bytes, Range}
use archiv_agent.Guard.Bypass.{Added}
use archiv_agent.Redact.{RegexCrate, RedactEngine, body, stage_redact_regex, redact_apply}
use archiv_agent.Redact.Stage.{IsRange, FindsRanges, redact_apply-Added}
use archiv_agent.Tests.Samples.{plain_envelope}

abbrev pub first_byte : Bytes → List Range
first_byte [] = []
first_byte (b ∷ bs) = record { start = 0; end = 1 } ∷ []

first_byte-ranges : (text : Bytes) → All IsRange (first_byte text)
first_byte-ranges [] = tt
first_byte-ranges (b ∷ bs) = (omega arith, tt)

abbrev pub first_byte_crate : RegexCrate
first_byte_crate = record {
  Regex = Unit {0};
  RegexSet = Unit {0};
  find_iter = λ _ text. first_byte text;
  matching = λ _ text. 0 ∷ [];
  build = λ limit pattern. some tt;
  build_set = λ limit patterns. some tt;
}

pub first_byte_crate-FindsRanges : FindsRanges first_byte_crate
first_byte_crate-FindsRanges regex text = first_byte-ranges text

abbrev body_engine : RedactEngine first_byte_crate
body_engine = record {
  prefilter = tt;
  rules = record { name = []; regex = tt; mask = 0; fields = body ∷ [] } ∷ [];
  masks = (42 ∷ 42 ∷ 42 ∷ []) ∷ [];
}

redact_apply-Added_example :
    let (_, env', e) = redact_apply first_byte_crate body_engine (0 ∷ []) plain_envelope in
    Added stage_redact_regex plain_envelope env' e
redact_apply-Added_example =
    redact_apply-Added first_byte_crate first_byte_crate-FindsRanges body_engine (0 ∷ [])
      plain_envelope
