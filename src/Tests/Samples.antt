-- ===== src/Tests/Samples.antt =====
-- The inputs that the tests share: a request with one record, and an envelope with its redaction.
use archiv_agent.Base.{ℕ, ◌+◌, ◌%◌, ◌^◌, refl, ap, [], ◌∷◌, ◌++◌, append_assoc, none}
use archiv_agent.Wire.{Bytes}
use archiv_agent.Envelope.{RecordView, Redaction, keep, Envelope, Decisions}
use archiv_agent.Export.Segment.{MaskTable}
use archiv_agent.Sampling.{XxHash, IsStreaming}

-- One resource, one scope, one record, with the body "abc" at 10..13.
abbrev pub request_bytes : Bytes
request_bytes = 10 ∷ 11 ∷ 18 ∷ 9 ∷ 18 ∷ 7 ∷ 42 ∷ 5 ∷ 10 ∷ 3 ∷ 97 ∷ 98 ∷ 99 ∷ []

-- A length that runs over the end.
abbrev pub broken_bytes : Bytes
broken_bytes = 10 ∷ 11 ∷ 18 ∷ []

abbrev pub two_masks : MaskTable
two_masks = record { masks = (42 ∷ 42 ∷ 42 ∷ []) ∷ (35 ∷ []) ∷ [] }

abbrev pub body_redaction : Redaction
body_redaction = record { target = record { start = 11; end = 12 }; mask = 0 }

abbrev pub body_record : RecordView
body_record = record {
  body = record { start = 10; end = 13 };
  trace_id = none;
  attrs = [];
  severity_number = none;
  namespace = none;
  service_name = none;
}

abbrev pub redacted_decisions : Decisions
redacted_decisions = record {
  sampling = keep ∷ [];
  redactions = record { stage = "redact"; record_idx = 0; redaction = body_redaction } ∷ [];
}

abbrev pub redacted_envelope : Envelope
redacted_envelope = record {
  raw = request_bytes;
  records = body_record ∷ [];
  decisions = redacted_decisions;
}

abbrev pub plain_envelope : Envelope
plain_envelope = record {
  raw = request_bytes;
  records = body_record ∷ [];
  decisions = record { sampling = keep ∷ []; redactions = [] };
}

abbrev pub sum_bytes : Bytes → ℕ
sum_bytes [] = 0
sum_bytes (b ∷ bs) = b + sum_bytes bs

-- A hash of the same shape: the sum of the bytes and the seed.
abbrev pub sum_hash : XxHash
sum_hash = record {
  Hasher = Bytes × ℕ;
  xxh64 = λ text seed. (sum_bytes text + seed) % 2 ^ 64;
  new = λ seed. ([], seed);
  update = λ piece h. (h.0 ++ piece, h.1);
  digest = λ h. (sum_bytes h.0 + h.1) % 2 ^ 64;
}

pub sum_hash-IsStreaming : IsStreaming sum_hash
sum_hash-IsStreaming = record {
  one_shot = λ text seed. refl;
  pieces = λ a b h. ap (λ t. (t, h.1)) (append_assoc h.0 a b);
}
