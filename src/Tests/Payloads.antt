-- ===== src/Tests/Payloads.antt =====
-- Assembly on the sample envelope: spans, masks, sizes, and what comes out.
use archiv_agent.Base.{◌+◌, ◌≡◌, refl, arith, [], ◌∷◌, length, ok, Safe}
use archiv_agent.Wire.{Range, WireCursor, varint}
use archiv_agent.Export.Segment.{Seg, varint_len, put_varint}
use archiv_agent.Export.Segment.VarintLen.{varint_len-put_varint}
use archiv_agent.Export.Segment.RoundTrip.{Ahead, varint-put_varint}
use archiv_agent.Export.Spans.{effective_spans}
use archiv_agent.Export.Spans.Disjoint.{Chain, AreOrdered, effective_spans-Chain}
use archiv_agent.Export.Build.{build_scalar}
use archiv_agent.Export.Build.Masked.{IsMasked, build_scalar-IsMasked}
use archiv_agent.Export.Assemble.{assemble}
use archiv_agent.Export.Assemble.Total.{IsSized, assemble-IsSized}
use archiv_agent.Tests.Samples.{request_bytes, two_masks, redacted_envelope}

redacted-AreOrdered : AreOrdered redacted_envelope
redacted-AreOrdered = (omega arith, tt)

assemble-IsSized_example : Safe IsSized (assemble redacted_envelope two_masks)
assemble-IsSized_example = assemble-IsSized redacted_envelope two_masks redacted-AreOrdered

abbrev body_window : Range
body_window = record { start = 10; end = 13 }

build_scalar-IsMasked_example :
    IsMasked request_bytes two_masks 1 body_window
      (effective_spans redacted_envelope 0 body_window)
      (build_scalar 1 body_window 0 redacted_envelope two_masks)
build_scalar-IsMasked_example =
    build_scalar-IsMasked request_bytes two_masks 1 body_window 0 redacted_envelope (omega arith)
      redacted-AreOrdered

effective_spans-Chain_example : Chain 10 13 (effective_spans redacted_envelope 0 body_window)
effective_spans-Chain_example =
    effective_spans-Chain redacted_envelope 0 body_window redacted-AreOrdered

varint_len-put_varint_example :
    (length (put_varint 300 (7 ∷ [])) ≡ 1 + varint_len 300)
    × (put_varint 300 (7 ∷ []) ≡ 7 ∷ put_varint 300 [])
varint_len-put_varint_example = varint_len-put_varint 300 (7 ∷ []) (omega arith)

abbrev cursor_300 : WireCursor
cursor_300 = record { buf = 172 ∷ 2 ∷ 9 ∷ []; pos = 0; end = 3 }

cursor_300-Ahead : Ahead cursor_300 (put_varint 300 []) (9 ∷ [])
unfolding put_varint archiv_agent.Export.Segment.put_varint_loop
cursor_300-Ahead = record { reads = refl; room = omega arith }

varint-put_varint_example :
    varint cursor_300 ≡ ok (300, record cursor_300 { pos = 0 + length (put_varint 300 []) })
varint-put_varint_example = varint-put_varint 300 cursor_300 (9 ∷ []) (omega arith) cursor_300-Ahead
