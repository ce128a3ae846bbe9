-- ===== src/Export/Assemble/Total.antt =====
-- The whole of `assemble` in crates/archiv-export/src/lib.rs: its outcome and its length.
use archiv_agent.Base.{◌^◌, ◌<◌, ◌≡◌, ◌∙◌, refl, sym, ap, arith, append-nil, length}
use archiv_agent.Base.{◌==◌, ◌&&◌, not, false, Safe, safe_ok, safe_err, Safe-bind, Safe-if}
use archiv_agent.Envelope.{Envelope, any_dropped, redaction_total}
use archiv_agent.Export.Segment.{MaskTable}
use archiv_agent.Export.Spans.Disjoint.{AreOrdered}
use archiv_agent.Export.Build.Walks.{build_request-Good}
use archiv_agent.Export.Emit.{AssembledPayload, contiguous}
use archiv_agent.Export.Emit.Written.{Returns, returns, Returns-Safe, emit_segs-Rendered}
use archiv_agent.Export.Emit.Sizes.{length-render_segs}
use archiv_agent.Export.Assemble.{assemble}

-- The length that the payload states is right, where it fits a `usize`.
abbrev pub IsSized : AssembledPayload → Type 0
IsSized p = p.len < 2 ^ 64 → length (contiguous p) ≡ p.len

-- With redactions that are ranges in order, `assemble` neither panics (no slice of the raw buffer
-- is out of range) nor loops, and a payload that it returns has as many bytes as its `len` says,
-- provided that number fits in 64 bits. The lengths of nested messages are written before their
-- content, from sizes computed bottom-up.
pub assemble-IsSized :
    (env : Envelope) (masks : MaskTable) → AreOrdered env → Safe IsSized (assemble env masks)
unfolding assemble contiguous
assemble-IsSized env masks ordered =
    Safe-if IsSized (not (any_dropped env.decisions) && redaction_total env.decisions == 0)
      (λ _. safe_ok (λ _. ap length (append-nil env.raw)))
      (λ _. Safe-bind _ _ (build_request-Good env.raw masks env ordered 0) λ (segs, n) good.
        Safe-if IsSized (not (n == length env.records)) (λ _. safe_err)
          λ _.
            Safe-bind _ _ (Returns-Safe (emit_segs-Rendered env.raw masks segs good))
              λ a (text, len). safe_ok (λ small.
                ap length text
                ∙ length-render_segs env.raw masks segs good (omega (arith, len, small))
                ∙ sym len))

-- When no record is dropped and no redaction is staged, `assemble` succeeds and the payload is the raw request, byte for
-- byte, whatever the mask table and without the walk.
pub assemble_identity :
    (env : Envelope) (masks : MaskTable)
    → any_dropped env.decisions ≡ false
    → redaction_total env.decisions ≡ 0
    → Returns (λ p. (contiguous p ≡ env.raw) × (p.len ≡ length env.raw)) (assemble env masks)
unfolding assemble contiguous
assemble_identity env masks kept none_staged =
    rw (kept, none_staged) (returns (append-nil env.raw, refl))
