-- ===== src/Export/Assemble.antt =====
-- `assemble`: the identity path, or the walk, the record count, and the emission.
pub mod Total
use archiv_agent.Base.{ℕ, [], ◌∷◌, ◌==◌, if◌then◌else◌, ◌&&◌, not, length, Run, ok, err, ◌>>=◌}
use archiv_agent.Envelope.{Envelope, any_dropped, redaction_total}
use archiv_agent.Export.Segment.{AssembleError, record_count_mismatch, MaskTable}
use archiv_agent.Export.Build.{build_request}
use archiv_agent.Export.Emit.{AssembledPayload, new, emit_segs, finish}

unfoldable pub assemble : Envelope → MaskTable → Run AssembleError AssembledPayload
assemble env masks =
    if not (any_dropped env.decisions) && redaction_total env.decisions == 0
    then ok (record { chunks = env.raw ∷ []; len = length env.raw })
    else (do
      (segs, rec_idx) ← build_request env.raw env masks 0
      (if not (rec_idx == length env.records)
          then err (record_count_mismatch (length env.records) rec_idx)
          else (do a ← emit_segs masks segs (new env.raw); ok (finish a))))
