-- ===== src/Export/Build.antt =====
-- The walk that finds what changes, and sizes it bottom-up: `build_scalar` to `build_request`.
pub mod Wellformed
pub mod Walks
pub mod Masked
use archiv_agent.Base.{
  ℕ, suc, ◌+◌, ◌-◌, List, [], ◌∷◌, ◌++◌, Option, none, some, Bool, true, false, ◌||◌,
}
use archiv_agent.Base.{ltb, ◌==◌, if◌then◌else◌, ◌&&◌, length, Run, ok, err, ◌>>=◌, map_err}
use archiv_agent.Wire.{Bytes, Range, WireCursor, new, len_range, skip, Flow, next, walk}
use archiv_agent.Envelope.{MaskId, Envelope, SampleVerdict, keep, drop, sampling_verdict}
use archiv_agent.Export.Segment.{
  AssembleError, wire, unknown_mask, MaskTable, bytes, Part, raw, mask,
}
use archiv_agent.Export.Segment.{Seg, Segs, verbatim, nested, scalar, nil, cons, push_seg}
use archiv_agent.Export.Segment.{segs_encoded_len}
use archiv_agent.Export.Spans.{Span, effective_spans}

pub data Child : Type 0 where
  unchanged : Child
  dropped : Child
  rebuilt : Segs → Child

-- The locals of `build_scalar`.
pub record Splice : Type 0 where
  pub parts : List Part
  pub size : ℕ
  pub cursor : ℕ

-- `Part::Raw(cursor..to)`, where there is something between.
abbrev pub raw_up_to : ℕ → Splice → Splice
raw_up_to to s =
    if ltb s.cursor to
    then record s {
      parts = s.parts ++ raw (record { start = s.cursor; end = to }) ∷ [];
      size = s.size + (to - s.cursor);
    }
    else s

abbrev pub push_mask : MaskId → Bytes → ℕ → Splice → Splice
push_mask m b end s = record {
  parts = s.parts ++ mask m ∷ [];
  size = s.size + length b;
  cursor = end;
}

-- `masks.bytes(mask).ok_or(AssembleError::UnknownMask(..))`
abbrev pub known_mask : MaskId → Option Bytes → Run AssembleError Bytes
known_mask m none = err (unknown_mask m)
known_mask m (some b) = ok b

unfoldable pub splice_loop : MaskTable → List Span → Splice → Run AssembleError Splice
splice_loop masks [] s = ok s
splice_loop masks ((r, m) ∷ spans) s = do
  b ← known_mask m (bytes masks m)
  splice_loop masks spans (push_mask m b r.end (raw_up_to r.start s))

unfoldable pub splice_spans : ℕ → Range → MaskTable → List Span → Run AssembleError (Option Seg)
splice_spans field window masks [] = ok none
splice_spans field window masks (x ∷ spans) = do
  s ← splice_loop masks (x ∷ spans) (record { parts = []; size = 0; cursor = window.start })
  let s' = raw_up_to window.end s
  ok (some (scalar field s'.size s'.parts))

unfoldable pub build_scalar : ℕ → Range → ℕ → Envelope → MaskTable → Run AssembleError (Option Seg)
build_scalar field window idx env masks =
    splice_spans field window masks (effective_spans env idx window)

-- The locals that each walk has: the segments, the start of the verbatim run, whether it changed.
pub record Build : Type 0 where
  pub segs : Segs
  pub run : ℕ
  pub changed : Bool

abbrev pub fresh : Range → Build
fresh window = record { segs = nil; run = window.start; changed = false }

abbrev pub verbatim_run : ℕ → ℕ → Segs → Segs
verbatim_run run to segs =
    if ltb run to then push_seg (verbatim (record { start = run; end = to })) segs else segs

-- A field that changed: the run before its tag, what replaces it, and a new run behind it.
abbrev pub replace : Option Seg → ℕ → ℕ → Build → Build
replace none tag_start pos b = record {
  segs = verbatim_run b.run tag_start b.segs;
  run = pos;
  changed = true;
}
replace (some seg) tag_start pos b = record {
  segs = push_seg seg (verbatim_run b.run tag_start b.segs);
  run = pos;
  changed = true;
}

abbrev pub finish : Range → Build → Child
finish window b = if b.changed then rebuilt (verbatim_run b.run window.end b.segs) else unchanged

-- What the parent does with a child in its field: nothing, cut it out, or nest it anew.
abbrev pub adopt : ℕ → Child → ℕ → ℕ → Build → Build
adopt field unchanged tag_start pos b = b
adopt field dropped tag_start pos b = replace none tag_start pos b
adopt field (rebuilt inner) tag_start pos b =
    replace (some (nested field (segs_encoded_len inner) inner)) tag_start pos b

-- `if let Child::Rebuilt(inner) = child`
abbrev pub adopt_rebuilt : ℕ → Child → ℕ → ℕ → Build → Build
adopt_rebuilt field (rebuilt inner) tag_start pos b =
    replace (some (nested field (segs_encoded_len inner) inner)) tag_start pos b
adopt_rebuilt field _ tag_start pos b = b

abbrev pub adopt_scalar : Option Seg → ℕ → ℕ → Build → Build
adopt_scalar none tag_start pos b = b
adopt_scalar (some seg) tag_start pos b = replace (some seg) tag_start pos b

abbrev pub pass_over : {S A : Type 0} → S → ℕ → WireCursor → Run AssembleError (Flow S A)
pass_over s w c = do c' ← map_err wire (skip w c); ok (next s c')

module _ (buf : Bytes) (idx : ℕ) (env : Envelope) (masks : MaskTable) where
  abbrev pub any_value_body :
      {A : Type 0} → Build → ℕ → ℕ → ℕ → WireCursor → Run AssembleError (Flow Build A)
  any_value_body b start field w c =
      if field == 1 && w == 2
      then (do
        (s, c') ← map_err wire (len_range c)
        seg ← build_scalar 1 s idx env masks
        ok (next (adopt_scalar seg start c'.pos b) c'))
      else pass_over b w c

  unfoldable pub build_any_value : Range → Run AssembleError Child
  build_any_value window = walk wire any_value_body (finish window) (fresh window) (new buf window)

  abbrev pub key_value_body :
      {A : Type 0} → Build → ℕ → ℕ → ℕ → WireCursor → Run AssembleError (Flow Build A)
  key_value_body b start field w c =
      if field == 2 && w == 2
      then (do
        (av, c') ← map_err wire (len_range c)
        child ← build_any_value av
        ok (next (adopt_rebuilt 2 child start c'.pos b) c'))
      else pass_over b w c

  unfoldable pub build_key_value : Range → Run AssembleError Child
  build_key_value window = walk wire key_value_body (finish window) (fresh window) (new buf window)

  -- Bodies are field 5, attributes field 6.
  abbrev pub record_body :
      {A : Type 0} → Build → ℕ → ℕ → ℕ → WireCursor → Run AssembleError (Flow Build A)
  record_body b start field w c =
      if (field == 5 || field == 6) && w == 2
      then (do
        (r, c') ← map_err wire (len_range c)
        child ← (if field == 5 then build_any_value r else build_key_value r)
        ok (next (adopt_rebuilt field child start c'.pos b) c'))
      else pass_over b w c

  abbrev pub unless_dropped : SampleVerdict → Range → Run AssembleError Child
  unless_dropped drop window = ok dropped
  unless_dropped keep window = walk wire record_body (finish window) (fresh window) (new buf window)

  unfoldable pub build_record : Range → Run AssembleError Child
  build_record window = unless_dropped (sampling_verdict env.decisions idx) window

pub data Level : Type 0 where
  request resource scope : Level

-- A child of a container takes the record index, and hands it on.
abbrev pub Builder : Type 0
Builder = Range → ℕ → Run AssembleError (Child × ℕ)

module _ (buf : Bytes) (env : Envelope) (masks : MaskTable) where
  abbrev pub container_body :
      {A : Type 0}
      → Builder
      → ℕ
      → Build × ℕ
      → ℕ
      → ℕ
      → ℕ
      → WireCursor
      → Run AssembleError (Flow (Build × ℕ) A)
  container_body child child_field (b, rec_idx) start field w c =
      if field == child_field && w == 2
      then (do
        (r, c') ← map_err wire (len_range c)
        (built, rec_idx') ← child r rec_idx
        ok (next (adopt child_field built start c'.pos b, rec_idx') c'))
      else pass_over (b, rec_idx) w c

  unfoldable pub walk_container : Builder → ℕ → Builder
  walk_container child child_field window rec_idx =
      walk wire (container_body child child_field) (λ s. (finish window s.0, s.1))
        (fresh window, rec_idx) (new buf window)

  unfoldable pub record_child : Builder
  record_child w rec_idx = do child ← build_record buf rec_idx env masks w; ok (child, rec_idx + 1)

  -- `build_container`: the level says what a child is.
  unfoldable pub build_container : Level → ℕ → Builder
  unfolding walk_container record_child
  build_container scope child_field = walk_container record_child child_field
  build_container resource child_field = walk_container (walk_container record_child 2) child_field
  build_container request child_field =
      walk_container (walk_container (walk_container record_child 2) 2) child_field

  abbrev pub request_segs : Child → Segs
  request_segs (rebuilt segs) = segs
  request_segs _ = cons (verbatim (record { start = 0; end = length buf })) nil

  unfoldable pub build_request : ℕ → Run AssembleError (Segs × ℕ)
  build_request rec_idx = do
    (child, rec_idx') ← build_container request 1 (record { start = 0; end = length buf }) rec_idx
    ok (request_segs child, rec_idx')
