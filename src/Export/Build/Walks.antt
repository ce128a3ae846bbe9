-- ===== src/Export/Build/Walks.antt =====
-- The walks of crates/archiv-export/src/lib.rs, from an `AnyValue` to the request, over good
-- segments.
use archiv_agent.Base.{ℕ, ◌^◌, ◌≤◌, ◌<◌, refl, arith}
use archiv_agent.Base.{length, ◌==◌, ◌&&◌, ◌||◌}
use archiv_agent.Base.{Safe, safe_ok, Safe-bind, Safe-map_err, Safe-if}
use archiv_agent.Wire.{Bytes, Range, WireCursor, new}
use archiv_agent.Wire.Safety.{len_range-Safe, skip-Safe, Kept, kept_next, walk-Safe}
use archiv_agent.Envelope.{Envelope, SampleVerdict, keep, drop, sampling_verdict}
use archiv_agent.Export.Segment.{wire, MaskTable}
use archiv_agent.Export.Spans.Disjoint.{AreOrdered, effective_spans-Chain}
use archiv_agent.Export.Build.{Child, unchanged, dropped, rebuilt}
use archiv_agent.Export.Build.{build_scalar, Build, fresh}
use archiv_agent.Export.Build.{finish, pass_over}
use archiv_agent.Export.Build.{build_any_value, build_key_value, unless_dropped}
use archiv_agent.Export.Build.{build_record, Builder, walk_container, record_child}
use archiv_agent.Export.Build.{request, build_container, request_segs, build_request}
use archiv_agent.Export.Emit.Rendered.{good_verbatim, GoodAll, good_nil, good_cons}
use archiv_agent.Export.Build.Wellformed.{
  GoodChild, splice_spans-Good, finish-Good, adopt-Good, adopt_rebuilt-Good, adopt_scalar-Good,
}

module _ (buf : Bytes) (masks : MaskTable) where
  abbrev GoodBuild : Build → Type 0
  GoodBuild b = GoodAll buf masks b.segs

  pass_over-Safe :
      {S A : Type 0} (I : S → Type 0) (P : A → Type 0) (s : S) (w : ℕ) (c : WireCursor)
      → c.end ≤ length c.buf
      → I s
      → Safe (Kept I P c) (pass_over s w c)
  pass_over-Safe I P s w c h i =
      Safe-bind _ _ (Safe-map_err wire (skip-Safe w c h))
        λ c' m. safe_ok (kept_next i (ground arith))

  module _ (idx : ℕ) (env : Envelope) (ordered : AreOrdered env) where
    build_any_value-Good :
        (window : Range)
        → window.start ≤ window.end
        → window.end ≤ length buf
        → Safe (GoodChild buf masks) (build_any_value buf idx env masks window)
    unfolding build_any_value new build_scalar
    build_any_value-Good window o inside =
        walk-Safe wire GoodBuild (GoodChild buf masks) buf window.end inside _ (finish window)
          (fresh window) (new buf window) (λ b h. finish-Good buf masks window b inside h)
          (λ b start field w c h at le.
            Safe-if _ (field == 1 && w == 2)
              (λ _. Safe-bind _ _ (Safe-map_err wire (len_range-Safe c (ground arith))) λ (s, c') d.
                Safe-bind _ _
                  (splice_spans-Good buf masks 1 s _ (omega arith) (ground arith)
                    (effective_spans-Chain env idx s ordered))
                  λ seg g. safe_ok (
                    kept_next (adopt_scalar-Good buf masks seg start c'.pos b (ground arith) g h)
                      (ground arith)))
              (λ _. pass_over-Safe GoodBuild _ b w c (ground arith) h))
          (record { same_buf = refl; same_end = refl }) good_nil

    build_key_value-Good :
        (window : Range)
        → window.start ≤ window.end
        → window.end ≤ length buf
        → Safe (GoodChild buf masks) (build_key_value buf idx env masks window)
    unfolding build_key_value new
    build_key_value-Good window o inside =
        walk-Safe wire GoodBuild (GoodChild buf masks) buf window.end inside _ (finish window)
          (fresh window) (new buf window) (λ b h. finish-Good buf masks window b inside h)
          (λ b start field w c h at le.
            Safe-if _ (field == 2 && w == 2)
              (λ _.
                Safe-bind _ _ (Safe-map_err wire (len_range-Safe c (ground arith))) λ (av, c') d.
                  Safe-bind _ _ (build_any_value-Good av d.ordered (ground arith)) λ child g.
                    safe_ok (
                      kept_next
                        (adopt_rebuilt-Good buf masks 2 child start c'.pos b (omega arith)
                          (ground arith) g h)
                        (ground arith)))
              (λ _. pass_over-Safe GoodBuild _ b w c (ground arith) h))
          (record { same_buf = refl; same_end = refl }) good_nil

    record_walk-Good :
        (window : Range)
        → window.end ≤ length buf
        → (verdict : SampleVerdict)
        → Safe (GoodChild buf masks) (unless_dropped buf idx env masks verdict window)
    unfolding new
    record_walk-Good window inside drop = safe_ok tt
    record_walk-Good window inside keep =
        walk-Safe wire GoodBuild (GoodChild buf masks) buf window.end inside _ (finish window)
          (fresh window) (new buf window) (λ b h. finish-Good buf masks window b inside h)
          (λ b start field w c h at le.
            Safe-if _ ((field == 5 || field == 6) && w == 2)
              (λ e. Safe-bind _ _ (Safe-map_err wire (len_range-Safe c (ground arith))) λ (r, c') d.
                Safe-bind _ _
                  (Safe-if (GoodChild buf masks) (field == 5)
                    (λ _. build_any_value-Good r d.ordered (ground arith))
                    (λ _. build_key_value-Good r d.ordered (ground arith)))
                  λ child g. safe_ok (
                    kept_next
                      (adopt_rebuilt-Good buf masks field child start c'.pos b (ground arith)
                        (ground arith) g h)
                      (ground arith)))
              (λ _. pass_over-Safe GoodBuild _ b w c (ground arith) h))
          (record { same_buf = refl; same_end = refl }) good_nil

  module _ (env : Envelope) (ordered : AreOrdered env) where
    abbrev GoodBuilder : Builder → Type 0
    GoodBuilder child =
        (window : Range) (rec_idx : ℕ)
        → window.start ≤ window.end
        → window.end ≤ length buf
        → Safe (λ r. GoodChild buf masks r.0) (child window rec_idx)

    record_child-Good : GoodBuilder (record_child buf env masks)
    unfolding record_child build_record
    record_child-Good window rec_idx o inside =
        Safe-bind _ _
          (record_walk-Good rec_idx env ordered window inside
            (sampling_verdict env.decisions rec_idx))
          λ child g. safe_ok g

    walk_container-Good :
        (child : Builder) (child_field : ℕ)
        → child_field < 2 ^ 32
        → GoodBuilder child
        → GoodBuilder (walk_container buf env masks child child_field)
    unfolding walk_container new
    walk_container-Good child child_field f good window rec_idx o inside =
        walk-Safe wire (λ s. GoodBuild s.0) (λ r. GoodChild buf masks r.0) buf window.end inside _ _
          (fresh window, rec_idx) (new buf window)
          (λ s h. finish-Good buf masks window s.0 inside h)
          (λ (b, n) start field w c h at le.
            Safe-if _ (field == child_field && w == 2)
              (λ _. Safe-bind _ _ (Safe-map_err wire (len_range-Safe c (ground arith))) λ (r, c') d.
                Safe-bind _ _ (good r n d.ordered (ground arith)) λ (built, n') g. safe_ok (
                  kept_next
                    (adopt-Good buf masks child_field built start c'.pos b f (ground arith) g h)
                    (ground arith)))
              (λ _. pass_over-Safe (λ s. GoodBuild s.0) _ (b, n) w c (ground arith) h))
          (record { same_buf = refl; same_end = refl }) good_nil

    build_container-Good : GoodBuilder (build_container buf env masks request 1)
    unfolding build_container
    build_container-Good = walk_container-Good _ 1 (omega arith) (
        walk_container-Good _ 2 (omega arith)
          (walk_container-Good _ 2 (omega arith) record_child-Good))

    request_segs-Good :
        (child : Child)
        → GoodChild buf masks child
        → GoodAll buf masks (request_segs buf env masks child)
    request_segs-Good unchanged g = good_cons (good_verbatim (omega arith, omega arith)) good_nil
    request_segs-Good dropped g = good_cons (good_verbatim (omega arith, omega arith)) good_nil
    request_segs-Good (rebuilt segs) g = g

    pub build_request-Good :
        (rec_idx : ℕ) → Safe (λ r. GoodAll buf masks r.0) (build_request buf env masks rec_idx)
    unfolding build_request
    build_request-Good rec_idx =
        Safe-bind _ _ (build_container-Good _ rec_idx (omega arith) (omega arith))
          λ (child, n) g. safe_ok (request_segs-Good child g)
