-- ===== src/Export/Build/Wellformed.antt =====
-- The steps of a walk in crates/archiv-export/src/lib.rs: splices, verbatim runs, replaced fields.
use archiv_agent.Base.{ℕ, ◌+◌, ◌^◌, ◌≤◌, ◌<◌, ◌≡◌, refl, ap, arith, List, [], ◌∷◌, ◌++◌}
use archiv_agent.Base.{length, Option, none, some, ltb, Bool-cases, inl, inr}
use archiv_agent.Base.{Safe, safe_ok, safe_err, Safe-bind}
use archiv_agent.Wire.{Bytes, Range}
use archiv_agent.Envelope.{MaskId}
use archiv_agent.Export.Segment.{MaskTable, bytes, Part, raw, mask}
use archiv_agent.Export.Segment.{Seg, Segs}
use archiv_agent.Export.Spans.{Span}
use archiv_agent.Export.Spans.Disjoint.{Chain}
use archiv_agent.Export.Build.{Child, unchanged, dropped, rebuilt, Splice, raw_up_to, push_mask}
use archiv_agent.Export.Build.{known_mask, splice_loop, splice_spans, Build, verbatim_run}
use archiv_agent.Export.Build.{replace, finish, adopt, adopt_rebuilt, adopt_scalar}
use archiv_agent.Export.Emit.Rendered.{or_empty, parts_len, GoodPart, AllGood, done, more, Good}
use archiv_agent.Export.Emit.Rendered.{
  good_verbatim, good_nested, good_scalar, GoodAll, GoodAll-push_seg,
}

pub known_mask-Safe :
    (m : MaskId) (known : Option Bytes) → Safe (λ b. known ≡ some b) (known_mask m known)
known_mask-Safe m none = safe_err
known_mask-Safe m (some b) = safe_ok refl

module _ (buf : Bytes) (masks : MaskTable) where
  AllGood-snoc :
      {parts : List Part} (p : Part)
      → AllGood buf masks parts
      → GoodPart buf masks p
      → AllGood buf masks (parts ++ p ∷ [])
  AllGood-snoc p done g = more g done
  AllGood-snoc p (more h hs) g = more h (AllGood-snoc p hs g)

  parts_len-snoc :
      (parts : List Part) (p : Part)
      → parts_len buf masks (parts ++ p ∷ [])
        ≡ parts_len buf masks parts + parts_len buf masks (p ∷ [])
  unfolding parts_len
  parts_len-snoc [] p = omega arith
  parts_len-snoc (raw r ∷ parts) p = omega (arith, parts_len-snoc parts p)
  parts_len-snoc (mask m ∷ parts) p = omega (arith, parts_len-snoc parts p)

  -- What the loop over the spans has: good parts, and their size.
  pub record Spliced (s : Splice) : Type 0 where
    pub all_good : AllGood buf masks s.parts
    pub sized : s.size ≡ parts_len buf masks s.parts

  pub raw_up_to-Spliced :
      (to : ℕ) (s : Splice) → to ≤ length buf → Spliced s → Spliced (raw_up_to to s)
  unfolding parts_len
  raw_up_to-Spliced to s inside h = elim (Bool-cases (ltb s.cursor to)) [
    | inl e ↦ rw e (record {
      all_good =
          AllGood-snoc (raw (record { start = s.cursor; end = to })) h.all_good
            (ground arith, inside);
      sized =
          omega
            (arith, h.sized, parts_len-snoc s.parts (raw (record { start = s.cursor; end = to })));
    })
    | inr e ↦ rw e h
  ]

  push_mask-Spliced :
      (m : MaskId) (b : Bytes) (end : ℕ) (s : Splice)
      → bytes masks m ≡ some b
      → Spliced s
      → Spliced (push_mask m b end s)
  unfolding parts_len
  push_mask-Spliced m b end s e h = record {
    all_good = AllGood-snoc (mask m) h.all_good (b, e);
    sized =
        omega (arith, h.sized, parts_len-snoc s.parts (mask m), ap (λ x. length (or_empty x)) e);
  }

  pub splice_loop-Spliced :
      (cursor limit : ℕ) (spans : List Span) (s : Splice)
      → limit ≤ length buf
      → Chain cursor limit spans
      → Spliced s
      → Safe Spliced (splice_loop masks spans s)
  unfolding splice_loop
  splice_loop-Spliced cursor limit [] s inside c h = safe_ok h
  splice_loop-Spliced cursor limit ((r, m) ∷ spans) s inside (_, ordered, ends, c) h =
      Safe-bind _ _ (known_mask-Safe m (bytes masks m)) λ b e.
        splice_loop-Spliced r.end limit spans _ inside c
          (push_mask-Spliced m b r.end _ e (raw_up_to-Spliced r.start s (omega arith) h))

  abbrev pub GoodOption : Option Seg → Type 0
  GoodOption none = Unit
  GoodOption (some seg) = Good buf masks seg

  abbrev pub GoodChild : Child → Type 0
  GoodChild unchanged = Unit
  GoodChild dropped = Unit
  GoodChild (rebuilt segs) = GoodAll buf masks segs

  pub splice_spans-Good :
      (field : ℕ) (window : Range) (spans : List Span)
      → field < 2 ^ 32
      → window.end ≤ length buf
      → Chain window.start window.end spans
      → Safe GoodOption (splice_spans field window masks spans)
  unfolding splice_spans parts_len
  splice_spans-Good field window [] f inside c = safe_ok tt
  splice_spans-Good field window (x ∷ spans) f inside c =
      let s : Splice = record { parts = []; size = 0; cursor = window.start } in
      Safe-bind GoodOption _
        (splice_loop-Spliced window.start window.end (x ∷ spans) s inside c
          (record { all_good = done; sized = refl }))
        λ s h.
          let h' = raw_up_to-Spliced window.end s inside h in
          safe_ok (good_scalar f h'.sized h'.all_good)

  verbatim_run-Good :
      (run to : ℕ) (segs : Segs)
      → to ≤ length buf
      → GoodAll buf masks segs
      → GoodAll buf masks (verbatim_run run to segs)
  verbatim_run-Good run to segs inside h = elim (Bool-cases (ltb run to)) [
    | inl e ↦ rw e (GoodAll-push_seg _ _ _ (good_verbatim (ground arith, inside)) h)
    | inr e ↦ rw e h
  ]

  replace-Good :
      (seg : Option Seg) (tag_start pos : ℕ) (b : Build)
      → tag_start ≤ length buf
      → GoodOption seg
      → GoodAll buf masks b.segs
      → GoodAll buf masks (replace seg tag_start pos b).segs
  replace-Good none tag_start pos b inside g h = verbatim_run-Good b.run tag_start b.segs inside h
  replace-Good (some seg) tag_start pos b inside g h =
      GoodAll-push_seg _ _ seg g (verbatim_run-Good b.run tag_start b.segs inside h)

  pub finish-Good :
      (window : Range) (b : Build)
      → window.end ≤ length buf
      → GoodAll buf masks b.segs
      → GoodChild (finish window b)
  finish-Good window b inside h = elim (Bool-cases b.changed) [
    | inl e ↦ rw e (verbatim_run-Good b.run window.end b.segs inside h)
    | inr e ↦ rw e tt
  ]

  pub adopt-Good :
      (field : ℕ) (child : Child) (tag_start pos : ℕ) (b : Build)
      → field < 2 ^ 32
      → tag_start ≤ length buf
      → GoodChild child
      → GoodAll buf masks b.segs
      → GoodAll buf masks (adopt field child tag_start pos b).segs
  adopt-Good field unchanged tag_start pos b f inside g h = h
  adopt-Good field dropped tag_start pos b f inside g h =
      replace-Good none tag_start pos b inside tt h
  adopt-Good field (rebuilt inner) tag_start pos b f inside g h =
      replace-Good (some _) tag_start pos b inside (good_nested f refl g) h

  pub adopt_rebuilt-Good :
      (field : ℕ) (child : Child) (tag_start pos : ℕ) (b : Build)
      → field < 2 ^ 32
      → tag_start ≤ length buf
      → GoodChild child
      → GoodAll buf masks b.segs
      → GoodAll buf masks (adopt_rebuilt field child tag_start pos b).segs
  adopt_rebuilt-Good field unchanged tag_start pos b f inside g h = h
  adopt_rebuilt-Good field dropped tag_start pos b f inside g h = h
  adopt_rebuilt-Good field (rebuilt inner) tag_start pos b f inside g h =
      replace-Good (some _) tag_start pos b inside (good_nested f refl g) h

  pub adopt_scalar-Good :
      (seg : Option Seg) (tag_start pos : ℕ) (b : Build)
      → tag_start ≤ length buf
      → GoodOption seg
      → GoodAll buf masks b.segs
      → GoodAll buf masks (adopt_scalar seg tag_start pos b).segs
  adopt_scalar-Good none tag_start pos b inside g h = h
  adopt_scalar-Good (some seg) tag_start pos b inside g h =
      replace-Good (some seg) tag_start pos b inside g h
