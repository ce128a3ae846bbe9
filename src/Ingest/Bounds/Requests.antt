-- ===== src/Ingest/Bounds/Requests.antt =====
-- The walk from a log record up to the whole request.
use archiv_agent.Base.{ℕ, ◌≤◌, arith, List, [], ◌∷◌, Option, none, some}
use archiv_agent.Base.{Bool, true, false, ◌==◌, if◌then◌else◌, ◌&&◌, length, All, All-append}
use archiv_agent.Base.{Safe, safe_ok, Safe-bind, Safe-if}
use archiv_agent.Wire.{Bytes, Range, new}
use archiv_agent.Wire.Safety.{kept_next, varint-Safe, walk-Safe}
use archiv_agent.Envelope.{AttrView, RecordView}
use archiv_agent.Ingest.{same, LogFields, ResourceAttrs, no_attrs, no_fields, set_body, push_attr}
use archiv_agent.Ingest.{log_field, record_of, parse_log_record, scope_field, parse_scope_logs}
use archiv_agent.Ingest.{resource_logs_field, parse_scopes, parse_resource_logs, request_field}
use archiv_agent.Ingest.{parse_export_logs_request}
use archiv_agent.Ingest.Bounds.Fields.{IsView, IsOptView, IsAttrView, IsOptAttr, IsResource}
use archiv_agent.Ingest.Bounds.Fields.{IsRecordView, Moved-Onward, At-IsInside, new-At}
use archiv_agent.Ingest.Bounds.Fields.{skip_field-Safe, delimited-Safe, any_value_string-Safe}
use archiv_agent.Ingest.Bounds.Fields.{parse_key_value-Safe, parse_resource_attrs-Safe}

record IsFields (n : ℕ) (l : LogFields) : Type 0 where
  body : IsView n l.body
  trace_id : IsOptView n l.trace_id
  attrs : All (IsAttrView n) l.attrs

IsFields-set_body :
    (n : ℕ) (s : Option Range) (l : LogFields)
    → IsOptView n s
    → IsFields n l
    → IsFields n (set_body s l)
IsFields-set_body n none l h i = i
IsFields-set_body n (some r) l h i = record { body = h; trace_id = i.trace_id; attrs = i.attrs }

IsFields-push_attr :
    (n : ℕ) (a : Option AttrView) (l : LogFields)
    → IsOptAttr n a
    → IsFields n l
    → IsFields n (push_attr a l)
IsFields-push_attr n none l h i = i
IsFields-push_attr n (some a) l h i = record {
  body = i.body;
  trace_id = i.trace_id;
  attrs = All-append _ l.attrs _ i.attrs (h, tt);
}

IsFields-set_trace_id :
    (n : ℕ) (r : Range) (l : LogFields) (b : Bool)
    → IsView n r
    → IsFields n l
    → IsFields n (if b then record l { trace_id = some r } else l)
IsFields-set_trace_id n r l true h i = record { body = i.body; trace_id = h; attrs = i.attrs }
IsFields-set_trace_id n r l false h i = i

module _ (buf : Bytes) (window : Range) (h : IsView (length buf) window) where
  parse_log_record-Safe :
      (r : ResourceAttrs)
      → IsResource (length buf) r
      → Safe (IsRecordView (length buf)) (parse_log_record buf window r)
  unfolding parse_log_record
  parse_log_record-Safe r hr =
      walk-Safe same (IsFields (length buf)) (IsRecordView (length buf)) buf window.end h.1
        (log_field buf) (record_of r) (no_fields window) (new buf window)
        (λ l i. record {
          body = i.body;
          trace_id = i.trace_id;
          attrs = i.attrs;
          namespace = hr.0;
          service_name = hr.1;
        })
        (λ l start field wire c i a _.
          Safe-if _ (field == 2 && wire == 0)
            (λ _. Safe-bind _ _ (varint-Safe c (At-IsInside a h.1)) λ (v, c') m. safe_ok (
              kept_next (record { body = i.body; trace_id = i.trace_id; attrs = i.attrs })
                (Moved-Onward m)))
            λ _.
              Safe-if _ (field == 5 && wire == 2)
                (λ _. delimited-Safe _ c a h.1 _ λ av c' v o.
                  Safe-bind _ _ (any_value_string-Safe buf av v)
                    λ s w. safe_ok (kept_next (IsFields-set_body _ s l w i) o))
                λ _.
                  Safe-if _ (field == 6 && wire == 2)
                    (λ _. delimited-Safe _ c a h.1 _ λ kv c' v o.
                      Safe-bind _ _ (parse_key_value-Safe buf kv v)
                        λ s w. safe_ok (kept_next (IsFields-push_attr _ s l w i) o))
                    λ _.
                      Safe-if _ (field == 9 && wire == 2)
                        (λ _.
                          delimited-Safe _ c a h.1 _
                            λ t c' v o. safe_ok (kept_next (IsFields-set_trace_id _ t l _ v i) o))
                        (λ _. skip_field-Safe _ _ c l wire (At-IsInside a h.1) i))
        (new-At buf window)
        (record { body = (omega arith, omega arith); trace_id = tt; attrs = tt })

abbrev AreViews : ℕ → List RecordView → Type 0
AreViews n = All (IsRecordView n)

module _ (buf : Bytes) (window : Range) (h : IsView (length buf) window) where
  parse_scope_logs-Safe :
      (r : ResourceAttrs) (out : List RecordView)
      → IsResource (length buf) r
      → AreViews (length buf) out
      → Safe (AreViews (length buf)) (parse_scope_logs buf window r out)
  unfolding parse_scope_logs
  parse_scope_logs-Safe r out hr ho =
      walk-Safe same (AreViews (length buf)) (AreViews (length buf)) buf window.end h.1
        (scope_field buf r) (λ o. o) out (new buf window) (λ _ i. i)
        (λ out' start field wire c i a _.
          Safe-if _ (field == 2 && wire == 2)
            (λ _. delimited-Safe _ c a h.1 _ λ lr c' v o.
              Safe-bind _ _ (parse_log_record-Safe buf lr v r hr)
                λ rec w. safe_ok (kept_next (All-append _ out' _ i (w, tt)) o))
            (λ _. skip_field-Safe _ _ c out' wire (At-IsInside a h.1) i))
        (new-At buf window) ho

parse_scopes-Safe :
    (buf : Bytes) (r : ResourceAttrs) (ws : List Range) (out : List RecordView)
    → IsResource (length buf) r
    → All (IsView (length buf)) ws
    → AreViews (length buf) out
    → Safe (AreViews (length buf)) (parse_scopes buf r ws out)
parse_scopes-Safe buf r [] out hr hw ho = safe_ok ho
parse_scopes-Safe buf r (w ∷ ws) out hr hw ho =
    Safe-bind _ _ (parse_scope_logs-Safe buf w hw.0 r out hr ho)
      λ out' ho'. parse_scopes-Safe buf r ws out' hr hw.1 ho'

module _ (buf : Bytes) (window : Range) (h : IsView (length buf) window) where
  parse_resource_logs-Safe :
      (out : List RecordView)
      → AreViews (length buf) out
      → Safe (AreViews (length buf)) (parse_resource_logs buf window out)
  unfolding parse_resource_logs
  parse_resource_logs-Safe out ho =
      Safe-bind _ _
        (walk-Safe same (λ s. IsResource (length buf) s.0 × All (IsView (length buf)) s.1)
          (λ s. IsResource (length buf) s.0 × All (IsView (length buf)) s.1) buf window.end h.1
          (resource_logs_field buf) (λ s. s) (no_attrs, []) (new buf window) (λ _ i. i)
          (λ (r, scopes) start field wire c i a _.
            Safe-if _ (field == 1 && wire == 2)
              (λ _. delimited-Safe _ c a h.1 _ λ res c' v o.
                Safe-bind _ _ (parse_resource_attrs-Safe buf res v)
                  λ attrs w. safe_ok (kept_next (w, i.1) o))
              λ _.
                Safe-if _ (field == 2 && wire == 2)
                  (λ _.
                    delimited-Safe _ c a h.1 _
                      λ w c' v o. safe_ok (kept_next (i.0, All-append _ scopes _ i.1 (v, tt)) o))
                  (λ _. skip_field-Safe _ _ c (r, scopes) wire (At-IsInside a h.1) i))
          (new-At buf window) ((tt, tt), tt))
        λ (r, scopes) i. parse_scopes-Safe buf r scopes out i.0 i.1 ho

-- On every buffer the parser ends without a panic: it returns record views whose ranges are all in
-- order and inside the buffer, or a parse error.
pub parse_export_logs_request-Safe :
    (buf : Bytes) → Safe (All (IsRecordView (length buf))) (parse_export_logs_request buf)
unfolding parse_export_logs_request
parse_export_logs_request-Safe buf =
    let whole : Range = record { start = 0; end = length buf } in
    let inside : length buf ≤ length buf = omega arith in
    walk-Safe same (AreViews (length buf)) (AreViews (length buf)) buf (length buf) inside
      (request_field buf) (λ o. o) [] (new buf whole) (λ _ i. i)
      (λ out start field wire c i a _.
        Safe-if _ (field == 1 && wire == 2)
          (λ _. delimited-Safe _ c a inside _ λ rl c' v o.
            Safe-bind _ _ (parse_resource_logs-Safe buf rl v out i)
              λ out' w. safe_ok (kept_next w o))
          (λ _. skip_field-Safe _ _ c out wire (At-IsInside a inside) i))
      (new-At buf whole) tt
