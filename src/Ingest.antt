-- ===== src/Ingest.antt =====
-- The walk over an OTLP `ExportLogsServiceRequest` of crates/archiv-ingest/src/otlp.rs, and the stage
-- of crates/archiv-ingest/src/lib.rs that runs it. Each function is one field loop, on `walk`.
pub mod Bounds
use archiv_agent.Base.{ℕ, List, [], ◌∷◌, ◌++◌, Option, none, some, Bool, ◌==◌, if◌then◌else◌, ◌&&◌}
use archiv_agent.Base.{codes, ◌||◌, length, bytes_eq, Run, ok, err, panic, out_of_fuel, ◌>>=◌}
use archiv_agent.Base.Int.{ℤ, as_i32}
use archiv_agent.Wire.{Bytes, Range, range_len, get_range, ParseError, WireCursor, new, varint}
use archiv_agent.Wire.{len_range, skip, Flow, next, stop, walk}
use archiv_agent.Envelope.{AttrView, RecordView, Envelope, StageId}
use archiv_agent.Guard.{Stage, StageError, internal, Ending, finished, failed, panicked}

-- The error type of these functions is the cursor's own: `?` converts nothing.
abbrev pub same : ParseError → ParseError
same e = e

-- `_ => cur.skip(wire)?`
abbrev pub skip_field : {S A : Type 0} → S → ℕ → WireCursor → Run ParseError (Flow S A)
skip_field s wire c = do c' ← skip wire c; ok (next s c')

-- The first `string_value` ends the loop.
abbrev pub any_value_field :
    Unit {0} → ℕ → ℕ → ℕ → WireCursor → Run ParseError (Flow (Unit {0}) (Option Range))
any_value_field s start field wire c =
    if field == 1 && wire == 2
    then (do (r, _) ← len_range c; ok (stop (some r)))
    else skip_field s wire c

unfoldable pub any_value_string : Bytes → Range → Run ParseError (Option Range)
any_value_string buf window = walk same any_value_field (λ _. none) tt (new buf window)

abbrev pub KeyValue : Type 0
KeyValue = Option Range × Option Range

abbrev pub key_value_field :
    Bytes → KeyValue → ℕ → ℕ → ℕ → WireCursor → Run ParseError (Flow KeyValue (Option AttrView))
key_value_field buf (key, value) start field wire c =
    if field == 1 && wire == 2
    then (do (r, c') ← len_range c; ok (next (some r, value) c'))
    else if field == 2 && wire == 2
    then (do (av, c') ← len_range c; value' ← any_value_string buf av; ok (next (key, value') c'))
    else skip_field (key, value) wire c

-- Only an attribute with a key and a string value is a view.
abbrev pub attr_of : KeyValue → Option AttrView
attr_of (some k, some v) = some (record { key = k; value = v })
attr_of _ = none

unfoldable pub parse_key_value : Bytes → Range → Run ParseError (Option AttrView)
parse_key_value buf window = walk same (key_value_field buf) attr_of (none, none) (new buf window)

pub record ResourceAttrs : Type 0 where
  pub namespace : Option Range
  pub service_name : Option Range

abbrev pub no_attrs : ResourceAttrs
no_attrs = record { namespace = none; service_name = none }

abbrev pub match_key : Option Bytes → AttrView → ResourceAttrs → ResourceAttrs
match_key none attr r = r
match_key (some k) attr r =
    if bytes_eq k (codes "k8s.namespace.name")
    then record r { namespace = some attr.value }
    else if bytes_eq k (codes "service.name")
    then record r { service_name = some attr.value }
    else r

abbrev pub note_attr : Bytes → Option AttrView → ResourceAttrs → ResourceAttrs
note_attr buf none r = r
note_attr buf (some attr) r = match_key (get_range buf attr.key) attr r

abbrev pub resource_field :
    Bytes
    → ResourceAttrs
    → ℕ
    → ℕ
    → ℕ
    → WireCursor
    → Run ParseError (Flow ResourceAttrs ResourceAttrs)
resource_field buf r start field wire c =
    if field == 1 && wire == 2
    then (do
      (kv, c') ← len_range c
      attr ← parse_key_value buf kv
      ok (next (note_attr buf attr r) c'))
    else skip_field r wire c

unfoldable pub parse_resource_attrs : Bytes → Range → Run ParseError ResourceAttrs
parse_resource_attrs buf window = walk same (resource_field buf) (λ r. r) no_attrs (new buf window)

-- The locals of `parse_log_record`.
pub record LogFields : Type 0 where
  pub body : Range
  pub trace_id : Option Range
  pub severity_number : Option ℤ
  pub attrs : List AttrView

abbrev pub set_body : Option Range → LogFields → LogFields
set_body none l = l
set_body (some r) l = record l { body = r }

abbrev pub push_attr : Option AttrView → LogFields → LogFields
push_attr none l = l
push_attr (some a) l = record l { attrs = l.attrs ++ a ∷ [] }

abbrev pub log_field :
    {A : Type 0} → Bytes → LogFields → ℕ → ℕ → ℕ → WireCursor → Run ParseError (Flow LogFields A)
log_field buf l start field wire c =
    if field == 2 && wire == 0
    then (do (v, c') ← varint c; ok (next (record l { severity_number = some (as_i32 v) }) c'))
    else if field == 5 && wire == 2
    then (do (av, c') ← len_range c; s ← any_value_string buf av; ok (next (set_body s l) c'))
    else if field == 6 && wire == 2
    then (do (kv, c') ← len_range c; a ← parse_key_value buf kv; ok (next (push_attr a l) c'))
    else if field == 9 && wire == 2
    then (do
      (r, c') ← len_range c
      ok (
          next
            (if range_len r == 16 || range_len r == 32 then record l { trace_id = some r } else l)
            c'))
    else skip_field l wire c

abbrev pub record_of : ResourceAttrs → LogFields → RecordView
record_of r l = record {
  body = l.body;
  trace_id = l.trace_id;
  attrs = l.attrs;
  severity_number = l.severity_number;
  namespace = r.namespace;
  service_name = r.service_name;
}

-- An empty body range means no string body.
abbrev pub no_fields : Range → LogFields
no_fields window = record {
  body = record { start = window.start; end = window.start };
  trace_id = none;
  severity_number = none;
  attrs = [];
}

unfoldable pub parse_log_record : Bytes → Range → ResourceAttrs → Run ParseError RecordView
parse_log_record buf window r =
    walk same (log_field buf) (record_of r) (no_fields window) (new buf window)

abbrev pub scope_field :
    Bytes
    → ResourceAttrs
    → List RecordView
    → ℕ
    → ℕ
    → ℕ
    → WireCursor
    → Run ParseError (Flow (List RecordView) (List RecordView))
scope_field buf r out start field wire c =
    if field == 2 && wire == 2
    then (do
      (lr, c') ← len_range c
      rec ← parse_log_record buf lr r
      ok (next (out ++ rec ∷ []) c'))
    else skip_field out wire c

unfoldable pub parse_scope_logs :
    Bytes → Range → ResourceAttrs → List RecordView → Run ParseError (List RecordView)
parse_scope_logs buf window r out = walk same (scope_field buf r) (λ o. o) out (new buf window)

-- The first pass over a `ResourceLogs`: its attributes, and the windows of its scopes.
abbrev pub resource_logs_field :
    {A : Type 0}
    → Bytes
    → ResourceAttrs × List Range
    → ℕ
    → ℕ
    → ℕ
    → WireCursor
    → Run ParseError (Flow (ResourceAttrs × List Range) A)
resource_logs_field buf (r, scopes) start field wire c =
    if field == 1 && wire == 2
    then (do
      (res, c') ← len_range c
      attrs ← parse_resource_attrs buf res
      ok (next (attrs, scopes) c'))
    else if field == 2 && wire == 2
    then (do (w, c') ← len_range c; ok (next (r, scopes ++ w ∷ []) c'))
    else skip_field (r, scopes) wire c

-- The second pass.
abbrev pub parse_scopes :
    Bytes → ResourceAttrs → List Range → List RecordView → Run ParseError (List RecordView)
parse_scopes buf r [] out = ok out
parse_scopes buf r (w ∷ ws) out = do out' ← parse_scope_logs buf w r out; parse_scopes buf r ws out'

unfoldable pub parse_resource_logs :
    Bytes → Range → List RecordView → Run ParseError (List RecordView)
parse_resource_logs buf window out = do
  (r, scopes) ← walk same (resource_logs_field buf) (λ s. s) (no_attrs, []) (new buf window)
  parse_scopes buf r scopes out

abbrev pub request_field :
    Bytes
    → List RecordView
    → ℕ
    → ℕ
    → ℕ
    → WireCursor
    → Run ParseError (Flow (List RecordView) (List RecordView))
request_field buf out start field wire c =
    if field == 1 && wire == 2
    then (do (rl, c') ← len_range c; out' ← parse_resource_logs buf rl out; ok (next out' c'))
    else skip_field out wire c

unfoldable pub parse_export_logs_request : Bytes → Run ParseError (List RecordView)
parse_export_logs_request buf =
    walk same (request_field buf) (λ o. o) [] (new buf (record { start = 0; end = length buf }))

abbrev pub stage_parse : StageId
stage_parse = "parse"

-- `ParseStage::apply`: the views replace the records only if the whole request parses.
abbrev pub parse_ending : Envelope → Run ParseError (List RecordView) → Envelope × Ending
parse_ending env (ok records) = (record env { records = records }, finished)
parse_ending env (err e) = (env, failed (internal "malformed OTLP logs payload"))
parse_ending env panic = (env, panicked)
parse_ending env out_of_fuel = (env, panicked)

unfoldable pub parse_apply : Unit {0} → Envelope → Unit {0} × Envelope × Ending
parse_apply s env =
    let (env', e) = parse_ending env (parse_export_logs_request env.raw) in (s, env', e)

abbrev pub parse_stage : Stage (Unit {0})
parse_stage = record { id = stage_parse; apply = parse_apply }
