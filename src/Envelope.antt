-- ===== src/Envelope.antt =====
-- The unit of work of crates/archiv-pipeline/src/envelope.rs: views into the raw request, sampling
-- verdicts and redaction spans. Vectors are lists; `received_at` is a timestamp that nothing reads,
-- and is left out. A stage id is its name.
pub mod TraceId
pub mod Staging
use archiv_agent.Base.{ℕ, ◌+◌, ◌-◌, ◌*◌, ◌%◌, bit_or, List, [], ◌∷◌, ◌++◌, Option, none, some}
use archiv_agent.Base.{
  Bool, true, false, leb, ◌==◌, if◌then◌else◌, ◌&&◌, ◌||◌, length, get_elem?, not,
}
use archiv_agent.Base.{bytes_eq}
use archiv_agent.Base.Int.{ℤ}
use archiv_agent.Wire.{Bytes, Range, get_range}
use Prim.Native.String.{String}
use text.Mathlib.Text.{◌==◌ as str_eq}

pub record AttrView : Type 0 where
  pub key : Range
  pub value : Range

pub record RecordView : Type 0 where
  pub body : Range
  pub trace_id : Option Range
  pub attrs : List AttrView
  pub severity_number : Option ℤ
  pub namespace : Option Range
  pub service_name : Option Range

-- `raw.get(r.start..r.end)` behind an optional range.
abbrev pub get_view : Bytes → Option Range → Option Bytes
get_view raw none = none
get_view raw (some r) = get_range raw r

unfoldable pub nibble : ℕ → Option ℕ
nibble b =
    if leb b'0' b && leb b b'9'
    then some (b - b'0')
    else if leb b'a' b && leb b b'f'
    then some (b - b'a' + 10)
    else if leb b'A' b && leb b b'F'
    then some (b - b'A' + 10)
    else none

-- `(nibble(pair[0])? << 4) | nibble(pair[1])?`, a `u8`
unfoldable pub hex_pair : ℕ → ℕ → Option ℕ
hex_pair a b = elim (nibble a) [
  | none ↦ none
  | some hi ↦ elim (nibble b) [ none ↦ none | some lo ↦ some (bit_or (hi * 16 % 256) lo) ]
]

abbrev pub cons_pair : Option ℕ → Option Bytes → Option Bytes
cons_pair (some v) (some out) = some (v ∷ out)
cons_pair _ _ = none

-- The loop over `hex.chunks_exact(2)`, where either `?` ends it; a last odd byte is no chunk.
unfoldable pub decode_pairs : Bytes → Option Bytes
decode_pairs (a ∷ b ∷ hex) = cons_pair (hex_pair a b) (decode_pairs hex)
decode_pairs _ = some []

unfoldable pub decode_hex_16 : Bytes → Option Bytes
decode_hex_16 hex = if not (length hex == 32) then none else decode_pairs hex

-- `trace_id_bytes`, on the slice that the range selects.
abbrev pub decode_trace_id : Option Bytes → Option Bytes
decode_trace_id none = none
decode_trace_id (some src) =
    if length src == 16 then some src else if length src == 32 then decode_hex_16 src else none

unfoldable pub trace_id_bytes : RecordView → Bytes → Option Bytes
trace_id_bytes rec raw = decode_trace_id (get_view raw rec.trace_id)

unfoldable pub namespace_bytes : RecordView → Bytes → Option Bytes
namespace_bytes rec raw = get_view raw rec.namespace

unfoldable pub service_name_bytes : RecordView → Bytes → Option Bytes
service_name_bytes rec raw = get_view raw rec.service_name

-- `MaskId(u32)`: an index into the mask table.
abbrev pub MaskId : Type 0
MaskId = ℕ

pub record Redaction : Type 0 where
  pub target : Range
  pub mask : MaskId

pub data SampleVerdict : Type 0 where
  keep drop : SampleVerdict

abbrev pub StageId : Type 0
StageId = String

pub record StageRedaction : Type 0 where
  pub stage : StageId
  pub record_idx : ℕ
  pub redaction : Redaction

pub record Decisions : Type 0 where
  pub sampling : List SampleVerdict
  pub redactions : List StageRedaction

abbrev pub no_decisions : Decisions
no_decisions = record { sampling = []; redactions = [] }

abbrev pub stage_sample : StageId
stage_sample = "sample"

unfoldable pub set_sampling : List SampleVerdict → Decisions → Decisions
set_sampling verdicts d = record d { sampling = verdicts }

abbrev pub verdict_or_keep : Option SampleVerdict → SampleVerdict
verdict_or_keep none = keep
verdict_or_keep (some v) = v

unfoldable pub sampling_verdict : Decisions → ℕ → SampleVerdict
sampling_verdict d idx = verdict_or_keep (get_elem? d.sampling idx)

unfoldable pub push_redaction : StageId → ℕ → Redaction → Decisions → Decisions
push_redaction stage idx r d = record d {
  redactions = d.redactions ++ record { stage = stage; record_idx = idx; redaction = r } ∷ [];
}

abbrev pub select : ℕ → List StageRedaction → List Redaction
select idx [] = []
select idx (r ∷ rs) = if r.record_idx == idx then r.redaction ∷ select idx rs else select idx rs

unfoldable pub redactions_for : Decisions → ℕ → List Redaction
redactions_for d idx = select idx d.redactions

abbrev pub contains_drop : List SampleVerdict → Bool
contains_drop [] = false
contains_drop (drop ∷ vs) = true
contains_drop (keep ∷ vs) = contains_drop vs

unfoldable pub any_dropped : Decisions → Bool
any_dropped d = contains_drop d.sampling

unfoldable pub redaction_total : Decisions → ℕ
redaction_total d = length d.redactions

-- `retain(|r| r.stage != id)`
abbrev pub retain_others : StageId → List StageRedaction → List StageRedaction
retain_others id [] = []
retain_others id (r ∷ rs) =
    if str_eq r.stage id then retain_others id rs else r ∷ retain_others id rs

unfoldable pub clear_stage : StageId → Decisions → Decisions
clear_stage id d = record {
  sampling = if str_eq id stage_sample then [] else d.sampling;
  redactions = retain_others id d.redactions;
}

pub record Envelope : Type 0 where
  pub raw : Bytes
  pub records : List RecordView
  pub decisions : Decisions

unfoldable pub new : Bytes → Envelope
new raw = record { raw = raw; records = []; decisions = no_decisions }
