-- ===== src/Grpc/Acks.antt =====
-- The statuses of `handle_grpc` in src/grpc.rs against the verdicts.
use archiv_agent.Base.{
  ℕ, ◌+◌, ◌%◌, ◌^◌, ◌≤◌, ◌<◌, ◌≡◌, ◌≢◌, refl, ap, arith, ◌∷◌, ◌++◌, Option, none, some, true, false,
  bytes_eq, bytes_eq_iff, codes, length, length-append, not, ◌||◌, if_case, or_not, or_differs,
  bytes_eq-differs, ◌⊎◌, ◌↔◌,
}
use archiv_agent.Wire.{Bytes}
use archiv_agent.Server.{Verdict, accepted, malformed, forward_failed}
use archiv_agent.Server.Http.{BodyReader, IsLimited, Request}
use archiv_agent.Grpc.{
  GrpcResponse, grpc_response, status_value, Framed, respond, is_grpc, submit_framed, submit_body,
  handle_grpc, logs_export_path,
}
use archiv_agent.Grpc.Frames.{
  IsFrame, IsCompressed, IsCutOff, IsRead, reads_whole, reads_compressed, reads_cut_off,
  read_frame-IsRead,
}

-- HTTP 200 with that status, and no message.
abbrev pub refusal : Bytes → GrpcResponse
refusal code = record { message = none; trailer = code }

-- A gRPC POST to the logs service.
pub record IsExport {b : BodyReader} (req : Request b) : Type 0 where
  pub method : req.method ≡ codes "POST"
  pub path : req.path ≡ logs_export_path
  pub content_type : is_grpc req.content_type ≡ true

-- What a response stands for: the state is what `submit` left, or as it was.
pub data IsAnswered {T : Type 0} (b : BodyReader) (max : ℕ) (submit : Bytes → T × Verdict)
    (req : Request b) (st st' : T) (r : GrpcResponse) : Type 0 where
  -- Another method or path is UNIMPLEMENTED.
  unimplemented :
      (req.method ≢ codes "POST") ⊎ (req.path ≢ logs_export_path)
      → r ≡ refusal (codes "12")
      → st' ≡ st
      → IsAnswered b max submit req st st' r
  -- Another content type is INVALID_ARGUMENT.
  not_grpc :
      req.method ≡ codes "POST"
      → req.path ≡ logs_export_path
      → is_grpc req.content_type ≡ false
      → r ≡ refusal (codes "3")
      → st' ≡ st
      → IsAnswered b max submit req st st' r
  -- A body that could not be read within the limit is RESOURCE_EXHAUSTED.
  too_large :
      IsExport req
      → b.collect (max + 5) req.body ≡ none
      → r ≡ refusal (codes "8")
      → st' ≡ st
      → IsAnswered b max submit req st st' r
  -- A compressed frame is UNIMPLEMENTED.
  compressed :
      {framed : Bytes}
      → IsExport req
      → b.collect (max + 5) req.body ≡ some framed
      → IsCompressed framed
      → r ≡ refusal (codes "12")
      → st' ≡ st
      → IsAnswered b max submit req st st' r
  -- A frame that is cut off is INVALID_ARGUMENT.
  cut_off :
      {framed : Bytes}
      → IsExport req
      → b.collect (max + 5) req.body ≡ some framed
      → IsCutOff framed
      → r ≡ refusal (codes "3")
      → st' ≡ st
      → IsAnswered b max submit req st st' r
  -- The message was submitted.
  answered :
      {framed : Bytes} (raw : Bytes) (v : Verdict)
      → IsExport req
      → b.collect (max + 5) req.body ≡ some framed
      → IsFrame framed raw
      → length raw ≤ max
      → submit raw ≡ (st', v)
      → (r.trailer ≡ codes "0") ↔ (v ≡ accepted)
      → (r.trailer ≡ codes "3") ↔ (v ≡ malformed)
      → (r.trailer ≡ codes "14") ↔ (v ≡ forward_failed)
      → IsAnswered b max submit req st st' r

respond_iff :
    (v : Verdict)
    → (((respond v).trailer ≡ codes "0") ↔ (v ≡ accepted))
      × (((respond v).trailer ≡ codes "3") ↔ (v ≡ malformed))
      × (((respond v).trailer ≡ codes "14") ↔ (v ≡ forward_failed))
unfolding respond grpc_response status_value
respond_iff accepted = (
  (λ _. refl, λ _. refl),
  (λ e. absurd (bytes_eq-differs _ _ refl e), λ e. cc),
  (λ e. absurd (bytes_eq-differs _ _ refl e), λ e. cc),
)
respond_iff malformed = (
  (λ e. absurd (bytes_eq-differs _ _ refl e), λ e. cc),
  (λ _. refl, λ _. refl),
  (λ e. absurd (bytes_eq-differs _ _ refl e), λ e. cc),
)
respond_iff forward_failed = (
  (λ e. absurd (bytes_eq-differs _ _ refl e), λ e. cc),
  (λ e. absurd (bytes_eq-differs _ _ refl e), λ e. cc),
  (λ _. refl, λ _. refl),
)

module _ {T : Type 0} (b : BodyReader) (max : ℕ) (submit : Bytes → T × Verdict) (req : Request b)
    (st : T) where
  abbrev Answered : T × GrpcResponse → Type 0
  Answered a = IsAnswered b max submit req st a.0 a.1

  submit_body-Answered :
      (o : Option Bytes)
      → IsLimited b
      → b.collect (max + 5) req.body ≡ o
      → IsExport req
      → Answered (submit_body submit st o)
  unfolding grpc_response status_value
  submit_body-Answered none limited e x = too_large x e refl refl
  submit_body-Answered (some framed) limited e x = go (read_frame-IsRead framed)
    where
      go : {f : Framed} → IsRead framed f → Answered (submit_framed submit st f)
      go (reads_compressed k) = compressed x e k refl refl
      go (reads_cut_off k) = cut_off x e k refl refl
      go (reads_whole {raw} h) =
          let r = respond_iff (submit raw).1 in
          let room : length framed ≤ max + 5 = limited (max + 5) req.body framed e in
          let cut : length framed ≡ length (0 ∷ h.a ∷ h.b ∷ h.c ∷ h.d ∷ (raw ++ h.rest)) =
            ap length h.whole in
          answered raw (submit raw).1 x e h (omega (arith, room, cut, length-append raw h.rest))
            refl r.0 r.1 r.2

  -- With a body reader that keeps its limit, and a limit that leaves room for the frame's header in 64
  -- bits, `handle_grpc` answers with no message, and submits nothing: 12 to what is no POST to the logs
  -- service, and to a compressed frame; 3 to another content type, and to a frame that is cut off; 8
  -- where the reader refuses the body. Otherwise it submits the message of the frame, which is within
  -- the limit, once, and answers 0 exactly when the verdict accepts, 3 exactly when the payload is
  -- malformed, and 14 exactly when forwarding failed.
  pub handle_grpc-IsAnswered :
      IsLimited b
      → max + 5 < 2 ^ 64
      → let (st', r) = handle_grpc submit st b max req in IsAnswered b max submit req st st' r
  unfolding handle_grpc grpc_response status_value
  handle_grpc-IsAnswered limited small =
      let same : (max + 5) % 2 ^ 64 ≡ max + 5 = omega arith in
      if_case Answered
        (not (bytes_eq req.method (codes "POST")) || not (bytes_eq req.path logs_export_path))
        (λ e.
          unimplemented (or_differs req.method (codes "POST") req.path logs_export_path e) refl
            refl)
        (λ e.
          let (m, p) = or_not _ _ e in
          let method = (bytes_eq_iff req.method (codes "POST")).0 m in
          let path = (bytes_eq_iff req.path logs_export_path).0 p in
          if_case Answered (not (is_grpc req.content_type))
            (λ f. not_grpc method path (ground (arith, f)) refl refl)
            (λ f. rw same (
              submit_body-Answered _ limited refl
                (record { method = method; path = path; content_type = ground (arith, f) }))))
