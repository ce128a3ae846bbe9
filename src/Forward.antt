-- ===== src/Forward.antt =====
-- The forwarder of src/forward.rs. The HTTP client is a parameter: what it answers to a POST of a body.
use archiv_agent.Base.{
  ℕ, [], ◌∷◌, ◌++◌, reverse, Bool, leb, ltb, ◌==◌, ◌&&◌, ◌||◌, not, if◌then◌else◌,
}
use archiv_agent.Base.{bytes_eq, codes, take, length, Run, ok, err}
use archiv_agent.Wire.{Bytes}
use archiv_agent.Export.Emit.{AssembledPayload, contiguous}

-- `hyper`: the request cannot be built, it cannot be sent, or the destination answers with a status.
pub data Reply : Type 0 where
  unbuilt : Reply
  unsent : Reply
  answered : ℕ → Reply

-- `client.request(..)`: the URL and the body of the POST.
abbrev pub HttpClient : Type 0
HttpClient = Bytes → Bytes → Reply

pub data ForwardError : Type 0 where
  unsupported_scheme : Bytes → ForwardError
  request_error : ForwardError
  send_error : ForwardError
  status_error : ℕ → ForwardError

abbrev pub starts_with : Bytes → Bytes → Bool
starts_with pre s = bytes_eq (take (length pre) s) pre

abbrev pub drop_slashes : Bytes → Bytes
drop_slashes [] = []
drop_slashes (c ∷ s) = if c == b'/' then drop_slashes s else c ∷ s

-- `trim_end_matches('/')`
unfoldable pub trim_end : Bytes → Bytes
trim_end s = reverse (drop_slashes (reverse s))

unfoldable pub logs_url : Bytes → Bytes
logs_url endpoint = trim_end endpoint ++ codes "/v1/logs"

unfoldable pub has_scheme : Bytes → Bool
has_scheme endpoint =
    starts_with (codes "http://") endpoint || starts_with (codes "https://") endpoint

-- `StatusCode::is_success`
abbrev pub is_success : ℕ → Bool
is_success status = leb 200 status && ltb status 300

abbrev pub settle_reply : Reply → Run ForwardError (Unit {0})
settle_reply unbuilt = err request_error
settle_reply unsent = err send_error
settle_reply (answered status) = if is_success status then ok tt else err (status_error status)

unfoldable pub forward : HttpClient → Bytes → AssembledPayload → Run ForwardError (Unit {0})
forward client endpoint payload =
    if not (has_scheme endpoint)
    then err (unsupported_scheme endpoint)
    else settle_reply (client (logs_url endpoint) (contiguous payload))
