-- ===== src/Forward/Post.antt =====
-- postWithRetry of fwDCS/internal/forwarder/forwarder.go. What the Aggregator and the network answer
-- is a parameter.
pub mod Laws
use dcim_data_reader.Prelude.{
  ℕ, suc, Bool, true, false, not, ◌&&◌, ◌||◌, Option, none, some, List, [], ◌∷◌, ltb, leb,
  if◌then◌else◌, String,
}
use dcim_data_reader.Forward.Payload.{AggPayload}

pub record AggResponse : Type 0 where
  pub success : Bool
  pub message : String
  pub devices : ℕ
  pub topology_links : ℕ
  pub events : ℕ

-- What a POST meets: no answer, or a status and the body as it decodes.
pub data Reply : Type 0 where
  network_error : Reply
  reply : ℕ → Option AggResponse → Reply

pub data PostError : Type 0 where
  marshal_failed : PostError
  cancelled : PostError
  bad_request : PostError
  http_status : ℕ → PostError
  not_decoded : PostError
  rejected : String → PostError
  exhausted : PostError

pub data Posted : Type 0 where
  accepted : AggResponse → Posted
  failed : PostError → Posted

-- What the posts of a payload meet, by the number of the attempt: whether the context ends in the
-- delay before it, and the reply.
pub record Aggregator (V : Type 0) : Type 0 where
  pub marshals : AggPayload V → Bool
  pub builds_request : Bool
  pub stops : AggPayload V → ℕ → Bool
  pub answers : AggPayload V → ℕ → Reply

-- The delays before the attempts, in milliseconds.
abbrev pub delays : List ℕ
delays = 0 ∷ 2000 ∷ 5000 ∷ []

unfoldable pub is_success : ℕ → Bool
is_success status = leb 200 status && ltb status 300

unfoldable pub is_client_error : ℕ → Bool
is_client_error status = leb 400 status && ltb status 500

-- A decoded body.
unfoldable pub judge_body : Option AggResponse → Posted
judge_body none = failed not_decoded
judge_body (some ar) = if ar.success then accepted ar else failed (rejected ar.message)

-- A reply, and what a further attempt gives.
unfoldable pub judge_reply : Reply → Posted → Posted
unfolding is_success is_client_error judge_body
judge_reply network_error later = later
judge_reply (reply status body) later =
    if is_success status
    then judge_body body
    else if is_client_error status
    then failed (http_status status)
    else later

module _ (V : Type 0) (agg : Aggregator V) (p : AggPayload V) where
  -- The loop over the delays, from an attempt on.
  unfoldable pub post_from : List ℕ → ℕ → Posted
  unfolding judge_reply
  post_from [] attempt = failed exhausted
  post_from (delay ∷ rest) attempt =
      let later = post_from rest (suc attempt) in
      if ltb 0 delay && agg.stops p attempt
      then failed cancelled
      else if not agg.builds_request
      then failed bad_request
      else judge_reply (agg.answers p attempt) later

  unfoldable pub post_with_retry : Posted
  unfolding post_from
  post_with_retry = if agg.marshals p then post_from delays 0 else failed marshal_failed
