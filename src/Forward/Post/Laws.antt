-- ===== src/Forward/Post/Laws.antt =====
-- When postWithRetry succeeds (fwDCS/internal/forwarder/forwarder.go).
use dcim_data_reader.Prelude.{
  ℕ, zero, suc, ◌++◌, All, All-append, ◌+◌, ◌≤◌, ◌<◌, ◌≡◌, subst, ◌==◌, true, none, some, List, [],
  ◌∷◌, length, arith, inl, inr, ◌⊎◌, Bool-cases,
}
use dcim_data_reader.Forward.Payload.{AggPayload}
use dcim_data_reader.Forward.Post.{
  AggResponse, Reply, network_error, reply, Posted, accepted, Aggregator, delays, is_success,
  is_client_error, judge_body, judge_reply, post_from, post_with_retry,
}

-- A reply after which the post is tried again: none, or a status that is neither a success nor a
-- client error.
unfoldable pub IsRetried : Reply → Type 0
IsRetried network_error = Unit
IsRetried (reply status body) =
    (status < 200) ⊎ (((300 ≤ status) × (status < 400)) ⊎ (500 ≤ status))

-- A reply that accepts the payload.
unfoldable pub Accepts : AggResponse → Reply → Type 0
Accepts ar network_error = ⊥
Accepts ar (reply status body) =
    (200 ≤ status) × ((status < 300) × ((body ≡ some ar) × (ar.success ≡ true)))

judge_reply-accepted :
    (r : Reply) (later : Posted) (ar : AggResponse)
    → judge_reply r later ≡ accepted ar
    → Accepts ar r ⊎ (IsRetried r × (later ≡ accepted ar))
unfolding judge_reply judge_body is_success is_client_error IsRetried Accepts
judge_reply-accepted network_error later ar e = inr (tt, e)
judge_reply-accepted (reply status none) later ar e = ground arith
judge_reply-accepted (reply status (some body)) later ar e = ground arith

-- An attempt, from one on, that the Aggregator accepts with `ar`, after attempts that are retried.
unfoldable pub AcceptsAt : (ℕ → Reply) → AggResponse → ℕ → ℕ → Type 0
unfolding Accepts IsRetried
AcceptsAt answers ar start k =
    (start ≤ k) × (Accepts ar (answers k) × ((j : ℕ) → start ≤ j → j < k → IsRetried (answers j)))

from_first :
    (P : ℕ → Type 0) (a k : ℕ)
    → P a
    → ((j : ℕ) → suc a ≤ j → j < k → P j)
    → (j : ℕ) → a ≤ j
    → j < k
    → P j
from_first P a k here later j from below = elim (Bool-cases (a == j)) [
  | inl e ↦ subst P (ground (arith, e)) here
  | inr e ↦ later j (ground (arith, e, from)) below
]

module _ (V : Type 0) (agg : Aggregator V) (p : AggPayload V) where
  post_from-AcceptsAt :
      (rest : List ℕ) (attempt : ℕ) (ar : AggResponse)
      → post_from V agg p rest attempt ≡ accepted ar
      → (k : ℕ) × ((k < attempt + length rest) × AcceptsAt (agg.answers p) ar attempt k)
  unfolding post_from AcceptsAt
  post_from-AcceptsAt [] attempt ar e = ground arith
  post_from-AcceptsAt (delay ∷ rest) attempt ar e =
      let later = post_from V agg p rest (suc attempt) in
      let judged : judge_reply (agg.answers p attempt) later ≡ accepted ar = ground (arith, e) in
      elim (judge_reply-accepted (agg.answers p attempt) later ar judged) [
        | inl now ↦
            (attempt, (omega arith, (omega arith, (now, λ j from below. absurd (omega arith)))))
        | inr (retried, again) ↦
            let (k, (below, (from, (good, before)))) =
              post_from-AcceptsAt rest (suc attempt) ar again in
            (
              k,
              (
                omega arith,
                (
                  omega arith,
                  (good, from_first (λ j. IsRetried (agg.answers p j)) attempt k retried before),
                ),
              ),
            )
      ]

  -- The replies to the attempts before one.
  unfoldable pub replies_before : ℕ → List Reply
  replies_before zero = []
  replies_before (suc k) = replies_before k ++ agg.answers p k ∷ []

  replies_before-IsRetried :
      (k : ℕ) → ((j : ℕ) → j < k → IsRetried (agg.answers p j)) → All IsRetried (replies_before k)
  unfolding replies_before
  replies_before-IsRetried zero h = tt
  replies_before-IsRetried (suc k) h =
      All-append IsRetried (replies_before k) (agg.answers p k ∷ [])
        (replies_before-IsRetried k (λ j lt. h j (omega arith))) (h k (omega arith), tt)

  -- Where postWithRetry succeeds, one of its three attempts was answered with a 2xx status and
  -- the body that it returns, which reports success, and every attempt before it got no answer
  -- or a status that is neither 2xx nor 4xx.
  pub post_with_retry-Accepts :
      (ar : AggResponse)
      → post_with_retry V agg p ≡ accepted ar
      → (k : ℕ) × ((k < 3) × (Accepts ar (agg.answers p k) × All IsRetried (replies_before k)))
  unfolding post_with_retry AcceptsAt
  post_with_retry-Accepts ar e =
      let posted : post_from V agg p delays 0 ≡ accepted ar = ground (arith, e) in
      let (k, (small, (from, (good, before)))) = post_from-AcceptsAt delays 0 ar posted in
      (k, (small, (good, replies_before-IsRetried k (λ j lt. before j (omega arith) lt))))
