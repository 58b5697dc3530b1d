-- ===== src/Engine/Issued.antt =====
-- Issued rewards: `issueReward`, `listIssuedRewards`, `cancelIssuedReward`, `expireIssuedReward`,
-- `expireIssuedRewards` and `activeMember`.
use loyalty_interchange_prot.Base.{
  String, Bool, true, false, not, ◌&&◌, Option, none, some, any, filter, leb, str_eq, option_elim,
  if◌then◌else◌,
}
use loyalty_interchange_prot.Base.Assoc.{lookup, insert, values, map_values}
use loyalty_interchange_prot.Base.Sort.{sort}
use loyalty_interchange_prot.Base.Json.{Json, undefined, str, obj, field, end}
use loyalty_interchange_prot.Exec.{
  pure, gets, modify, ◌>>=◌, ◌>>◌, throw_if, or_throw, branch, conflict, expired, member_not_found,
  member_not_active, not_found, invalid_state,
}
use loyalty_interchange_prot.Protocol.Primitives.{Member, is_active}
use loyalty_interchange_prot.Protocol.Loyalty.{
  IssuedReward, issued, cancelled, lapsed, issued_status_eq, Artifact, artifact_text, reserved,
  reservation_status_eq,
}
use loyalty_interchange_prot.Protocol.Messages.{
  Response, IssueRequest, IssuedListRequest, IssuedCancelRequest, issued_reward_body,
  issued_list_body,
}
use loyalty_interchange_prot.Engine.State.{Env, State, Method, iso_now}
use loyalty_interchange_prot.Engine.Fingerprint.{fingerprint}
use loyalty_interchange_prot.Engine.Earning.{assert_program_id}
use loyalty_interchange_prot.Engine.Once.{once, response_context}

unfoldable pub active_member : String → Method Member
active_member member_id = do
  found ← gets (λ s. lookup member_id s.members)
  member ← or_throw found member_not_found 404
  throw_if (not (is_active member.status)) member_not_active 409
  pure member

-- whether an active reservation holds the issued reward
unfoldable pub is_held : State → String → Bool
is_held s id =
    any
      (λ r.
        option_elim r.issued_reward_id false (λ held. str_eq held id)
        && reservation_status_eq r.status reserved)
      (values s.reservations)

abbrev pub artifact_json : Option Artifact → Json
artifact_json none = undefined
artifact_json (some a) =
    obj (field "type" (str (artifact_text a.type)) (field "value" (str a.value) end))

-- `left === right` on optional strings
abbrev pub option_str_eq : Option String → Option String → Bool
option_str_eq none none = true
option_str_eq (some a) (some b) = str_eq a b
option_str_eq _ _ = false

abbrev pub artifact_eq : Artifact → Option Artifact → Bool
artifact_eq a none = false
artifact_eq a (some b) =
    str_eq (artifact_text b.type) (artifact_text a.type) && str_eq b.value a.value

abbrev pub expiry_passed : Env → Option String → Bool
expiry_passed env expires_at = option_elim expires_at false (λ at. leb (env.date_parse at) env.now)

module _ (env : Env) where
  -- the facts of a reward that was issued before, against a request; the artifacts are compared by
  -- their fingerprints, and only where all else agrees
  unfoldable pub same_facts : IssuedReward → IssueRequest → Method Bool
  same_facts existing request =
      if str_eq existing.member_id request.member_id
        && str_eq existing.program_id request.program_id
        && str_eq existing.reward_id request.reward_id
        && option_str_eq existing.expires_at request.expires_at
      then (do
        left ← fingerprint env (artifact_json existing.artifact)
        right ← fingerprint env (artifact_json request.artifact)
        pure (str_eq left right))
      else pure false

  abbrev pub issued_response : IssueRequest → IssuedReward → Response
  issued_response request reward = record {
    context = response_context env request.context;
    body = issued_reward_body reward;
  }

  -- the reward that a request issues
  abbrev pub new_issued_reward : IssueRequest → IssuedReward
  new_issued_reward request = record {
    issued_reward_id = request.issued_reward_id;
    member_id = request.member_id;
    program_id = request.program_id;
    reward_id = request.reward_id;
    status = issued;
    issued_at = iso_now env;
    expires_at = request.expires_at;
    redeemed_at = none;
    cancelled_at = none;
    cancellation_reason = none;
    artifact = request.artifact;
  }

  unfoldable pub issue_again : IssueRequest → IssuedReward → Method Response
  unfolding same_facts
  issue_again request existing = do
    same ← same_facts existing request
    throw_if (not same) conflict 409
    pure (issued_response request existing)

  unfoldable pub issue_new : IssueRequest → Method Response
  issue_new request = do
    taken ← gets (λ s. option_elim request.artifact false (λ artifact.
        any (λ reward. artifact_eq artifact reward.artifact) (values s.issued_rewards)))
    throw_if taken conflict 409
    modify (λ s. record s {
      issued_rewards = insert request.issued_reward_id (new_issued_reward request) s.issued_rewards;
    })
    pure (issued_response request (new_issued_reward request))

  unfoldable pub issue_body : IssueRequest → Method Response
  unfolding issue_again issue_new
  issue_body request = do
    active_member request.member_id
    program ← gets (λ s. s.program)
    throw_if (not (any (λ reward. str_eq reward.reward_id request.reward_id) program.rewards))
        not_found 404
    throw_if (expiry_passed env request.expires_at) expired 409
    existing ← gets (λ s. lookup request.issued_reward_id s.issued_rewards)
    branch existing (issue_new request) (issue_again request)

  unfoldable pub issue_reward : IssueRequest → Method Response
  unfolding issue_body
  issue_reward request = do
    assert_program_id request.program_id
    once env "issued_reward.issue" request.context request.raw (issue_body request)

  -- an issued reward that has run out and that no reservation holds
  unfoldable pub expire_issued_reward : State → IssuedReward → IssuedReward
  expire_issued_reward s reward =
      if issued_status_eq reward.status issued
        && expiry_passed env reward.expires_at
        && not (is_held s reward.issued_reward_id)
      then record reward { status = lapsed }
      else reward

  unfoldable pub expire_issued_rewards : String → Method (Unit {0})
  unfolding expire_issued_reward
  expire_issued_rewards member_id = modify (λ s. record s {
    issued_rewards =
        map_values
          (λ reward.
            if str_eq reward.member_id member_id then expire_issued_reward s reward else reward)
          s.issued_rewards;
  })

  -- the reward under a key, expired if it is due, and written back
  unfoldable pub refresh_issued_reward : String → IssuedReward → Method IssuedReward
  unfolding expire_issued_reward
  refresh_issued_reward key reward = do
    current ← gets (λ s. expire_issued_reward s reward)
    modify (λ s. record s { issued_rewards = insert key current s.issued_rewards })
    pure current

  unfoldable pub list_body : IssuedListRequest → Method Response
  unfolding expire_issued_rewards
  list_body request = do
    active_member request.member_id
    expire_issued_rewards request.member_id
    rewards ← gets (λ s.
        sort (λ left right. env.locale_compare right.issued_at left.issued_at)
          (filter
            (λ reward.
              str_eq reward.member_id request.member_id
              && option_elim request.statuses true (any (issued_status_eq reward.status)))
            (values s.issued_rewards)))
    pure
        (record { context = response_context env request.context; body = issued_list_body rewards })

  unfoldable pub list_issued_rewards : IssuedListRequest → Method Response
  unfolding list_body
  list_issued_rewards request = do
    assert_program_id request.program_id
    once env "issued_reward.list" request.context request.raw (list_body request)

  abbrev pub cancelled_reward : IssuedCancelRequest → IssuedReward → IssuedReward
  cancelled_reward request reward = record reward {
    status = cancelled;
    cancelled_at = some (iso_now env);
    cancellation_reason = some request.reason;
  }

  unfoldable pub cancel_live : IssuedCancelRequest → IssuedReward → Method Response
  cancel_live request reward = do
    throw_if (not (issued_status_eq reward.status issued)) invalid_state 409
    held ← gets (λ s. is_held s reward.issued_reward_id)
    throw_if held invalid_state 409
    modify (λ s. record s {
      issued_rewards =
          insert request.issued_reward_id (cancelled_reward request reward) s.issued_rewards;
    })
    pure (record {
      context = response_context env request.context;
      body = issued_reward_body (cancelled_reward request reward);
    })

  unfoldable pub cancel_body : IssuedCancelRequest → Method Response
  unfolding refresh_issued_reward cancel_live
  cancel_body request = do
    found ← gets (λ s. lookup request.issued_reward_id s.issued_rewards)
    stored ← or_throw found not_found 404
    reward ← refresh_issued_reward request.issued_reward_id stored
    if issued_status_eq reward.status cancelled
        then pure (record {
          context = response_context env request.context;
          body = issued_reward_body reward;
        })
        else cancel_live request reward

  unfoldable pub cancel_issued_reward : IssuedCancelRequest → Method Response
  unfolding cancel_body
  cancel_issued_reward request =
      once env "issued_reward.cancel" request.context request.raw (cancel_body request)
