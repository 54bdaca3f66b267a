-- ===== src/Gerrit/Observation.antt =====
-- `parse_vote_observation` of src/pe_review_agent/gerrit/votes.py. A JSON value is missing, of another
-- shape, or as it is wanted; a negative vote is none; a permitted value is what is left of it after
-- `strip().lstrip("+")`; whether a text ends with the marker is a parameter.
use pe_review_agent.Domain.{Name}
use pe_review_agent.Prelude.{
  Bool, List, Option, [], any, arith, false, if◌then◌else◌, is_some_eq, none, some, true, ℕ, ◌&&◌,
  ◌==◌, ◌||◌, ◌∷◌, ◌≡◌,
}
use pe_review_agent.Prelude.Result.{>>=-eq-ok, Result, err, ok, ◌>>=◌}

pub record VoteObservation : Type 0 where
  pub current_value : Option ℕ
  pub can_vote : Bool
  pub marker_found : Bool
  pub label_exists : Bool
  pub is_merged : Bool

pub data Json {ℓ} (A : Type ℓ) : Type ℓ where
  missing malformed : Json A
  shaped : A → Json A

-- The TransientErrors, in the order in which they are tested.
pub data ObservationError : Type 0 where
  lacks_labels bad_label bad_approvals bad_approval bad_value : ObservationError
  bad_permitted bad_range bad_message : ObservationError

pub record Approval : Type 0 where
  pub account : Option ℕ
  pub value : Json (Option ℕ)

-- A change message; a field that is not of its type is none.
pub record ChangeMessage : Type 0 where
  pub author : Option ℕ
  pub revision_number : Option ℕ
  pub tag : Option ℕ
  pub message : Option Name

-- The change's detail; its status is whether it is NEW, and whether it is MERGED.
pub record ChangeDetail : Type 0 where
  pub labels : Json (Json (Json (List (Json Approval))))
  pub permitted_labels : Json (Json (List (Option ℕ)))
  pub is_new : Bool
  pub is_merged : Bool

-- `raw = approval.get("value", 0)`
unfoldable pub approval_value : Json (Option ℕ) → Result ObservationError (Option ℕ)
approval_value missing = ok (some 0)
approval_value malformed = err bad_value
approval_value (shaped v) = ok v

unfoldable pub value_after : ℕ → Option ℕ → Approval → Result ObservationError (Option ℕ)
unfolding approval_value
value_after bot value a = if is_some_eq a.account bot then approval_value a.value else ok value

-- The loop over the approvals: the last one of the account counts.
unfoldable pub read_approvals :
    ℕ → Option ℕ → List (Json Approval) → Result ObservationError (Option ℕ)
unfolding value_after
read_approvals bot value [] = ok value
read_approvals bot value (missing ∷ rest) = err bad_approval
read_approvals bot value (malformed ∷ rest) = err bad_approval
read_approvals bot value (shaped a ∷ rest) =
    value_after bot value a >>= λ (v : Option ℕ). read_approvals bot v rest

-- `label.get("all", [])`
unfoldable pub read_label : ℕ → Json (List (Json Approval)) → Result ObservationError (Option ℕ)
unfolding read_approvals
read_label bot missing = ok (some 0)
read_label bot malformed = err bad_approvals
read_label bot (shaped approvals) = read_approvals bot (some 0) approvals

-- Whether there is a label, and the value of the account.
unfoldable pub read_labels :
    ℕ → Json (Json (List (Json Approval))) → Result ObservationError (Bool × Option ℕ)
unfolding read_label
read_labels bot missing = ok (false, some 0)
read_labels bot malformed = err bad_label
read_labels bot (shaped label) = read_label bot label >>= λ (v : Option ℕ). ok (true, v)

unfoldable pub read_range : Json (List (Option ℕ)) → Result ObservationError (List (Option ℕ))
read_range missing = ok []
read_range malformed = err bad_range
read_range (shaped values) = ok values

unfoldable pub read_permitted :
    Json (Json (List (Option ℕ))) → Result ObservationError (List (Option ℕ))
unfolding read_range
read_permitted missing = ok []
read_permitted malformed = err bad_permitted
read_permitted (shaped range) = read_range range

module _ (ends_with_marker : Name → Bool) (bot patchset tag : ℕ) where
  abbrev pub marks : Option Name → Bool
  marks none = false
  marks (some text) = ends_with_marker text

  -- A message that an earlier request of this vote has left.
  abbrev pub is_marker : ChangeMessage → Bool
  is_marker m =
      is_some_eq m.author bot
      && (is_some_eq m.revision_number patchset && (is_some_eq m.tag tag && marks m.message))

  -- The loop over the messages.
  unfoldable pub read_messages : Bool → List (Json ChangeMessage) → Result ObservationError Bool
  read_messages found [] = ok found
  read_messages found (missing ∷ rest) = err bad_message
  read_messages found (malformed ∷ rest) = err bad_message
  read_messages found (shaped m ∷ rest) = read_messages (found || is_marker m) rest

  -- The part after `labels` was found to be a mapping.
  unfoldable pub observe :
      ChangeDetail
      → Json (Json (List (Json Approval)))
      → List (Json ChangeMessage)
      → ℕ
      → Result ObservationError VoteObservation
  unfolding read_labels read_permitted read_messages any
  observe detail label messages target = do
    read ← read_labels bot label
    allowed_values ← read_permitted detail.permitted_labels
    marked ← read_messages false messages
    ok (record {
      current_value = read.1;
      can_vote =
          detail.is_new
          && (read.0 && (target == 0 || any (λ v. is_some_eq v target) allowed_values));
      marker_found = marked;
      label_exists = read.0;
      is_merged = detail.is_merged;
    })

  unfoldable pub observe_labels :
      ChangeDetail
      → Json (Json (Json (List (Json Approval))))
      → List (Json ChangeMessage)
      → ℕ
      → Result ObservationError VoteObservation
  unfolding observe
  observe_labels detail missing messages target = err lacks_labels
  observe_labels detail malformed messages target = err lacks_labels
  observe_labels detail (shaped label) messages target = observe detail label messages target

  -- `parse_vote_observation`
  unfoldable pub parse_vote_observation :
      ChangeDetail → List (Json ChangeMessage) → ℕ → Result ObservationError VoteObservation
  unfolding observe_labels
  parse_vote_observation detail messages target =
      observe_labels detail detail.labels messages target

  -- The reference: some message is a marker.
  abbrev pub shows : Json ChangeMessage → Bool
  shows (shaped m) = is_marker m
  shows _ = false

  read_messages-any :
      (found marked : Bool) (messages : List (Json ChangeMessage))
      → read_messages found messages ≡ ok marked
      → marked ≡ (found || any shows messages)
  unfolding read_messages any
  read_messages-any found marked [] h = ground arith
  read_messages-any found marked (missing ∷ rest) h = cc
  read_messages-any found marked (malformed ∷ rest) h = cc
  read_messages-any found marked (shaped m ∷ rest) h =
      let ih = read_messages-any (found || is_marker m) marked rest h in
      let x = any shows rest in ground arith

  observe-marker :
      (detail : ChangeDetail) (label : Json (Json (List (Json Approval))))
      (messages : List (Json ChangeMessage)) (target : ℕ) (o : VoteObservation)
      → observe detail label messages target ≡ ok o
      → (o.marker_found ≡ any shows messages)
        × (o.can_vote ≡ true → (detail.is_new ≡ true) × (o.label_exists ≡ true))
  unfolding observe
  observe-marker detail label messages target o h =
      let (read, e, f) = >>=-eq-ok (read_labels bot label) _ h in
      let (values, g, k) = >>=-eq-ok (read_permitted detail.permitted_labels) _ f in
      let (marked, a, b) = >>=-eq-ok (read_messages false messages) _ k in
      let m = read_messages-any false marked messages a in (cc, λ c. (ground arith, ground arith))

  observe_labels-marker :
      (detail : ChangeDetail) (labels : Json (Json (Json (List (Json Approval)))))
      (messages : List (Json ChangeMessage)) (target : ℕ) (o : VoteObservation)
      → observe_labels detail labels messages target ≡ ok o
      → (o.marker_found ≡ any shows messages)
        × (o.can_vote ≡ true → (detail.is_new ≡ true) × (o.label_exists ≡ true))
  unfolding observe_labels
  observe_labels-marker detail missing messages target o h = cc
  observe_labels-marker detail malformed messages target o h = cc
  observe_labels-marker detail (shaped label) messages target o h =
      observe-marker detail label messages target o h

  -- Where the observation is read, a marker is found exactly if some message of the change is the bot's,
  -- on this Patch Set, with this tag and this marker; and the vote is possible only on a NEW change that
  -- has the label.
  pub parse_vote_observation_marker :
      (detail : ChangeDetail) (messages : List (Json ChangeMessage)) (target : ℕ)
      (o : VoteObservation)
      → parse_vote_observation detail messages target ≡ ok o
      → (o.marker_found ≡ any shows messages)
        × (o.can_vote ≡ true → (detail.is_new ≡ true) × (o.label_exists ≡ true))
  unfolding parse_vote_observation
  parse_vote_observation_marker detail messages target o h =
      observe_labels-marker detail detail.labels messages target o h
