-- ===== src/Tests/Gerrit.antt =====
-- The theorem on Gerrit's answers, on concrete values.
use pe_review_agent.Domain.{Name}
use pe_review_agent.Gerrit.Observation.{
  ChangeDetail, ChangeMessage, Json, VoteObservation, approval_value, missing, observe,
  observe_labels, parse_vote_observation, parse_vote_observation_marker, read_approvals, read_label,
  read_labels, read_messages, read_permitted, shaped, shows, value_after,
}
use pe_review_agent.Prelude.{Bool, [], any, false, none, refl, some, true, ◌==◌, ◌∷◌, ◌≡◌}

abbrev ends_here : Name → Bool
ends_here text = text == 50

abbrev own_message : Json ChangeMessage
own_message =
    shaped (record { author = some 77; revision_number = some 1; tag = some 3; message = some 50 })

abbrev other_message : Json ChangeMessage
other_message =
    shaped (record { author = some 78; revision_number = some 1; tag = none; message = some 50 })

abbrev fresh_detail : ChangeDetail
fresh_detail = record {
  labels =
      shaped
        (shaped (shaped (shaped (record { account = some 77; value = shaped (some 1) }) ∷ [])));
  permitted_labels = missing;
  is_new = true;
  is_merged = false;
}

abbrev seen_marker : VoteObservation
seen_marker = record {
  current_value = some 1;
  can_vote = false;
  marker_found = true;
  label_exists = true;
  is_merged = false;
}

parse_vote_observation_marker_example :
    (true ≡ any (shows ends_here 77 1 3) (other_message ∷ own_message ∷ []))
    × (false ≡ true → (true ≡ true) × (true ≡ true))
unfolding parse_vote_observation observe_labels observe read_labels read_label read_approvals
    value_after approval_value read_permitted read_messages any
parse_vote_observation_marker_example =
    parse_vote_observation_marker ends_here 77 1 3 fresh_detail (other_message ∷ own_message ∷ []) 1
      seen_marker refl
