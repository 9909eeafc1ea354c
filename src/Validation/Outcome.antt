-- ===== src/Validation/Outcome.antt =====
-- `ValidationResult`; an error stands for its message.
use trust_flow_chain_of_cust.Prelude.{
  if◌then◌else◌, Text, ℕ, Bool, true, false, List, [], ◌∷◌, ◌++◌,
}

pub data Error : Type 0 where
  not_a_dict no_type type_not_text : Error
  unknown_type : Text → Error
  missing wrong_type empty_field bad_hash : Text → Error
  missing_all : List Text → Error
  empty_recipients : Error
  recipient_not_text recipient_empty : ℕ → Error
  threshold_low ttl_low time_negative : Error
  in_event : ℕ → Error → Error
  no_events events_not_list peers_not_list settings_not_dict : Error
  peer_not_dict peer_no_id peer_id_not_text peer_id_empty : ℕ → Error
  wrong_setting low_setting : Text → Error
  both_given : Error

pub record Outcome : Type 0 where
  pub is_valid : Bool
  pub errors : List Error

-- `ValidationResult(is_valid=True)`
abbrev pub valid : Outcome
valid = record { is_valid = true; errors = [] }

unfoldable pub add_error : Error → Outcome → Outcome
add_error error r = record { is_valid = false; errors = r.errors ++ error ∷ [] }

-- `result.merge(other)`
unfoldable pub merge : Outcome → Outcome → Outcome
merge other r =
    if other.is_valid then r else record { is_valid = false; errors = r.errors ++ other.errors }

-- `if bad: result.add_error(error)`
unfoldable pub report : Bool → Error → Outcome → Outcome
unfolding add_error
report bad error r = if bad then add_error error r else r
