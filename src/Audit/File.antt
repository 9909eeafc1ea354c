-- ===== src/Audit/File.antt =====
-- `AuditLog`, the log in a file. The file is the list of its lines; a line end that an entry holds
-- makes two lines of it, and an empty line more or less, as after a carriage return, is not counted.
use trust_flow_chain_of_cust.Strings.Join.{join}
use trust_flow_chain_of_cust.Strings.Split.{split, bar}
use trust_flow_chain_of_cust.Strings.Space.{strip}
use trust_flow_chain_of_cust.Prelude.{
  ◌==◌, if◌then◌else◌, Text, codes, text_eq, is_empty, is_some, Bool, false, not, ◌||◌, Option,
  none, some, List, [], ◌∷◌, ◌++◌,
}

pub record AuditFile : Type 0 where
  pub lines : List Text
  pub last_hash : Text

pub record Event : Type 0 where
  pub event_type : Text
  pub actor : Text
  pub target : Text
  pub timestamp : Text
  pub details : Text

-- A text cut at its line ends.
unfoldable pub cut_lines : Text → List Text
cut_lines [] = [] ∷ []
cut_lines (c ∷ s) = start (cut_lines s)
  where
    start : List Text → List Text
    start [] = (c ∷ []) ∷ []
    start (l ∷ ls) = if c == 10 || c == 13 then [] ∷ l ∷ ls else (c ∷ l) ∷ ls

-- `" | ".join(parts)` of an entry but for its hash
unfoldable pub entry_content : Event → Text → Text
entry_content e prev =
    join bar (e.event_type ∷ e.actor ∷ e.target ∷ e.timestamp ∷ e.details ∷ prev ∷ [])

-- `parts[-1]`
unfoldable pub last_part : List Text → Text
last_part [] = []
last_part (p ∷ []) = p
last_part (p ∷ q ∷ ps) = last_part (q ∷ ps)

-- `_get_last_hash`, which finds none in a file of fewer than two lines
unfoldable pub get_last_hash : List Text → Text
unfolding last_part split strip
get_last_hash [] = []
get_last_hash (l ∷ []) = []
get_last_hash (l ∷ m ∷ ls) = last_part (split bar (strip (last_part (m ∷ ls))))

unfoldable pub is_comment : Text → Bool
is_comment [] = false
is_comment (c ∷ s) = c == 35

module _ (sha256 : Text → Text) where
  -- `log_event`, with the text of the present time in the event
  unfoldable pub log_event : Event → AuditFile → AuditFile
  unfolding entry_content cut_lines
  log_event e f =
      let content = entry_content e f.last_hash in
      let new_hash = sha256 content in
      record { lines = f.lines ++ cut_lines (content ++ (bar ++ new_hash)); last_hash = new_hash }

  -- `AuditLog(log_directory)`, for the lines of the file, none where there is no file, with the
  -- text of the present time
  unfoldable pub open_log : Text → List Text → AuditFile
  unfolding log_event get_last_hash
  open_log timestamp lines =
      let fresh =
        log_event
          (record {
            event_type = codes "GENESIS";
            actor = codes "SYSTEM";
            target = codes "Log Initialized";
            timestamp = timestamp;
            details = codes "Initial state.";
          })
          (record {
            lines =
                codes "# Audit Log - Chain of Custody Simulator"
                ∷ codes "# Each entry is chained by hashing the previous entry's hash."
                ∷ [];
            last_hash = [];
          }) in
      if is_empty (get_last_hash lines)
      then fresh
      else record { lines = lines; last_hash = get_last_hash lines }

  -- One round of the loop: the hash to expect next, `none` where the entry is rejected.
  unfoldable pub check_parts : Text → List Text → Option Text
  check_parts current (a ∷ b ∷ c ∷ d ∷ e ∷ prev ∷ stored ∷ []) =
      if not (text_eq prev current)
      then none
      else if not (text_eq (sha256 (join bar (a ∷ b ∷ c ∷ d ∷ e ∷ prev ∷ []))) stored)
      then none
      else some stored
  check_parts current _ = some current

  -- The same for a line; a comment is no entry.
  unfoldable pub check_line : Text → Text → Option Text
  unfolding check_parts is_comment split strip
  check_line current l =
      if is_comment l then some current else check_parts current (split bar (strip l))

  -- The loop of `verify_log_integrity`; the hash that it ends with, `none` where it rejects.
  unfoldable pub verify_lines : Text → List Text → Option Text
  unfolding check_line
  verify_lines current [] = some current
  verify_lines current (l ∷ ls) = elim (check_line current l) [
    | none ↦ none
    | some next ↦ verify_lines next ls
  ]

  unfoldable pub verify_log_integrity : AuditFile → Bool
  unfolding verify_lines
  verify_log_integrity f = is_some (verify_lines [] f.lines)
