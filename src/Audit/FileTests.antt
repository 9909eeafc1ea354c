-- ===== src/Audit/FileTests.antt =====
-- A log in a file with one entry, and two more.
use trust_flow_chain_of_cust.Strings.Join.{join}
use trust_flow_chain_of_cust.Audit.FileChain.{
  IsClean, IsDigestText, IsChained, log_event-IsChained, get_last_hash-log_event,
}
use trust_flow_chain_of_cust.Audit.FileBars.{with_bar, log_event_bar}
use trust_flow_chain_of_cust.Audit.File.{
  AuditFile, Event, entry_content, is_comment, get_last_hash, log_event, check_line, verify_lines,
  verify_log_integrity,
}
use trust_flow_chain_of_cust.Prelude.{
  length, Text, codes, ℕ, ◌+◌, ◌≡◌, refl, ap, ◌≢◌, false, [], ◌∷◌, arith,
}

-- A digest of one character, by the length of the text.
abbrev toy_sha256 : Text → Text
toy_sha256 m = (length m + 20000) ∷ []

toy_sha256-IsDigestText : IsDigestText toy_sha256
toy_sha256-IsDigestText m =
    (record { solid = (ground arith, tt); filled = refl }, (omega arith, tt))

abbrev headings : AuditFile
headings = record { lines = codes "# Audit Log" ∷ codes "# Each entry" ∷ []; last_hash = [] }

headings-IsChained : IsChained toy_sha256 headings
headings-IsChained = record {
  verified = unfold verify_lines check_line is_comment in refl;
  plain = tt;
}

abbrev genesis : Event
genesis = record {
  event_type = codes "G";
  actor = codes "S";
  target = codes "L";
  timestamp = codes "t";
  details = [];
}

genesis-IsClean : IsClean genesis
genesis-IsClean = record {
  typed = record { solid = (refl, tt); filled = refl };
  plain_type = ((refl, omega arith), tt);
  plain_actor = ((refl, omega arith), tt);
  plain_target = ((refl, omega arith), tt);
  plain_time = ((refl, omega arith), tt);
  plain_details = tt;
  no_comment = unfold is_comment in refl;
}

abbrev begun : AuditFile
begun = log_event toy_sha256 genesis headings

log_event-IsChained_example : IsChained toy_sha256 begun
log_event-IsChained_example =
    log_event-IsChained toy_sha256 genesis headings toy_sha256-IsDigestText genesis-IsClean
      headings-IsChained

headings_ne_nil : headings.lines ≢ []
headings_ne_nil e = cc

get_last_hash-log_event_example : get_last_hash begun.lines ≡ begun.last_hash
get_last_hash-log_event_example =
    get_last_hash-log_event toy_sha256 genesis headings toy_sha256-IsDigestText genesis-IsClean tt
      headings_ne_nil

first_char : Text → ℕ
first_char [] = 0
first_char (c ∷ _) = c

other_hash : (log_event toy_sha256 (with_bar genesis (codes "x")) begun).last_hash ≢ begun.last_hash
unfolding log_event entry_content join first_char
other_hash e = omega (arith, ap first_char e)

log_event_bar_example :
    verify_log_integrity toy_sha256
      (log_event toy_sha256 genesis (log_event toy_sha256 (with_bar genesis (codes "x")) begun))
    ≡ false
log_event_bar_example =
    log_event_bar toy_sha256 toy_sha256-IsDigestText genesis (codes "x") genesis-IsClean
      ((refl, omega arith), tt) genesis begun genesis-IsClean log_event-IsChained_example other_hash
