-- ===== src/Audit/FileBars.antt =====
-- An entry whose target holds the bar.
use trust_flow_chain_of_cust.Strings.Join.{join}
use trust_flow_chain_of_cust.Strings.Split.{bar}
use trust_flow_chain_of_cust.Audit.FileLine.{
  IsPlain, sealed_line, append_assoc, split-sealed_line, cut_lines-sealed_line,
  is_comment-sealed_line,
}
use trust_flow_chain_of_cust.Audit.FileChain.{
  IsClean, IsDigestText, IsChained, line_of, hash-IsPlain, split-line, log_event-lines,
  verify_lines-append,
}
use trust_flow_chain_of_cust.Audit.File.{
  AuditFile, Event, cut_lines, entry_content, log_event, check_parts, check_line, verify_lines,
  verify_log_integrity,
}
use trust_flow_chain_of_cust.Prelude.{
  All, Text, is_some, ◌≡◌, refl, ap, ◌∙◌, ◌≢◌, false, none, some, List, [], ◌∷◌, ◌++◌, arith,
}

-- The event with a second part of its target, after a bar.
abbrev pub with_bar : Event → Text → Event
with_bar e more = record e { target = e.target ++ (bar ++ more) }

module _ (sha256 : Text → Text) (d : IsDigestText sha256) (e : Event) (more : Text) (c : IsClean e)
    (plain : IsPlain more) where
  fields : Text → List Text
  fields prev = e.target ∷ more ∷ e.timestamp ∷ e.details ∷ prev ∷ []

  content-with_bar :
      (prev : Text)
      → entry_content (with_bar e more) prev ≡ join bar (e.event_type ∷ e.actor ∷ fields prev)
  unfolding entry_content join fields
  content-with_bar prev =
      ap (λ r. e.event_type ++ (bar ++ (e.actor ++ (bar ++ r))))
        (append_assoc e.target (bar ++ more)
          (bar ++ join bar (e.timestamp ∷ e.details ∷ prev ∷ [])))

  bar_hash : Text → Text
  bar_hash prev = sha256 (entry_content (with_bar e more) prev)

  parts-IsPlain :
      (prev : Text)
      → IsPlain prev
      → All IsPlain (e.event_type ∷ e.actor ∷ (fields prev ++ bar_hash prev ∷ []))
  unfolding fields bar_hash
  parts-IsPlain prev h = (
    c.plain_type,
    (
      c.plain_actor,
      (
        c.plain_target,
        (
          plain,
          (
            c.plain_time,
            (
              c.plain_details,
              (h, (hash-IsPlain sha256 (entry_content (with_bar e more) prev) d, tt)),
            ),
          ),
        ),
      ),
    ),
  )

  -- It is one line of eight parts, which the verification passes over.
  log_event-with_bar :
      (f : AuditFile)
      → IsPlain f.last_hash
      → (log_event sha256 (with_bar e more) f).lines
        ≡ f.lines
          ++ sealed_line e.event_type (e.actor ∷ fields f.last_hash) (bar_hash f.last_hash) ∷ []
  unfolding log_event bar_hash
  log_event-with_bar f h =
      ap (λ ls. f.lines ++ ls)
        (ap (λ t. cut_lines (t ++ (bar ++ bar_hash f.last_hash))) (content-with_bar f.last_hash)
          ∙ cut_lines-sealed_line e.event_type e.actor (fields f.last_hash) (bar_hash f.last_hash)
              (parts-IsPlain f.last_hash h))

  check_line-with_bar :
      (prev : Text)
      → IsPlain prev
      → check_line sha256 prev (sealed_line e.event_type (e.actor ∷ fields prev) (bar_hash prev))
        ≡ some prev
  unfolding check_line
  check_line-with_bar prev h =
      rw
        (
          is_comment-sealed_line e.event_type e.actor (fields prev) (bar_hash prev) c.typed
              ∙ c.no_comment,
          split-sealed_line e.event_type e.actor (fields prev) (bar_hash prev) c.typed
              (unfold bar_hash in (d (entry_content (with_bar e more) prev)).0)
              (parts-IsPlain prev h),
        )
        (unfold check_parts fields in refl)

  last_hash-IsPlain : (a : Event) (f : AuditFile) → IsPlain (log_event sha256 a f).last_hash
  unfolding log_event
  last_hash-IsPlain a f = hash-IsPlain sha256 (entry_content a f.last_hash) d

  one_line :
      (current next l : Text)
      → check_line sha256 current l ≡ some next
      → verify_lines sha256 current (l ∷ []) ≡ some next
  unfolding verify_lines
  one_line current next l q = rw (q, verify_lines) refl

  refused_line :
      (current l : Text)
      → check_line sha256 current l ≡ none
      → verify_lines sha256 current (l ∷ []) ≡ none
  unfolding verify_lines
  refused_line current l q = rw (q, verify_lines) refl

  -- An entry that names another hash than the one expected is refused.
  check_line-other :
      (a : Event) (prev current : Text)
      → IsClean a
      → IsPlain prev
      → prev ≢ current
      → check_line sha256 current (line_of sha256 a prev) ≡ none
  unfolding check_line
  check_line-other a prev current n h other =
      rw
        (
          is_comment-sealed_line a.event_type a.actor
                (a.target ∷ a.timestamp ∷ a.details ∷ prev ∷ []) (sha256 (entry_content a prev))
                n.typed
              ∙ n.no_comment,
          split-line sha256 a prev d n h,
        )
        (unfold check_parts in ground (arith, other))

  -- If an event whose target holds the bar with spaces around it is logged to a log that
  -- verifies, and its hash is not the one before, then the log no longer verifies once another
  -- event is logged, though nothing was tampered with; texts are otherwise without bars and
  -- line ends, and digests are words without a bar.
  pub log_event_bar :
      (next : Event) (f : AuditFile)
      → IsClean next
      → IsChained sha256 f
      → (log_event sha256 (with_bar e more) f).last_hash ≢ f.last_hash
      → verify_log_integrity sha256 (log_event sha256 next (log_event sha256 (with_bar e more) f))
        ≡ false
  log_event_bar next f n h other =
      let g = log_event sha256 (with_bar e more) f in
      let after : IsPlain g.last_hash = last_hash-IsPlain (with_bar e more) f in
      let skipped : verify_lines sha256 [] g.lines ≡ some f.last_hash =
        ap (λ ls. verify_lines sha256 [] ls) (log_event-with_bar f h.plain)
        ∙ verify_lines-append sha256 [] f.last_hash f.lines
            (sealed_line e.event_type (e.actor ∷ fields f.last_hash) (bar_hash f.last_hash) ∷ [])
            h.verified
        ∙ one_line f.last_hash f.last_hash
            (sealed_line e.event_type (e.actor ∷ fields f.last_hash) (bar_hash f.last_hash))
            (check_line-with_bar f.last_hash h.plain) in
      let broken : verify_lines sha256 [] (log_event sha256 next g).lines ≡ none =
        ap (λ ls. verify_lines sha256 [] ls) (log_event-lines sha256 next g d n after)
        ∙ verify_lines-append sha256 [] f.last_hash g.lines (line_of sha256 next g.last_hash ∷ [])
            skipped
        ∙ refused_line f.last_hash (line_of sha256 next g.last_hash)
            (check_line-other next g.last_hash f.last_hash n after other) in
      unfold verify_log_integrity in ap (λ o. is_some o) broken
