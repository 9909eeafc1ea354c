-- ===== src/Audit/FileChain.antt =====
-- What the log in a file keeps, and how it is found again.
use trust_flow_chain_of_cust.Audit.FileLine.{
  IsPlain, sealed_line, word-IsPlain, split-sealed_line, cut_lines-sealed_line,
  is_comment-sealed_line,
}
use trust_flow_chain_of_cust.Strings.Join.{join, Lacks}
use trust_flow_chain_of_cust.Strings.Split.{bar, split}
use trust_flow_chain_of_cust.Strings.Space.{IsWord, strip}
use trust_flow_chain_of_cust.Audit.File.{
  Event, is_comment, entry_content, log_event, verify_lines, AuditFile, check_line, check_parts,
  get_last_hash, last_part,
}
use trust_flow_chain_of_cust.Prelude.{
  All, Text, ◌≡◌, refl, ap, ◌∙◌, ◌≢◌, false, List, [], ◌∷◌, ◌++◌, arith, some, Option-cases, inl,
  text_eq_refl, inr,
}

-- An event whose texts hold no bar and no line end; its type is a word and no comment.
pub record IsClean (e : Event) : Type 0 where
  pub typed : IsWord e.event_type
  pub plain_type : IsPlain e.event_type
  pub plain_actor : IsPlain e.actor
  pub plain_target : IsPlain e.target
  pub plain_time : IsPlain e.timestamp
  pub plain_details : IsPlain e.details
  pub no_comment : is_comment e.event_type ≡ false

-- A digest is a word without a bar.
abbrev pub IsDigestText : (Text → Text) → Type 0
IsDigestText sha256 = (m : Text) → IsWord (sha256 m) × Lacks 124 (sha256 m)

-- The parts of an entry's line after its type, without the hash.
abbrev pub rest_of : Event → Text → List Text
rest_of e prev = e.actor ∷ e.target ∷ e.timestamp ∷ e.details ∷ prev ∷ []

abbrev pub line_of : (Text → Text) → Event → Text → Text
line_of sha256 e prev = sealed_line e.event_type (rest_of e prev) (sha256 (entry_content e prev))

abbrev pub parts_of : (Text → Text) → Event → Text → List Text
parts_of sha256 e prev = e.event_type ∷ (rest_of e prev ++ sha256 (entry_content e prev) ∷ [])

pub hash-IsPlain : (sha256 : Text → Text) (m : Text) → IsDigestText sha256 → IsPlain (sha256 m)
hash-IsPlain sha256 m d = let (w, l) = d m in word-IsPlain (sha256 m) w.solid l

parts-IsPlain :
    (sha256 : Text → Text) (e : Event) (prev : Text)
    → IsDigestText sha256
    → IsClean e
    → IsPlain prev
    → All IsPlain (parts_of sha256 e prev)
parts-IsPlain sha256 e prev d c h = (
  c.plain_type,
  (
    c.plain_actor,
    (
      c.plain_target,
      (c.plain_time, (c.plain_details, (h, (hash-IsPlain sha256 (entry_content e prev) d, tt)))),
    ),
  ),
)

pub split-line :
    (sha256 : Text → Text) (e : Event) (prev : Text)
    → IsDigestText sha256
    → IsClean e
    → IsPlain prev
    → split bar (strip (line_of sha256 e prev)) ≡ parts_of sha256 e prev
split-line sha256 e prev d c h =
    split-sealed_line e.event_type e.actor (e.target ∷ e.timestamp ∷ e.details ∷ prev ∷ [])
      (sha256 (entry_content e prev)) c.typed (d (entry_content e prev)).0
      (parts-IsPlain sha256 e prev d c h)

-- An event makes one line.
pub log_event-lines :
    (sha256 : Text → Text) (e : Event) (f : AuditFile)
    → IsDigestText sha256
    → IsClean e
    → IsPlain f.last_hash
    → (log_event sha256 e f).lines ≡ f.lines ++ line_of sha256 e f.last_hash ∷ []
unfolding log_event entry_content
log_event-lines sha256 e f d c h =
    ap (λ ls. f.lines ++ ls)
      (cut_lines-sealed_line e.event_type e.actor
        (e.target ∷ e.timestamp ∷ e.details ∷ f.last_hash ∷ [])
        (sha256 (entry_content e f.last_hash)) (parts-IsPlain sha256 e f.last_hash d c h))

check_parts-parts :
    (sha256 : Text → Text) (e : Event) (prev : Text)
    → check_parts sha256 prev (parts_of sha256 e prev) ≡ some (sha256 (entry_content e prev))
unfolding check_parts entry_content
check_parts-parts sha256 e prev =
    rw (text_eq_refl prev, text_eq_refl (sha256 (join bar (e.event_type ∷ rest_of e prev)))) refl

check_line-line :
    (sha256 : Text → Text) (e : Event) (prev : Text)
    → IsDigestText sha256
    → IsClean e
    → IsPlain prev
    → check_line sha256 prev (line_of sha256 e prev) ≡ some (sha256 (entry_content e prev))
unfolding check_line
check_line-line sha256 e prev d c h =
    rw
      (
        is_comment-sealed_line e.event_type e.actor (e.target ∷ e.timestamp ∷ e.details ∷ prev ∷ [])
              (sha256 (entry_content e prev)) c.typed
            ∙ c.no_comment,
        split-line sha256 e prev d c h,
      )
      (check_parts-parts sha256 e prev)

pub verify_lines-append :
    (sha256 : Text → Text) (current next : Text) (ls ms : List Text)
    → verify_lines sha256 current ls ≡ some next
    → verify_lines sha256 current (ls ++ ms) ≡ verify_lines sha256 next ms
unfolding verify_lines
verify_lines-append sha256 current next [] ms e =
    ap (λ c. verify_lines sha256 c ms) (ground (arith, e))
verify_lines-append sha256 current next (l ∷ ls) ms e =
    elim (Option-cases (check_line sha256 current l)) [
      | inl q ↦ absurd (ground (arith, e, q))
      | inr (n, q) ↦
          rw (q, verify_lines) (verify_lines-append sha256 n next ls ms (ground (arith, e, q)))
    ]

-- A log that verifies, whose hash is the one that the verification ends with.
pub record IsChained (sha256 : Text → Text) (f : AuditFile) : Type 0 where
  pub verified : verify_lines sha256 [] f.lines ≡ some f.last_hash
  pub plain : IsPlain f.last_hash

-- If the log in a file verifies and ends with the hash that the log remembers, then it does so
-- after an event is logged whose texts hold no bar and no line end, with a type that is a word
-- and no comment; digests are words without a bar.
pub log_event-IsChained :
    (sha256 : Text → Text) (e : Event) (f : AuditFile)
    → IsDigestText sha256
    → IsClean e
    → IsChained sha256 f
    → IsChained sha256 (log_event sha256 e f)
log_event-IsChained sha256 e f d c h =
    let (w, l) = d (entry_content e f.last_hash) in
    record {
      verified =
          ap (λ ls. verify_lines sha256 [] ls) (log_event-lines sha256 e f d c h.plain)
          ∙ verify_lines-append sha256 [] f.last_hash f.lines (line_of sha256 e f.last_hash ∷ [])
              h.verified
          ∙ (unfold verify_lines log_event in
              rw (check_line-line sha256 e f.last_hash d c h.plain, verify_lines) refl);
      plain = unfold log_event in word-IsPlain (sha256 (entry_content e f.last_hash)) w.solid l;
    }

last_part-snoc : (ls : List Text) (x : Text) → last_part (ls ++ x ∷ []) ≡ x
unfolding last_part
last_part-snoc [] x = refl
last_part-snoc (l ∷ []) x = refl
last_part-snoc (l ∷ m ∷ ls) x = last_part-snoc (m ∷ ls) x

get_last_hash-snoc :
    (ls : List Text) (x : Text)
    → ls ≢ []
    → get_last_hash (ls ++ x ∷ []) ≡ last_part (split bar (strip x))
unfolding get_last_hash
get_last_hash-snoc [] x n = absurd (n refl)
get_last_hash-snoc (l ∷ []) x n = unfold last_part in refl
get_last_hash-snoc (l ∷ m ∷ ls) x n =
    ap (λ y. last_part (split bar (strip y))) (last_part-snoc (m ∷ ls) x)

-- After such an event is logged to a file that is not empty, the hash that a newly opened log
-- reads from the file is the one that the log remembers.
pub get_last_hash-log_event :
    (sha256 : Text → Text) (e : Event) (f : AuditFile)
    → IsDigestText sha256
    → IsClean e
    → IsPlain f.last_hash
    → f.lines ≢ []
    → get_last_hash (log_event sha256 e f).lines ≡ (log_event sha256 e f).last_hash
get_last_hash-log_event sha256 e f d c h n =
    ap get_last_hash (log_event-lines sha256 e f d c h)
    ∙ get_last_hash-snoc f.lines (line_of sha256 e f.last_hash) n
    ∙ ap last_part (split-line sha256 e f.last_hash d c h)
    ∙ (unfold log_event last_part in refl)
