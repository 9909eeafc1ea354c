-- ===== src/Audit/Tests.antt =====
-- The audit log on concrete entries.
use trust_flow_chain_of_cust.Audit.Chain.{Digest, LogEntry, append, verify, verify_from}
use trust_flow_chain_of_cust.Audit.Evidence.{IsDigest, Collision, verify-append, verify_unique}
use trust_flow_chain_of_cust.Audit.Event.{AuditEvent, EventDict, content_created}
use trust_flow_chain_of_cust.Strings.Join.{Lacks, append-separated-injective}
use trust_flow_chain_of_cust.Prelude.{
  Text, codes, ◌+◌, ◌≡◌, refl, ◌∙◌, ◌⊎◌, true, none, List, [], ◌∷◌, ◌++◌, map, arith,
}

-- A text without the character 0.
abbrev raised : Text → Text
raised = map (λ c. c + 1)

raised-Lacks : (s : Text) → Lacks 0 (raised s)
raised-Lacks [] = tt
raised-Lacks (c ∷ s) = (omega arith, raised-Lacks s)

raised-injective : (s t : Text) → raised s ≡ raised t → s ≡ t
raised-injective [] [] e = refl
raised-injective [] (c ∷ t) e = cc
raised-injective (c ∷ s) [] e = cc
raised-injective (c ∷ s) (d ∷ t) e =
    let p : raised s ≡ raised t = cc in
    let q = raised-injective s t p in
    let r : c + 1 ≡ d + 1 = cc in let k : c ≡ d = omega (arith, r) in cc

-- The three texts of an entry, kept apart by a 0.
abbrev toy_digest : Digest Text
toy_digest = record {
  sha256 = λ m. b'#' ∷ m;
  dumps = λ d t p. raised d ++ (0 ∷ (raised t ++ (0 ∷ p)));
}

toy_digest-IsDigest : IsDigest toy_digest
toy_digest-IsDigest = record { sha256-ne_nil = λ m e. cc; dumps-injective = apart }
  where
    apart :
        (d d' t t' p p' : Text)
        → raised d ++ (0 ∷ (raised t ++ (0 ∷ p))) ≡ raised d' ++ (0 ∷ (raised t' ++ (0 ∷ p')))
        → (d ≡ d') × (t ≡ t') × (p ≡ p')
    apart d d' t t' p p' e =
        let first =
          append-separated-injective 0 (raised d) (raised d') _ _ (raised-Lacks d) (raised-Lacks d')
            e in
        let second =
          append-separated-injective 0 (raised t) (raised t') _ _ (raised-Lacks t) (raised-Lacks t')
            first.1 in
        (raised-injective d d' first.0, raised-injective t t' second.0, second.1)

abbrev one_entry : List (LogEntry Text)
one_entry = (append toy_digest (codes "t") (codes "d") []).0

one_entry-valid : verify toy_digest one_entry ≡ true
one_entry-valid =
    verify-append toy_digest (codes "t") (codes "d") [] ∙ (unfold verify verify_from in refl)

verify_unique_example : (one_entry ≡ one_entry) ⊎ Collision toy_digest
verify_unique_example =
    verify_unique toy_digest toy_digest-IsDigest one_entry one_entry one_entry-valid one_entry-valid
      refl

abbrev event_digest : Digest (EventDict Text)
event_digest = record { sha256 = λ m. b'#' ∷ m; dumps = λ d t p. d.event_type ++ t ++ p }

abbrev event : AuditEvent Text
event = record {
  event_type = content_created;
  timestamp = codes "t";
  actor_id = codes "alice";
  target_id = none;
  details = [];
}
