-- ===== src/Audit/Event.antt =====
-- `AuditEventType`, `AuditEvent` and `AuditLogger`.
use mathlib.Core.Option
use trust_flow_chain_of_cust.Audit.Chain.{LogEntry, Digest, append}
use trust_flow_chain_of_cust.Prelude.{
  retain-snoc, retain, if◌then◌else◌, Text, codes, text_eq, Text-discrete, ◌≡◌, refl, ap, Bool,
  Option, none, some, List, [], ◌∷◌, ◌++◌, ℕ_discrete,
}

pub data AuditEventType : Type 0 where
  content_created content_accessed content_forwarded content_deleted : AuditEventType
  identity_created certificate_issued certificate_revoked : AuditEventType
  peer_joined peer_left message_sent message_received : AuditEventType
  signature_verified signature_failed deletion_requested : AuditEventType
  deletion_confirmed watermark_embedded leak_detected : AuditEventType
  access_granted access_denied : AuditEventType

-- `event_type.value`
unfoldable pub value : AuditEventType → Text
value content_created = codes "content_created"
value content_accessed = codes "content_accessed"
value content_forwarded = codes "content_forwarded"
value content_deleted = codes "content_deleted"
value identity_created = codes "identity_created"
value certificate_issued = codes "certificate_issued"
value certificate_revoked = codes "certificate_revoked"
value peer_joined = codes "peer_joined"
value peer_left = codes "peer_left"
value message_sent = codes "message_sent"
value message_received = codes "message_received"
value signature_verified = codes "signature_verified"
value signature_failed = codes "signature_failed"
value deletion_requested = codes "deletion_requested"
value deletion_confirmed = codes "deletion_confirmed"
value watermark_embedded = codes "watermark_embedded"
value leak_detected = codes "leak_detected"
value access_granted = codes "access_granted"
value access_denied = codes "access_denied"

-- The members of the enumeration, in order.
abbrev pub all_types : List AuditEventType
all_types =
    content_created ∷ content_accessed ∷ content_forwarded ∷ content_deleted ∷ identity_created
    ∷ certificate_issued ∷ certificate_revoked ∷ peer_joined ∷ peer_left ∷ message_sent
    ∷ message_received ∷ signature_verified ∷ signature_failed ∷ deletion_requested
    ∷ deletion_confirmed ∷ watermark_embedded ∷ leak_detected ∷ access_granted ∷ access_denied ∷ []

unfoldable pub find_type : Text → List AuditEventType → Option AuditEventType
find_type text [] = none
find_type text (t ∷ ts) =
    let rest = find_type text ts in if text_eq (value t) text then some t else rest

-- `AuditEventType(text)`, `none` where it raises
unfoldable pub of_value : Text → Option AuditEventType
of_value text = find_type text all_types

pub of_value-value : (t : AuditEventType) → of_value (value t) ≡ some t
unfolding of_value find_type value Text-discrete ℕ_discrete
of_value-value content_created = refl
of_value-value content_accessed = refl
of_value-value content_forwarded = refl
of_value-value content_deleted = refl
of_value-value identity_created = refl
of_value-value certificate_issued = refl
of_value-value certificate_revoked = refl
of_value-value peer_joined = refl
of_value-value peer_left = refl
of_value-value message_sent = refl
of_value-value message_received = refl
of_value-value signature_verified = refl
of_value-value signature_failed = refl
of_value-value deletion_requested = refl
of_value-value deletion_confirmed = refl
of_value-value watermark_embedded = refl
of_value-value leak_detected = refl
of_value-value access_granted = refl
of_value-value access_denied = refl

-- The details are of any type, which JSON can write.
pub record AuditEvent (E : Type 0) : Type 0 where
  pub event_type : AuditEventType
  pub timestamp : Text
  pub actor_id : Text
  pub target_id : Option Text
  pub details : E

-- What `to_dict` gives; each key is there.
pub record EventDict (E : Type 0) : Type 0 where
  pub event_type : Text
  pub timestamp : Text
  pub actor_id : Text
  pub target_id : Option Text
  pub details : E

-- `AuditEvent.to_dict`
unfoldable pub to_dict : {E : Type 0} → AuditEvent E → EventDict E
to_dict e = record {
  event_type = value e.event_type;
  timestamp = e.timestamp;
  actor_id = e.actor_id;
  target_id = e.target_id;
  details = e.details;
}

-- `AuditEvent.from_dict`, of a dictionary that has every key
unfoldable pub from_dict : {E : Type 0} → EventDict E → Option (AuditEvent E)
from_dict d = elim (of_value d.event_type) [
  | none ↦ none
  | some t ↦ some (record {
    event_type = t;
    timestamp = d.timestamp;
    actor_id = d.actor_id;
    target_id = d.target_id;
    details = d.details;
  })
]

pub from_dict-to_dict : {E : Type 0} (e : AuditEvent E) → from_dict (to_dict e) ≡ some e
unfolding from_dict to_dict
from_dict-to_dict e = rw (of_value-value e.event_type, from_dict) refl

-- An event and those after it, if all could be read.
abbrev pub both_events :
    {E : Type 0}
    → Option (AuditEvent E)
    → Option (List (AuditEvent E))
    → Option (List (AuditEvent E))
both_events none es = none
both_events (some e) none = none
both_events (some e) (some es) = some (e ∷ es)

module _ {E : Type 0} (g : Digest (EventDict E)) where
  -- `AuditLogger.log_event`
  unfoldable pub log_event :
      Text → AuditEvent E → List (LogEntry (EventDict E)) → List (LogEntry (EventDict E)) × Text
  log_event now event entries = append g now (to_dict event) entries

  -- `AuditLogger.log`: the event's own time is taken before that of the entry.
  unfoldable pub log :
      Text
      → Text
      → AuditEventType
      → Text
      → Option Text
      → E
      → List (LogEntry (EventDict E))
      → List (LogEntry (EventDict E)) × Text
  log event_time entry_time event_type actor_id target_id details entries =
      log_event entry_time
        (record {
          event_type = event_type;
          timestamp = event_time;
          actor_id = actor_id;
          target_id = target_id;
          details = details;
        })
        entries

  -- `AuditLogger.get_all_events`: one entry that does not read ends the list comprehension.
  unfoldable pub get_all_events : List (LogEntry (EventDict E)) → Option (List (AuditEvent E))
  get_all_events [] = some []
  get_all_events (e ∷ es) = both_events (from_dict e.data_) (get_all_events es)

  -- `AuditLogger.get_events_by_type`; two members are the same if they have the same value.
  unfoldable pub get_events_by_type :
      AuditEventType → List (LogEntry (EventDict E)) → Option (List (AuditEvent E))
  get_events_by_type t es =
      Option.map (retain (λ e. text_eq (value e.event_type) (value t))) (get_all_events es)

  -- `AuditLogger.get_events_by_actor`
  unfoldable pub get_events_by_actor :
      Text → List (LogEntry (EventDict E)) → Option (List (AuditEvent E))
  get_events_by_actor actor es =
      Option.map (retain (λ e. text_eq e.actor_id actor)) (get_all_events es)

  get_all_events-snoc :
      (event : AuditEvent E) (e : LogEntry (EventDict E)) (es : List (LogEntry (EventDict E)))
      → e.data_ ≡ to_dict event
      → get_all_events (es ++ e ∷ []) ≡ Option.map (λ old. old ++ event ∷ []) (get_all_events es)
  unfolding get_all_events
  get_all_events-snoc event e [] same = rw (same, from_dict-to_dict event) refl
  get_all_events-snoc event e (f ∷ es) same =
      rw (get_all_events-snoc event e es same) (push (from_dict f.data_) (get_all_events es))
    where
      push :
          (o : Option (AuditEvent E)) (r : Option (List (AuditEvent E)))
          → both_events o (Option.map (λ old. old ++ event ∷ []) r)
            ≡ Option.map (λ old. old ++ event ∷ []) (both_events o r)
      push none r = refl
      push (some a) none = refl
      push (some a) (some es) = refl

  -- An event that is logged is the last of the events read back, and those before it are unchanged.
  pub get_all_events-log_event :
      (now : Text) (event : AuditEvent E) (es : List (LogEntry (EventDict E)))
      → get_all_events (log_event now event es).0
        ≡ Option.map (λ old. old ++ event ∷ []) (get_all_events es)
  get_all_events-log_event now event es =
      unfold log_event append in get_all_events-snoc event _ es refl

  -- Once an event is logged, the events of a type are those before it, followed by the event
  -- if it has that type.
  pub get_events_by_type-log_event :
      (now : Text) (event : AuditEvent E) (t : AuditEventType) (es : List (LogEntry (EventDict E)))
      → get_events_by_type t (log_event now event es).0
        ≡ Option.map
            (λ old. old ++ (if text_eq (value event.event_type) (value t) then event ∷ [] else []))
            (get_events_by_type t es)
  get_events_by_type-log_event now event t es =
      unfold get_events_by_type in
      rw (get_all_events-log_event now event es) (kept (get_all_events es))
    where
      same_type : AuditEvent E → Bool
      same_type e = text_eq (value e.event_type) (value t)

      kept :
          (r : Option (List (AuditEvent E)))
          → Option.map (retain same_type) (Option.map (λ old. old ++ event ∷ []) r)
            ≡ Option.map
                (λ old. old ++ (if same_type event then event ∷ [] else []))
                (Option.map (retain same_type) r)
      kept none = refl
      kept (some es) = ap some (retain-snoc same_type es event)
