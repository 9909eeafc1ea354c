-- ===== src/Audit/Chain.antt =====
-- `LogEntry` and `TamperEvidentLog`, the log that is chained by hashes. What an entry holds is of
-- any type; its JSON text with the time and the previous hash is the `json` library's.
use trust_flow_chain_of_cust.Prelude.{
  if◌then◌else◌, Text, text_eq, Bool, true, false, not, Option, none, some, List, [], ◌∷◌, ◌++◌,
}

pub record LogEntry (D : Type 0) : Type 0 where
  pub data_ : D
  pub timestamp : Text
  pub prev_hash : Text
  pub entry_hash : Text

-- What the log takes from outside: SHA-256 in hexadecimal, and `json.dumps` of the dictionary with
-- `data`, `timestamp` and `prev_hash`, with sorted keys.
pub record Digest (D : Type 0) : Type 0 where
  pub sha256 : Text → Text
  pub dumps : D → Text → Text → Text

module _ {D : Type 0} (g : Digest D) where
  -- The hash of an entry's content.
  unfoldable pub content_hash : D → Text → Text → Text
  content_hash d timestamp prev = g.sha256 (g.dumps d timestamp prev)

  -- `self._entries[-1].entry_hash if self._entries else ""`
  unfoldable pub last_hash : List (LogEntry D) → Text
  last_hash [] = []
  last_hash (e ∷ []) = e.entry_hash
  last_hash (e ∷ f ∷ es) = last_hash (f ∷ es)

  -- `TamperEvidentLog.append`, with the text of the present time
  unfoldable pub append : Text → D → List (LogEntry D) → List (LogEntry D) × Text
  append timestamp d entries =
      let prev = last_hash entries in
      let entry_hash = content_hash d timestamp prev in
      let entry : LogEntry D = record {
        data_ = d;
        timestamp = timestamp;
        prev_hash = prev;
        entry_hash = entry_hash;
      } in
      (entries ++ entry ∷ [], entry_hash)

  -- The loop of `TamperEvidentLog.verify`.
  unfoldable pub verify_from : Text → List (LogEntry D) → Bool
  verify_from prev [] = true
  verify_from prev (e ∷ es) =
      let rest = verify_from e.entry_hash es in
      if not (text_eq e.prev_hash prev)
      then false
      else if not (text_eq (content_hash e.data_ e.timestamp e.prev_hash) e.entry_hash)
      then false
      else rest

  -- `TamperEvidentLog.verify`
  unfoldable pub verify : List (LogEntry D) → Bool
  verify entries = verify_from [] entries

  -- `TamperEvidentLog.get_entry`
  unfoldable pub get_entry : Text → List (LogEntry D) → Option (LogEntry D)
  get_entry h [] = none
  get_entry h (e ∷ es) =
      let rest = get_entry h es in if text_eq e.entry_hash h then some e else rest
