-- ===== src/Network/Engine.antt =====
-- `DeletionEngine`: issuing and processing deletion tokens. `receiving_peer` is named by its id.
use mathlib.Core.Option
use trust_flow_chain_of_cust.Network.World.{
  ◌>>=◌, ◌>>◌, pure, modify, Config, World, get_peer, log_event, send_all, update_peer, Action,
  Peer, pure, deletion_token, permission_error, replay_attack, value_error, token_expired,
}
use trust_flow_chain_of_cust.Prelude.Result.{ok, err}
use trust_flow_chain_of_cust.Deletion.Replay.{admit, admitted, replayed, expired}
use trust_flow_chain_of_cust.Clock.{seconds, parse_time}
use trust_flow_chain_of_cust.Prelude.Dict.{lookup, insert}
use trust_flow_chain_of_cust.CocNode.{CocNode}
use trust_flow_chain_of_cust.Deletion.Cache.{TokenCache, new_cache}
use trust_flow_chain_of_cust.Deletion.Token.{
  DeletionToken, get_hash, sign, check_signature, new_token,
}
use trust_flow_chain_of_cust.Storage.{
  Storage, remove_node, remove_content, add_tombstone, get_node, is_content_referenced,
}
use trust_flow_chain_of_cust.Prelude.{
  if◌then◌else◌, Text, codes, text_eq, is_empty, ℕ, ◌+◌, ◌*◌, Bool, true, false, Option, none, some,
  List, [], ◌∷◌, ◌++◌,
}

abbrev pub node_text : Text → Text
node_text h = codes "Node: " ++ h

-- `DeletionEngine.issue_token`: only the owner's own node.
unfoldable pub issue_token : Config → ℕ → CocNode → Peer → Action DeletionToken
unfolding log_event
issue_token cfg now node originator w =
    let token =
      sign cfg.crypto originator.signing_key
        (new_token cfg.format now (cfg.token_hex w.next_nonce) node.node_hash originator.peer_id) in
    if text_eq node.owner_id originator.peer_id
    then (
      ok token,
      log_event (codes "DELETE_ISSUE") originator.peer_id (node_text node.node_hash) []
          (record w { next_nonce = w.next_nonce + 1 }),
    )
    else (err permission_error, w)

-- `Peer.initiate_deletion`: a token goes to the recipients of the node.
unfoldable pub initiate_deletion : Config → ℕ → CocNode → Peer → Action (Unit {0})
unfolding issue_token send_all
initiate_deletion cfg now node p = do
  token ← issue_token cfg now node p
  modify (send_all now p node.recipient_ids (deletion_token token))

unfoldable pub initiate_all : Config → ℕ → List CocNode → Peer → Action (Unit {0})
unfolding initiate_deletion
initiate_all cfg now [] p = pure tt
initiate_all cfg now (n ∷ ns) p = do initiate_deletion cfg now n p; initiate_all cfg now ns p

-- `_get_token_cache`
unfoldable pub get_token_cache : Config → ℕ → Text → World → TokenCache
get_token_cache cfg now pid w = elim (lookup pid w.processed_tokens) [
  | none ↦ new_cache (cfg.token_validity_seconds * 2) now
  | some c ↦ c
]

-- The time up to which a token is valid.
unfoldable pub runs_out : Config → DeletionToken → Option ℕ
runs_out cfg token =
    Option.map (λ t. t + seconds cfg.token_validity_seconds) (parse_time cfg.format token.timestamp)

-- The tests for replay and expiry, and the mark, with their entries in the audit log.
unfoldable pub admit_token : Config → ℕ → Text → DeletionToken → Action (Unit {0})
unfolding get_token_cache runs_out admit log_event
admit_token cfg now pid token w =
    let verdict =
      admit now (get_hash cfg.crypto token) (runs_out cfg token) (get_token_cache cfg now pid w) in
    let w' = record w { processed_tokens = insert pid verdict.1 w.processed_tokens } in
    elim verdict.0 [
      | admitted ↦ (ok tt, w')
      | replayed ↦ (
        err replay_attack,
        log_event (codes "DELETE_FAIL") pid (node_text token.node_hash)
            (codes "Replay attack detected") w',
      )
      | expired ↦ (
        err token_expired,
        log_event (codes "DELETE_FAIL") pid (node_text token.node_hash) (codes "Token expired") w',
      )
    ]

-- The children of the node that the receiving peer holds and owns.
unfoldable pub own_children : Text → Storage → List Text → List CocNode
own_children pid s [] = []
own_children pid s (h ∷ hs) =
    let rest = own_children pid s hs in
    elim (get_node h s) [
      | none ↦ rest
      | some child ↦ if text_eq child.owner_id pid then child ∷ rest else rest
    ]

-- What a deletion does to the storage of the receiving peer: the node goes, and with the last node
-- of a content the content itself, for which a tombstone is set.
unfoldable pub apply_deletion : Config → ℕ → Text → CocNode → Storage → Storage
apply_deletion cfg now originator_id node s =
    let s' = remove_node node.node_hash s in
    if is_content_referenced node.content_hash s'
    then s'
    else add_tombstone
        (record {
          content_hash = node.content_hash;
          deleted_at = cfg.format.isoformat now;
          delete_after = cfg.format.isoformat (now + seconds cfg.tombstone_grace_seconds);
          originator_id = originator_id;
          node_hash = node.node_hash;
        })
        (remove_content node.content_hash s')

-- The deletion of a node that the receiving peer holds: its storage, the audit log, and then the
-- deletions of its own children of that node.
unfoldable pub delete_found : Config → ℕ → Text → DeletionToken → Peer → CocNode → Action Bool
delete_found cfg now pid token p node = do
  modify (
      update_peer pid
        (λ q. record q { storage = apply_deletion cfg now token.originator_id node q.storage }))
  modify (log_event (codes "DELETE_SUCCESS") pid (node_text node.node_hash) [])
  initiate_all cfg now (own_children pid p.storage node.children_hashes) p
  pure true

-- The part of `process_token` after the signature has been checked.
unfoldable pub delete_node : Config → ℕ → Text → DeletionToken → Action Bool
unfolding get_peer
delete_node cfg now pid token = do
  p ← get_peer pid
  elim (get_node token.node_hash p.storage) [
    | none ↦ pure false
    | some node ↦ delete_found cfg now pid token p node
  ]

-- The check of the signature under the originator's key.
unfoldable pub verify_token : Config → Text → DeletionToken → Action Bool
unfolding log_event
verify_token cfg pid token w = elim (lookup token.originator_id w.peers) [
  | none ↦ (ok false, w)
  | some originator ↦
      elim (check_signature cfg.crypto (cfg.crypto.public_key originator.signing_key) token) [
        | none ↦ (err value_error, w)
        | some true ↦ (ok true, w)
        | some false ↦ (
          ok false,
          log_event (codes "DELETE_FAIL") pid (node_text token.node_hash)
              (codes "Invalid signature") w,
        )
      ]
]

-- `DeletionEngine.process_token`
unfoldable pub process_token : Config → ℕ → Text → DeletionToken → Action Bool
process_token cfg now pid token = do
  admit_token cfg now pid token
  valid ← verify_token cfg pid token
  if valid then delete_node cfg now pid token else pure false

-- `clear_token_cache`, for one peer or for all.
unfoldable pub clear_token_cache : Option Text → World → World
clear_token_cache none w = record w { processed_tokens = [] }
clear_token_cache (some pid) w =
    if is_empty pid
    then record w { processed_tokens = [] }
    else elim (lookup pid w.processed_tokens) [
      | none ↦ w
      | some c ↦ record w {
        processed_tokens = insert pid (record c { processed = [] }) w.processed_tokens;
      }
    ]
