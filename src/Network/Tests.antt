-- ===== src/Network/Tests.antt =====
-- Two peers and their tokens.
use trust_flow_chain_of_cust.Network.Received.{store_received_tombstoned}
use trust_flow_chain_of_cust.Storage.Index.{add_node-IsIndexed, empty-IsIndexed}
use trust_flow_chain_of_cust.Storage.References.{ReferencedBesides}
use trust_flow_chain_of_cust.Clock.{parse_time, replace_z, seconds}
use trust_flow_chain_of_cust.Deletion.Cache.{is_processed, maybe_cleanup, new_cache}
use trust_flow_chain_of_cust.Deletion.Replay.{admit, admit_fresh, admitted, expired}
use trust_flow_chain_of_cust.Prelude.Dict.{insert, lookup-insert}
use trust_flow_chain_of_cust.Samples.{
  toy_config, toy_crypto-IsSignature, plain_node, two_nodes, two_nodes-IsIndexed, other_node,
  two_nodes-other, toy_format, toy_format-IsTimeFormat,
}
use trust_flow_chain_of_cust.Network.World.{World, Peer}
use trust_flow_chain_of_cust.Network.Engine.{
  process_token, apply_deletion, get_token_cache, runs_out,
}
use trust_flow_chain_of_cust.Network.Peers.{add_peer, create_coc_root, go_offline, store_received}
use trust_flow_chain_of_cust.Network.Effect.{
  apply_deletion_shared, apply_deletion_last, DeletedFrom,
}
use trust_flow_chain_of_cust.Network.Process.{verdict_of, IsSigned, Holds}
use trust_flow_chain_of_cust.Network.Frame.{SameStorages, storage_of}
use trust_flow_chain_of_cust.Network.Authority.{
  process_token_deletes, process_token_only, process_token_refused, process_token_any_originator,
}
use trust_flow_chain_of_cust.Network.Reach.{IsSound, insert_peer-IsSound}
use trust_flow_chain_of_cust.Network.Steps.{Reach-IsSound, here, next, create, leave}
use trust_flow_chain_of_cust.Deletion.Token.{DeletionToken, sign, check_signature-sign}
use trust_flow_chain_of_cust.Storage.{
  Storage, get_node, add_node, empty, get_content, is_tombstoned, add_tombstone, get_tombstone,
  is_expired,
}
use trust_flow_chain_of_cust.Prelude.Dict.{lookup}
use trust_flow_chain_of_cust.Prelude.Result.{ok}
use trust_flow_chain_of_cust.Prelude.{
  leb, Text, codes, Text-discrete, ℕ, ◌+◌, ◌≡◌, refl, sym, ap, ◌∙◌, ◌≢◌, true, false, none, some,
  List, [], ◌∷◌, arith, ℕ_discrete,
}

abbrev member : Text → List ℕ → Peer
member name key = record {
  peer_id = name;
  signing_key = key;
  online = true;
  storage = two_nodes;
  offline_queue = [];
  message_ttl_hours = 24;
  connected = false;
}

abbrev alone : World
alone = record { peers = []; in_flight = []; processed_tokens = []; audit = []; next_nonce = 0 }

abbrev both : World
both = add_peer (member (codes "bob") (4 ∷ [])) (add_peer (member (codes "alice") (3 ∷ [])) alone)

alone-IsSound : IsSound alone
unfolding lookup
alone-IsSound = record { indexed = λ pid p l. cc; keyed = λ pid p l. cc }

both-IsSound : IsSound both
unfolding add_peer
both-IsSound =
    insert_peer-IsSound (codes "bob") (record (member (codes "bob") (4 ∷ [])) { connected = true })
      _ two_nodes-IsIndexed refl
      (insert_peer-IsSound (codes "alice")
        (record (member (codes "alice") (3 ∷ [])) { connected = true }) alone two_nodes-IsIndexed
        refl alone-IsSound)

-- Bob's token for Alice's node.
abbrev token : DeletionToken
token = record {
  node_hash = codes "n1";
  originator_id = codes "bob";
  nonce = codes "x";
  timestamp = 138 ∷ [];
  signature = [];
}

abbrev signed_token : DeletionToken
signed_token = sign toy_config.crypto (4 ∷ []) token

abbrev bob : Peer
bob = record (member (codes "bob") (4 ∷ [])) { connected = true }

abbrev alice : Peer
alice = record (member (codes "alice") (3 ∷ [])) { connected = true }

known_bob : lookup (codes "bob") both.peers ≡ some bob
unfolding add_peer lookup insert Text-discrete ℕ_discrete
known_bob = refl

known_alice : lookup (codes "alice") both.peers ≡ some alice
unfolding add_peer lookup insert Text-discrete ℕ_discrete
known_alice = refl

held_n1 : get_node (codes "n1") two_nodes ≡ some plain_node
unfolding get_node add_node lookup insert empty Text-discrete ℕ_discrete
held_n1 = refl

abbrev alice_holds : Holds (codes "alice") (codes "n1") both
alice_holds = record { peer = alice; node = plain_node; present = known_alice; held = held_n1 }

bob_signs : IsSigned toy_config signed_token both
unfolding sign
bob_signs = record {
  originator = bob;
  known = known_bob;
  accepted = check_signature-sign toy_config.crypto (4 ∷ []) token toy_crypto-IsSignature;
}

fresh : verdict_of toy_config 20 (codes "alice") signed_token both ≡ admitted
unfolding verdict_of admit admit_fresh is_processed maybe_cleanup get_token_cache new_cache runs_out
    lookup parse_time replace_z sign add_peer
fresh = refl

process_token_deletes_example :
    ((process_token toy_config 20 (codes "alice") signed_token both).0 ≡ ok true)
    × ((other : Text)
        → other ≢ codes "alice"
        → storage_of other (process_token toy_config 20 (codes "alice") signed_token both).1
          ≡ storage_of other both)
    × ((s : Storage) × (storage_of
            (codes "alice")
            (process_token toy_config 20 (codes "alice") signed_token both).1
          ≡ some s)
        × DeletedFrom toy_config 20 (codes "n1") (codes "c1") two_nodes s)
unfolding sign
process_token_deletes_example =
    process_token_deletes toy_config 20 (codes "alice") signed_token both toy_format-IsTimeFormat
      both-IsSound.keyed fresh bob_signs alice_holds two_nodes-IsIndexed

deleted : (process_token toy_config 20 (codes "alice") signed_token both).0 ≡ ok true
unfolding sign
deleted =
    (process_token_deletes toy_config 20 (codes "alice") signed_token both toy_format-IsTimeFormat
      both-IsSound.keyed fresh bob_signs alice_holds two_nodes-IsIndexed).0

expired_not_admitted : expired ≢ admitted
expired_not_admitted e = cc

process_token_only_example :
    (verdict_of toy_config 20 (codes "alice") signed_token both ≡ admitted)
    × IsSigned toy_config signed_token both
    × Holds (codes "alice") (codes "n1") both
unfolding sign
process_token_only_example =
    process_token_only toy_config 20 (codes "alice") signed_token both deleted

-- Long after its time the token is refused.
too_late : verdict_of toy_config 900000000000 (codes "alice") signed_token both ≡ expired
unfolding verdict_of admit admit_fresh is_processed maybe_cleanup get_token_cache new_cache runs_out
    lookup parse_time replace_z sign add_peer
too_late = refl

process_token_refused_example :
    SameStorages (process_token toy_config 900000000000 (codes "alice") signed_token both).1 both
process_token_refused_example =
    process_token_refused toy_config 900000000000 (codes "alice") signed_token both
      both-IsSound.keyed
      (λ e. expired_not_admitted (
        sym too_late
        ∙ (process_token_only toy_config 900000000000 (codes "alice") signed_token both e).0))

process_token_any_originator_example :
    ((process_token toy_config 20 (codes "alice") signed_token both).0 ≡ ok true)
    × ((s : Storage) × (storage_of
            (codes "alice")
            (process_token toy_config 20 (codes "alice") signed_token both).1
          ≡ some s)
        × (get_node (codes "n1") s ≡ none))
process_token_any_originator_example =
    process_token_any_originator toy_config 20 (codes "alice") token both bob toy_crypto-IsSignature
      both-IsSound.keyed known_bob fresh alice_holds (λ e. cc) two_nodes-IsIndexed

abbrev second : Text → ℕ
second [] = 0
second (_ ∷ []) = 0
second (_ ∷ c ∷ _) = c

distinct : second (codes "n2") ≢ second (codes "n1")
distinct e = omega arith

n2_has_content : ReferencedBesides (codes "n1") (codes "c1") two_nodes
n2_has_content = (codes "n2", other_node, (λ e. distinct (ap second e)), two_nodes-other, refl)

apply_deletion_shared_example :
    (get_content (codes "c1") (apply_deletion toy_config 20 (codes "bob") plain_node two_nodes)
      ≡ get_content (codes "c1") two_nodes)
    × ((apply_deletion toy_config 20 (codes "bob") plain_node two_nodes).tombstones
        ≡ two_nodes.tombstones)
apply_deletion_shared_example =
    apply_deletion_shared toy_config 20 (codes "bob") plain_node two_nodes two_nodes-IsIndexed
      n2_has_content

abbrev one_node : Storage
one_node = add_node plain_node empty

only_n1 : ¬ ReferencedBesides (codes "n1") (codes "c1") one_node
unfolding add_node empty lookup
only_n1 (h, n, other, found, same) = ground (arith, lookup-insert (codes "n1") h plain_node [])

apply_deletion_last_example :
    (get_content (codes "c1") (apply_deletion toy_config 20 (codes "bob") plain_node one_node)
      ≡ none)
    × ((later : ℕ)
        → (is_tombstoned toy_format later
            (codes "c1")
            (apply_deletion toy_config 20 (codes "bob") plain_node one_node)).0
          ≡ leb later (20 + seconds 3600))
apply_deletion_last_example =
    apply_deletion_last toy_config 20 (codes "bob") plain_node one_node toy_format-IsTimeFormat
      (add_node-IsIndexed plain_node empty empty-IsIndexed) only_n1

-- Alice makes a node and sends it, Bob leaves and comes back, and the message arrives.
abbrev made : World
made = (create_coc_root toy_config 30 (codes "alice") (codes "text") (codes "bob" ∷ []) both).1

Reach-IsSound_example : IsSound (go_offline (codes "bob") made)
Reach-IsSound_example = Reach-IsSound both-IsSound (
    next (next here (create 30 (codes "alice") (codes "text") (codes "bob" ∷ [])))
      (leave (codes "bob")))

-- A storage whose content was deleted.
abbrev cleared : Storage
cleared =
    add_tombstone
      (record {
        content_hash = codes "c1";
        deleted_at = toy_format.isoformat 10;
        delete_after = toy_format.isoformat 50;
        originator_id = codes "alice";
        node_hash = codes "n1";
      })
      empty

cleared-tombstoned : (is_tombstoned toy_format 30 (codes "c1") cleared).0 ≡ true
unfolding is_tombstoned get_tombstone add_tombstone empty is_expired insert lookup parse_time
    replace_z
cleared-tombstoned = ground arith

store_received_tombstoned_example :
    ((is_tombstoned toy_format 30 (codes "c1") (store_received plain_node (codes "text") cleared)).0
      ≡ true)
    × (get_content (codes "c1") (store_received plain_node (codes "text") cleared)
        ≡ some (codes "text"))
store_received_tombstoned_example =
    store_received_tombstoned plain_node (codes "text") toy_format 30 cleared cleared-tombstoned
