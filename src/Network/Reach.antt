-- ===== src/Network/Reach.antt =====
-- Every state that the simulation can reach is sound: each storage has an exact index, and each peer
-- is listed under its own id.
use trust_flow_chain_of_cust.Network.Effect.{apply_deletion-IsIndexed}
use trust_flow_chain_of_cust.Network.Process.{
  get_peer-state, delete_node-no_peer, admit_token-peers, delete_node-missing, delete_node-found,
  verify_token-peers,
}
use trust_flow_chain_of_cust.CocNode.{CocNode}
use trust_flow_chain_of_cust.Deletion.Token.{DeletionToken}
use mathlib.Core.Path.{subst}
use trust_flow_chain_of_cust.Network.Engine.{
  delete_found, initiate_all, initiate_deletion, process_token, apply_deletion, delete_node,
  issue_token, verify_token, admit_token, own_children, node_text,
}
use trust_flow_chain_of_cust.Prelude.Result.{Result, ok, err}
use trust_flow_chain_of_cust.Prelude.Dict.{lookup, insert, lookup-insert}
use trust_flow_chain_of_cust.Storage.{Storage, get_node}
use trust_flow_chain_of_cust.Storage.Index.{IsIndexed}
use trust_flow_chain_of_cust.Network.Peers.{update_storage}
use trust_flow_chain_of_cust.Network.World.{
  Action, Message, Peer, World, send_all, Payload, route_message, ◌>>=◌, send_message, update_peer,
  Error, Config, get_peer, log_event, modify, pure, deletion_token,
}
use trust_flow_chain_of_cust.Prelude.{
  if◌then◌else◌, Bool-cases, Option-cases, Text, codes, Text-discrete, ℕ, ◌≡◌, refl, sym, ap, ◌∙◌,
  inl, inr, Bool, true, false, some, List, [], ◌∷◌, arith,
}

pub record IsSound (w : World) : Type 0 where
  pub indexed : (pid : Text) (p : Peer) → lookup pid w.peers ≡ some p → IsIndexed p.storage
  pub keyed : (pid : Text) (p : Peer) → lookup pid w.peers ≡ some p → p.peer_id ≡ pid

-- An action that keeps soundness, however it ends.
abbrev pub Keeps : {A : Type 0} → Action A → Type 0
Keeps m = (w : World) → IsSound w → IsSound (m w).1

pub >>=-Keeps :
    {A B : Type 0} (m : Action A) (f : A → Action B)
    → Keeps m
    → ((a : A) → Keeps (f a))
    → Keeps (m >>= f)
>>=-Keeps m f hm hf w s = go (m w).0 refl
  where
    go : (r : Result Error _) → (m w).0 ≡ r → IsSound ((m >>= f) w).1
    go (ok a) e = rw (e, ◌>>=◌) (hf a (m w).1 (hm w s))
    go (err x) e = rw (e, ◌>>=◌) (hm w s)

-- Only the peers matter.
pub IsSound-peers : (v w : World) → v.peers ≡ w.peers → IsSound w → IsSound v
IsSound-peers v w e s = record {
  indexed = λ pid p l. s.indexed pid p (sym (ap (lookup pid) e) ∙ l);
  keyed = λ pid p l. s.keyed pid p (sym (ap (lookup pid) e) ∙ l);
}

pub insert_peer-IsSound :
    (pid : Text) (p : Peer) (w : World)
    → IsIndexed p.storage
    → p.peer_id ≡ pid
    → IsSound w
    → IsSound (record w { peers = insert pid p w.peers })
insert_peer-IsSound pid p w inv own s = record {
  indexed = λ a q l. elim (Text-discrete a pid) [
    | yes same ↦ subst (λ r. IsIndexed r.storage) (inserted a q l same) inv
    | no other ↦ s.indexed a q (ground (arith, lookup-insert pid a p w.peers))
  ];
  keyed = λ a q l. elim (Text-discrete a pid) [
    | yes same ↦ ap (λ r. r.peer_id) (sym (inserted a q l same)) ∙ own ∙ sym same
    | no other ↦ s.keyed a q (ground (arith, lookup-insert pid a p w.peers))
  ];
}
  where
    inserted : (a : Text) (q : Peer) → lookup a (insert pid p w.peers) ≡ some q → a ≡ pid → p ≡ q
    inserted a q l same = ground (arith, lookup-insert pid a p w.peers)

pub update_peer-IsSound :
    (pid : Text) (f : Peer → Peer) (w : World)
    → ((p : Peer) → (f p).peer_id ≡ p.peer_id)
    → ((p : Peer) → IsIndexed p.storage → IsIndexed (f p).storage)
    → IsSound w
    → IsSound (update_peer pid f w)
update_peer-IsSound pid f w own keep s = elim (Option-cases (lookup pid w.peers)) [
  | inl e ↦ unfold update_peer in rw (e, update_peer) s
  | inr (p, e) ↦
      unfold update_peer in
      rw (e, update_peer)
        (insert_peer-IsSound pid (f p) w (keep p (s.indexed pid p e)) (own p ∙ s.keyed pid p e) s)
]

pub update_storage-IsSound :
    (pid : Text) (f : Storage → Storage) (w : World)
    → ((t : Storage) → IsIndexed t → IsIndexed (f t))
    → IsSound w
    → IsSound (update_storage pid f w)
unfolding update_storage
update_storage-IsSound pid f w keep s =
    update_peer-IsSound pid (λ p. record p { storage = f p.storage }) w (λ p. refl)
      (λ p inv. keep p.storage inv) s

route_message-IsSound :
    (now : ℕ) (m : Message) (w : World) → IsSound w → IsSound (route_message now m w)
route_message-IsSound now m w s = elim (Option-cases (lookup m.recipient_id w.peers)) [
  | inl e ↦ unfold route_message in rw (e, route_message) s
  | inr (p, e) ↦ elim (Bool-cases p.online) [
    | inl on ↦ unfold route_message in rw (e, route_message) (rw on (IsSound-peers _ w refl s))
    | inr off ↦
        unfold route_message in
        rw (e, route_message)
          (rw off (update_peer-IsSound m.recipient_id _ w (λ q. refl) (λ q inv. inv) s))
  ]
]

pub send_all-IsSound :
    (now : ℕ) (p : Peer) (rs : List Text) (payload : Payload) (w : World)
    → IsSound w
    → IsSound (send_all now p rs payload w)
unfolding send_all
send_all-IsSound now p [] payload w s = s
send_all-IsSound now p (r ∷ rs) payload w s =
    send_all-IsSound now p rs payload (send_message now p r payload w) (sent p.connected refl)
  where
    sent : (b : Bool) → p.connected ≡ b → IsSound (send_message now p r payload w)
    sent true e = unfold send_message in rw e (route_message-IsSound now _ w s)
    sent false e = unfold send_message in rw e s

issue_token-Keeps :
    (cfg : Config) (now : ℕ) (n : CocNode) (p : Peer) → Keeps (issue_token cfg now n p)
issue_token-Keeps cfg now n p w s =
    IsSound-peers (issue_token cfg now n p w).1 w (same_peers cfg now n p w) s
  where
    same_peers :
        (c : Config) (t : ℕ) (m : CocNode) (q : Peer) (v : World)
        → (issue_token c t m q v).1.peers ≡ v.peers
    same_peers c t m q v = unfold issue_token log_event in ground arith

pub initiate_deletion-Keeps :
    (cfg : Config) (now : ℕ) (n : CocNode) (p : Peer) → Keeps (initiate_deletion cfg now n p)
unfolding initiate_deletion
initiate_deletion-Keeps cfg now n p =
    >>=-Keeps (issue_token cfg now n p)
      (λ token. modify (send_all now p n.recipient_ids (deletion_token token)))
      (issue_token-Keeps cfg now n p)
      (λ token w s. send_all-IsSound now p n.recipient_ids (deletion_token token) w s)

initiate_all-Keeps :
    (cfg : Config) (now : ℕ) (ns : List CocNode) (p : Peer) → Keeps (initiate_all cfg now ns p)
unfolding initiate_all
initiate_all-Keeps cfg now [] p w s = s
initiate_all-Keeps cfg now (n ∷ ns) p w s =
    >>=-Keeps (initiate_deletion cfg now n p) (λ _. initiate_all cfg now ns p)
      (initiate_deletion-Keeps cfg now n p) (λ _. initiate_all-Keeps cfg now ns p) w s

pub get_peer-Keeps : (pid : Text) → Keeps (get_peer pid)
get_peer-Keeps pid w s = subst IsSound (sym (get_peer-state pid w)) s

delete_found-Keeps :
    (cfg : Config) (now : ℕ) (pid : Text) (token : DeletionToken) (p : Peer) (node : CocNode)
    → Keeps (delete_found cfg now pid token p node)
unfolding delete_found
delete_found-Keeps cfg now pid token p node w s =
    let f = apply_deletion cfg now token.originator_id node in
    let v = update_peer pid (λ q. record q { storage = f q.storage }) w in
    let deleted : IsSound v =
      update_peer-IsSound pid (λ q. record q { storage = f q.storage }) w (λ q. refl)
        (λ q inv. apply_deletion-IsIndexed cfg now token.originator_id node q.storage inv) s in
    >>=-Keeps (initiate_all cfg now (own_children pid p.storage node.children_hashes) p)
      (λ _. pure true) (initiate_all-Keeps cfg now _ p) (λ _ u t. t)
      (log_event (codes "DELETE_SUCCESS") pid (node_text node.node_hash) [] v)
      (unfold log_event in IsSound-peers _ v refl deleted)

delete_node-Keeps :
    (cfg : Config) (now : ℕ) (pid : Text) (token : DeletionToken)
    → Keeps (delete_node cfg now pid token)
delete_node-Keeps cfg now pid token w s = elim (Option-cases (lookup pid w.peers)) [
  | inl away ↦ rw (delete_node-no_peer cfg now pid token w away) s
  | inr (p, present) ↦ elim (Option-cases (get_node token.node_hash p.storage)) [
    | inl missing ↦ rw (delete_node-missing cfg now pid token w p present missing) s
    | inr (n, held) ↦
        rw
          (delete_node-found cfg now pid token w
            (record { peer = p; node = n; present = present; held = held }))
          (delete_found-Keeps cfg now pid token p n w s)
  ]
]

-- Processing a token keeps soundness, whatever becomes of it.
pub process_token-Keeps :
    (cfg : Config) (now : ℕ) (pid : Text) (token : DeletionToken) (w : World)
    → IsSound w
    → IsSound (process_token cfg now pid token w).1
unfolding process_token
process_token-Keeps cfg now pid token =
    >>=-Keeps (admit_token cfg now pid token) (λ _. checked_deletion)
      (λ w s. IsSound-peers _ w (admit_token-peers cfg now pid token w) s)
      (λ _.
        >>=-Keeps (verify_token cfg pid token)
          (λ valid. if valid then delete_node cfg now pid token else pure false)
          (λ w s. IsSound-peers _ w (verify_token-peers cfg pid token w) s) (λ valid. branch valid))
  where
    checked_deletion : Action Bool
    checked_deletion = do
      valid ← verify_token cfg pid token
      if valid then delete_node cfg now pid token else pure false

    branch : (valid : Bool) → Keeps (if valid then delete_node cfg now pid token else pure false)
    branch true w s = delete_node-Keeps cfg now pid token w s
    branch false w s = s
