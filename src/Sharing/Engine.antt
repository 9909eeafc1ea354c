-- ===== src/Sharing/Engine.antt =====
-- `SecretSharingEngine`; a set of peers is a list that is read by membership.
use trust_flow_chain_of_cust.Strings.Hex.{Bytes}
use trust_flow_chain_of_cust.Prelude.Dict.{Dict, lookup, insert, get_or}
use trust_flow_chain_of_cust.Prelude.KeySet.{add, discard, of_list}
use trust_flow_chain_of_cust.Prelude.Result.{Result, ok, err}
use trust_flow_chain_of_cust.Sharing.Share.{Share, Tools, Fresh, Error, value_error, split_secret}
use trust_flow_chain_of_cust.Sharing.Reconstruct.{reconstruct_secret}
use trust_flow_chain_of_cust.Prelude.{
  length, retain, elem, ltb, leb, if◌then◌else◌, Text, ℕ, ◌+◌, ◌/◌, Bool, Option, none, some, List,
  [], ◌∷◌,
}

pub record Engine : Type 0 where
  pub default_threshold : ℕ
  pub default_shares : ℕ
  pub share_registry : Dict (List Text)
  pub hmac_keys : Dict Bytes
  pub authorized_recipients : Dict (List Text)
  pub thresholds : Dict ℕ

-- `SecretSharingEngine()`
unfoldable pub new_engine : Engine
new_engine = record {
  default_threshold = 3;
  default_shares = 5;
  share_registry = [];
  hmac_keys = [];
  authorized_recipients = [];
  thresholds = [];
}

-- `max(2, num_shares // 2 + 1)`
unfoldable pub majority : ℕ → ℕ
majority n = if ltb 2 (n / 2 + 1) then n / 2 + 1 else 2

-- The shares under the ids of their recipients, from the dict that is given.
unfoldable pub assign : List Text → List Share → Dict Share → Dict Share
assign [] shares d = d
assign (peer_id ∷ ids) [] d = d
assign (peer_id ∷ ids) (s ∷ shares) d = assign ids shares (insert peer_id s d)

-- What `split_content` keeps of a content.
unfoldable pub register : Text → List Text → Bytes → ℕ → Engine → Engine
register content_hash recipient_ids hmac_key threshold e = record e {
  share_registry = insert content_hash recipient_ids e.share_registry;
  hmac_keys = insert content_hash hmac_key e.hmac_keys;
  authorized_recipients = insert content_hash (of_list recipient_ids) e.authorized_recipients;
  thresholds = insert content_hash threshold e.thresholds;
}

-- The end of `split_content`; there is at least one share.
unfoldable pub keep_shares : List Text → ℕ → List Share × Bytes → Engine → Dict Share × Engine
unfolding assign register
keep_shares recipient_ids threshold ([], hmac_key) e = ([], e)
keep_shares recipient_ids threshold (s ∷ shares, hmac_key) e = (
  assign recipient_ids (s ∷ shares) [],
  register s.content_hash recipient_ids hmac_key threshold e,
)

-- The threshold of `split_content`.
abbrev pub needed_of : List Text → Option ℕ → ℕ
needed_of ids none = majority (length ids)
needed_of ids (some n) = n

-- `split_content`, with the engine as it is after the call
unfoldable pub split_content :
    Tools → Fresh → Text → List Text → Option ℕ → Engine → Result Error (Dict Share × Engine)
unfolding split_secret majority keep_shares
split_content t r content recipient_ids threshold e =
    let num_shares = length recipient_ids in
    let needed = needed_of recipient_ids threshold in
    if ltb num_shares 2
    then err value_error
    else elim (split_secret t r content needed num_shares) [
      | err x ↦ err x
      | ok made ↦ ok (keep_shares recipient_ids needed made e)
    ]

unfoldable pub reconstruct_content : Tools → List Share → Bool → Engine → Result Error (Option Text)
unfolding reconstruct_secret
reconstruct_content t [] verify_integrity e = ok none
reconstruct_content t (s ∷ shares) verify_integrity e =
    reconstruct_secret t (s ∷ shares)
      (if verify_integrity then lookup s.content_hash e.hmac_keys else none)

unfoldable pub get_share_holders : Text → Engine → List Text
get_share_holders content_hash e = get_or content_hash e.share_registry []

unfoldable pub get_hmac_key : Text → Engine → Option Bytes
get_hmac_key content_hash e = lookup content_hash e.hmac_keys

unfoldable pub is_authorized : Text → Text → Engine → Bool
is_authorized content_hash peer_id e = elem peer_id (get_or content_hash e.authorized_recipients [])

unfoldable pub add_authorized_recipient : Text → Text → Engine → Engine
add_authorized_recipient content_hash peer_id e = record e {
  authorized_recipients =
      insert content_hash (add peer_id (get_or content_hash e.authorized_recipients []))
        e.authorized_recipients;
}

unfoldable pub remove_authorized_recipient : Text → Text → Engine → Engine
remove_authorized_recipient content_hash peer_id e =
    elim (lookup content_hash e.authorized_recipients) [
      | none ↦ e
      | some peers ↦ record e {
        authorized_recipients = insert content_hash (discard peer_id peers) e.authorized_recipients;
      }
    ]

unfoldable pub get_threshold : Text → Engine → ℕ
get_threshold content_hash e = get_or content_hash e.thresholds e.default_threshold

unfoldable pub can_reconstruct : Text → Option (List Text) → Engine → Bool
unfolding get_share_holders get_threshold
can_reconstruct content_hash available_peers e =
    let holders = get_share_holders content_hash e in
    let available_holders : List Text = elim available_peers [
      | none ↦ holders
      | some peers ↦ retain (λ p. elem p peers) holders
    ] in
    leb (get_threshold content_hash e) (length available_holders)
