-- ===== src/Identity/Store.antt =====
-- `IdentityStore`; `peer_certs` is the index from a peer to the serial numbers of its certificates.
use trust_flow_chain_of_cust.Identity.Certificate.{Identity, Certificate, Pki, is_valid_time}
use trust_flow_chain_of_cust.Prelude.Dict.{Dict, lookup, insert, contains, get_or}
use trust_flow_chain_of_cust.Prelude.KeySet.{add}
use trust_flow_chain_of_cust.Prelude.{
  elem, if◌then◌else◌, Text, ℕ, Bool, true, false, Option, none, some, List, [], ◌∷◌, map,
}

pub record Store : Type 0 where
  pub identities : Dict Identity
  pub certificates : Dict Certificate
  pub peer_certs : Dict (List Text)
  pub revoked : List Text

unfoldable pub empty : Store
empty = record { identities = []; certificates = []; peer_certs = []; revoked = [] }

unfoldable pub add_identity : Identity → Store → Store
add_identity i s = record s { identities = insert i.peer_id i s.identities }

unfoldable pub get_identity : Text → Store → Option Identity
get_identity peer_id s = lookup peer_id s.identities

abbrev pub serials_of : Text → Store → List Text
serials_of peer_id s = get_or peer_id s.peer_certs []

unfoldable pub add_certificate : Certificate → Store → Store
unfolding add_identity
add_certificate cert s =
    let serial = cert.serial_number in
    let peer_id = cert.identity.peer_id in
    add_identity cert.identity (record s {
      certificates = insert serial cert s.certificates;
      peer_certs = insert peer_id (add serial (serials_of peer_id s)) s.peer_certs;
    })

unfoldable pub get_certificate : Text → Store → Option Certificate
get_certificate serial_number s = lookup serial_number s.certificates

-- The certificates of some serial numbers, those that are missing left out.
unfoldable pub certificates_of : List Text → Store → List Certificate
certificates_of [] s = []
certificates_of (sn ∷ sns) s =
    let rest = certificates_of sns s in
    elim (lookup sn s.certificates) [ none ↦ rest | some c ↦ c ∷ rest ]

unfoldable pub get_certificates_for_peer : Text → Store → List Certificate
unfolding certificates_of
get_certificates_for_peer peer_id s = certificates_of (serials_of peer_id s) s

-- The loop of `get_valid_certificate`; a time that does not parse raises, `none` on the outside.
unfoldable pub first_valid : Pki → ℕ → List Text → Store → Option (Option Certificate)
first_valid k now [] s = some none
first_valid k now (sn ∷ sns) s =
    let rest = first_valid k now sns s in
    if elem sn s.revoked then rest else elim (lookup sn s.certificates) [
      | none ↦ rest
      | some cert ↦ elim (is_valid_time k now cert) [
        | none ↦ none
        | some true ↦ some (some cert)
        | some false ↦ rest
      ]
    ]

unfoldable pub get_valid_certificate : Pki → ℕ → Text → Store → Option (Option Certificate)
unfolding first_valid
get_valid_certificate k now peer_id s = first_valid k now (serials_of peer_id s) s

unfoldable pub revoke_certificate : Text → Store → Bool × Store
revoke_certificate serial_number s =
    if contains serial_number s.certificates
    then (true, record s { revoked = add serial_number s.revoked })
    else (false, s)

unfoldable pub is_revoked : Text → Store → Bool
is_revoked serial_number s = elem serial_number s.revoked

unfoldable pub list_all_certificates : Store → List Certificate
list_all_certificates s = map (λ e. e.1) s.certificates

unfoldable pub list_all_identities : Store → List Identity
list_all_identities s = map (λ e. e.1) s.identities
