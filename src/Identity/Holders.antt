-- ===== src/Identity/Holders.antt =====
-- Whose certificates the store gives out.
use trust_flow_chain_of_cust.Identity.Certificate.{Certificate, Pki, is_valid_time}
use trust_flow_chain_of_cust.Prelude.Dict.{lookup, lookup-insert}
use trust_flow_chain_of_cust.Prelude.KeySet.{add, elem-add}
use trust_flow_chain_of_cust.Identity.Store.{
  Store, empty, add_certificate, serials_of, first_valid, get_valid_certificate, is_revoked,
}
use trust_flow_chain_of_cust.Prelude.{
  elem, if◌then◌else◌, Bool-cases, Text, text_eq, Text-discrete, ℕ, ◌≡◌, sym, ap, ◌∙◌, ◌≢◌, ◌⊎◌,
  inl, inr, true, false, ◌&&◌, ◌||◌, none, some, List, [], ◌∷◌, arith,
}

-- A certificate that is filed for a peer, under its own serial number.
pub record Filed (peer sn : Text) (s : Store) : Type 0 where
  pub cert : Certificate
  pub stored : lookup sn s.certificates ≡ some cert
  pub holder : cert.identity.peer_id ≡ peer
  pub serial : cert.serial_number ≡ sn

-- What is listed for a peer is a certificate of that peer.
abbrev pub IsFiled : Store → Type 0
IsFiled s = (peer sn : Text) → elem sn (serials_of peer s) ≡ true → Filed peer sn s

pub empty-IsFiled : IsFiled empty
unfolding empty lookup elem
empty-IsFiled peer sn e = absurd (ground arith)

listed-add_certificate :
    (cert : Certificate) (s : Store) (peer sn : Text)
    → elem sn (serials_of peer (add_certificate cert s)) ≡ (
        elem sn (serials_of peer s)
        || (text_eq peer cert.identity.peer_id && text_eq sn cert.serial_number))
unfolding add_certificate
listed-add_certificate cert s peer sn = ground (
  arith,
  lookup-insert cert.identity.peer_id peer
      (add cert.serial_number (serials_of cert.identity.peer_id s)) s.peer_certs,
  elem-add cert.serial_number sn (serials_of cert.identity.peer_id s),
)

stored-add_certificate :
    (cert : Certificate) (s : Store) (sn : Text)
    → lookup sn (add_certificate cert s).certificates
      ≡ (if text_eq sn cert.serial_number then some cert else lookup sn s.certificates)
unfolding add_certificate
stored-add_certificate cert s sn = lookup-insert cert.serial_number sn cert s.certificates

-- If everything listed for a peer is a stored certificate of that peer, then this holds after
-- adding a certificate whose serial number is new or belonged to the same peer.
pub add_certificate-IsFiled :
    (cert : Certificate) (s : Store)
    → IsFiled s
    → ((old : Certificate)
        → lookup cert.serial_number s.certificates ≡ some old
        → old.identity.peer_id ≡ cert.identity.peer_id)
    → IsFiled (add_certificate cert s)
add_certificate-IsFiled cert s inv same peer sn e = elim (Text-discrete sn cert.serial_number) [
  | yes new ↦ record {
    cert = cert;
    stored = stored-add_certificate cert s sn ∙ (ground arith);
    holder = elim (Bool-cases (elem sn (serials_of peer s))) [
      | inl before ↦
          let f = inv peer sn before in
          sym (same f.cert (ap (λ t. lookup t s.certificates) (sym new) ∙ f.stored)) ∙ f.holder
      | inr not_before ↦ ground (arith, listed-add_certificate cert s peer sn)
    ];
    serial = sym new;
  }
  | no other ↦
      let f = inv peer sn (ground (arith, listed-add_certificate cert s peer sn)) in
      record {
        cert = f.cert;
        stored = stored-add_certificate cert s sn ∙ (ground (arith, f.stored));
        holder = f.holder;
        serial = f.serial;
      }
]

-- One round of the loop: the certificate is the first one, or comes later.
first_valid_cases :
    (k : Pki) (now : ℕ) (sn : Text) (sns : List Text) (s : Store) (cert : Certificate)
    → first_valid k now (sn ∷ sns) s ≡ some (some cert)
    → ((lookup sn s.certificates ≡ some cert)
        × (elem sn s.revoked ≡ false)
        × (is_valid_time k now cert ≡ some true))
      ⊎ (first_valid k now sns s ≡ some (some cert))
unfolding first_valid
first_valid_cases k now sn sns s cert e = ground arith

-- What the loop finds is one of the listed, is not revoked, and is in its time.
first_valid_sound :
    (k : Pki) (now : ℕ) (sns : List Text) (s : Store) (cert : Certificate)
    → first_valid k now sns s ≡ some (some cert)
    → (sn : Text) × (elem sn sns ≡ true)
      × (lookup sn s.certificates ≡ some cert)
      × (elem sn s.revoked ≡ false)
      × (is_valid_time k now cert ≡ some true)
unfolding first_valid elem
first_valid_sound k now [] s cert e = absurd (ground arith)
first_valid_sound k now (sn ∷ sns) s cert e = elim (first_valid_cases k now sn sns s cert e) [
  | inl here ↦ (sn, ground arith, here.0, here.1, here.2)
  | inr later ↦
      let f = first_valid_sound k now sns s cert later in (f.0, ground (arith, f.1), f.2, f.3, f.4)
]

-- In a store in which everything listed for a peer is a stored certificate of that peer, the
-- valid certificate found for a peer is that peer's, is not revoked, and is within its time.
pub get_valid_certificate_sound :
    (k : Pki) (now : ℕ) (peer : Text) (s : Store) (cert : Certificate)
    → IsFiled s
    → get_valid_certificate k now peer s ≡ some (some cert)
    → (cert.identity.peer_id ≡ peer)
      × (is_revoked cert.serial_number s ≡ false)
      × (is_valid_time k now cert ≡ some true)
get_valid_certificate_sound k now peer s cert inv e =
    let found =
      first_valid_sound k now (serials_of peer s) s cert (unfold get_valid_certificate in e) in
    let f = inv peer found.0 found.1 in
    let same : f.cert ≡ cert = cc in
    (
      ap (λ c. c.identity.peer_id) (sym same) ∙ f.holder,
      (unfold is_revoked in
          ap (λ t. elem t s.revoked) (ap (λ c. c.serial_number) (sym same) ∙ f.serial) ∙ found.3),
      found.4,
    )

first_valid_complete :
    (k : Pki) (now : ℕ) (sns : List Text) (sn : Text) (s : Store) (cert : Certificate)
    → elem sn sns ≡ true
    → lookup sn s.certificates ≡ some cert
    → elem sn s.revoked ≡ false
    → is_valid_time k now cert ≡ some true
    → first_valid k now sns s ≢ some none
unfolding first_valid elem
first_valid_complete k now [] sn s cert listed stored kept valid e = absurd (ground arith)
first_valid_complete k now (x ∷ sns) sn s cert listed stored kept valid e =
    ground (arith, first_valid_complete k now sns sn s cert)

-- If a certificate that is listed for a peer is stored, not revoked and within its time, then
-- the search for a valid certificate of that peer does not come back with nothing.
pub get_valid_certificate_complete :
    (k : Pki) (now : ℕ) (peer sn : Text) (s : Store) (cert : Certificate)
    → elem sn (serials_of peer s) ≡ true
    → lookup sn s.certificates ≡ some cert
    → is_revoked sn s ≡ false
    → is_valid_time k now cert ≡ some true
    → get_valid_certificate k now peer s ≢ some none
get_valid_certificate_complete k now peer sn s cert listed stored kept valid e =
    first_valid_complete k now (serials_of peer s) sn s cert listed stored
      (unfold is_revoked in kept) valid (unfold get_valid_certificate in e)
