-- ===== src/Identity/Tests.antt =====
-- Certificates of a toy authority.
use trust_flow_chain_of_cust.Samples.{
  toy_crypto, toy_crypto-IsSignature, toy_format, toy_format-IsTimeFormat,
}
use trust_flow_chain_of_cust.Identity.Certificate.{Identity, Certificate, Pki, is_valid_time}
use trust_flow_chain_of_cust.Identity.Authority.{
  Authority, days, issue_certificate, verify_certificate,
}
use trust_flow_chain_of_cust.Identity.Issue.{
  verify_certificate-issue_certificate, verify_certificate_forged,
}
use trust_flow_chain_of_cust.Identity.Store.{
  Store, empty, add_certificate, serials_of, get_valid_certificate, is_revoked, first_valid,
}
use trust_flow_chain_of_cust.Identity.Holders.{
  IsFiled, empty-IsFiled, add_certificate-IsFiled, get_valid_certificate_sound,
  get_valid_certificate_complete,
}
use trust_flow_chain_of_cust.Prelude.KeySet.{add}
use trust_flow_chain_of_cust.Prelude.Dict.{lookup, insert}
use trust_flow_chain_of_cust.Prelude.{
  elem, leb, codes, is_empty, Text-discrete, ◌+◌, ◌≡◌, refl, ◌≢◌, true, false, not, ◌&&◌, none,
  some, [], ◌∷◌, ◌++◌, arith, ℕ_discrete,
}

abbrev toy_pki : Pki
toy_pki = record {
  crypto = toy_crypto;
  format = toy_format;
  is_key = λ k. not (is_empty k);
  dumps = λ i issuer from until serial. i.peer_id ++ issuer ++ from ++ until ++ serial;
}

abbrev ca : Authority
ca = record {
  identity = record {
    peer_id = codes "ca";
    public_key = 9 ∷ [];
    created_at = codes "t";
    metadata = [];
  };
  signing_key = 9 ∷ [];
  validation_cache = [];
}

abbrev alice : Identity
alice = record {
  peer_id = codes "alice";
  public_key = 3 ∷ [];
  created_at = codes "t";
  metadata = [];
}

abbrev cert : Certificate
cert = issue_certificate toy_pki 10 (codes "s1") alice 365 ca

ca_other : codes "ca" ≢ codes "self"
ca_other e = cc

verify_certificate-issue_certificate_example :
    (verify_certificate toy_pki 500 cert ca).0 ≡ some (leb 10 500 && leb 500 (10 + days 365))
verify_certificate-issue_certificate_example =
    verify_certificate-issue_certificate toy_pki 10 500 (codes "s1") alice 365 ca
      toy_crypto-IsSignature toy_format-IsTimeFormat refl refl ca_other (unfold lookup in refl)

-- A certificate for Mallory's key that nobody has signed.
abbrev forged : Certificate
forged = record cert {
  identity = record {
    peer_id = codes "alice";
    public_key = 66 ∷ [];
    created_at = codes "t";
    metadata = [];
  };
  signature = [];
}

verified : (verify_certificate toy_pki 500 cert ca).0 ≡ some true
verified = verify_certificate-issue_certificate_example

forged_in_time : is_valid_time toy_pki 600 forged ≡ some true
unfolding is_valid_time issue_certificate
forged_in_time = refl

verify_certificate_forged_example :
    (verify_certificate toy_pki 600 forged (verify_certificate toy_pki 500 cert ca).1).0 ≡ some true
verify_certificate_forged_example =
    verify_certificate_forged toy_pki 500 600 cert forged ca (unfold lookup in refl) verified refl
      (omega arith) forged_in_time

abbrev one_cert : Store
one_cert = add_certificate cert empty

nothing_stored :
    (old : Certificate)
    → lookup cert.serial_number empty.certificates ≡ some old
    → old.identity.peer_id ≡ cert.identity.peer_id
unfolding empty lookup
nothing_stored old e = cc

not_stored :
    (old : Certificate)
    → lookup (codes "s3") one_cert.certificates ≡ some old
    → old.identity.peer_id ≡ cert.identity.peer_id
unfolding add_certificate empty issue_certificate lookup insert Text-discrete ℕ_discrete
not_stored old e = cc

one_cert-IsFiled : IsFiled one_cert
one_cert-IsFiled = add_certificate-IsFiled cert empty empty-IsFiled nothing_stored

add_certificate-IsFiled_example :
    IsFiled (add_certificate (record cert { serial_number = codes "s3" }) one_cert)
add_certificate-IsFiled_example =
    add_certificate-IsFiled (record cert { serial_number = codes "s3" }) one_cert one_cert-IsFiled
      not_stored

found_cert : get_valid_certificate toy_pki 500 (codes "alice") one_cert ≡ some (some cert)
unfolding get_valid_certificate first_valid add_certificate empty issue_certificate is_valid_time
    lookup insert elem add Text-discrete ℕ_discrete
found_cert = refl

get_valid_certificate_sound_example :
    (cert.identity.peer_id ≡ codes "alice")
    × (is_revoked cert.serial_number one_cert ≡ false)
    × (is_valid_time toy_pki 500 cert ≡ some true)
get_valid_certificate_sound_example =
    get_valid_certificate_sound toy_pki 500 (codes "alice") one_cert cert one_cert-IsFiled
      found_cert

alice_listed : elem (codes "s1") (serials_of (codes "alice") one_cert) ≡ true
unfolding add_certificate empty issue_certificate lookup insert elem add Text-discrete ℕ_discrete
alice_listed = refl

cert_stored : lookup (codes "s1") one_cert.certificates ≡ some cert
unfolding add_certificate empty issue_certificate lookup insert Text-discrete ℕ_discrete
cert_stored = refl

get_valid_certificate_complete_example :
    get_valid_certificate toy_pki 500 (codes "alice") one_cert ≢ some none
get_valid_certificate_complete_example =
    get_valid_certificate_complete toy_pki 500 (codes "alice") (codes "s1") one_cert cert
      alice_listed cert_stored (unfold is_revoked add_certificate empty elem in refl)
      get_valid_certificate_sound_example.2
