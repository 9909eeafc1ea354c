-- ===== src/Identity/Issue.antt =====
-- What certificates that were issued, or signed by their owner, verify to, and what the cache of
-- results lets through.
use trust_flow_chain_of_cust.Crypto.{IsSignature, sign_message, verify_signature}
use trust_flow_chain_of_cust.Clock.{IsTimeFormat}
use trust_flow_chain_of_cust.Identity.Certificate.{
  Identity, Certificate, Pki, get_verify_key, create, is_valid_time, is_self_signed, self_issuer,
  get_signed_data, signed_by,
}
use trust_flow_chain_of_cust.Identity.Authority.{
  Authority, cache_ttl, get_cached_validation, cache_validation_result, days, unsigned,
  issue_certificate, issuer_key, check_signature, verify_uncached, verify_cached,
  verify_certificate, create_self_signed, verify_self_signed,
}
use trust_flow_chain_of_cust.Prelude.Dict.{Dict, lookup, lookup-insert}
use trust_flow_chain_of_cust.Strings.Hex.{Bytes, from_hex-to_hex}
use trust_flow_chain_of_cust.Prelude.{
  leb, Text, text_eq_refl, ℕ, ◌+◌, ◌<◌, ◌≡◌, refl, sym, ap, ◌∙◌, ◌≢◌, Bool, true, false, ◌&&◌,
  Option, none, some, arith,
}

-- A signature by the key's owner passes.
check_signature-signed_by :
    (k : Pki) (key : Bytes) (c : Certificate)
    → IsSignature k.crypto
    → check_signature k (k.crypto.public_key key) (signed_by k key c) ≡ true
unfolding check_signature signed_by sign_message verify_signature get_signed_data
check_signature-signed_by k key c sound =
    let m = get_signed_data k c in
    rw (from_hex-to_hex (k.crypto.sign key m) (sound.sign-IsBytes key m), check_signature)
      (sound.accepts-sign key m)

is_valid_time-unsigned :
    (k : Pki) (now later : ℕ) (serial : Text) (validity_days : ℕ) (issuer : Text) (i : Identity)
    (key : Bytes)
    → IsTimeFormat k.format
    → is_valid_time k later (signed_by k key (unsigned k now serial validity_days issuer i))
      ≡ some (leb now later && leb later (now + days validity_days))
unfolding is_valid_time unsigned signed_by
is_valid_time-unsigned k now later serial validity_days issuer i key f =
    rw
      (
        f.fromisoformat-isoformat now,
        f.fromisoformat-isoformat (now + days validity_days),
        is_valid_time,
      )
      refl

verify_certificate-fresh :
    (k : Pki) (now : ℕ) (cert : Certificate) (a : Authority)
    → lookup cert.serial_number a.validation_cache ≡ none
    → verify_certificate k now cert a ≡ verify_uncached k now cert a
unfolding verify_certificate
verify_certificate-fresh k now cert a e =
    let q : get_cached_validation now cert.serial_number a ≡ (none, a) =
      unfold get_cached_validation in rw (e, get_cached_validation) refl in
    rw (ap (λ r. r.0) q, verify_certificate) (ap (λ r. verify_uncached k now cert r.1) q)

verify_uncached-key :
    (k : Pki) (now : ℕ) (cert : Certificate) (a : Authority) (key : Bytes) (b : Bool)
    → issuer_key k cert a ≡ some (some key)
    → is_valid_time k now cert ≡ some b
    → check_signature k key cert ≡ true
    → (verify_uncached k now cert a).0 ≡ some b
unfolding verify_uncached
verify_uncached-key k now cert a key true own valid good =
    rw (valid, verify_uncached) (rw own (ap some good))
verify_uncached-key k now cert a key false own valid good = rw (valid, verify_uncached) refl

issuer_key-issue :
    (k : Pki) (now : ℕ) (serial : Text) (i : Identity) (validity_days : ℕ) (a : Authority)
    → a.identity.public_key ≡ k.crypto.public_key a.signing_key
    → k.is_key a.identity.public_key ≡ true
    → a.identity.peer_id ≢ self_issuer
    → issuer_key k (issue_certificate k now serial i validity_days a) a
      ≡ some (some (k.crypto.public_key a.signing_key))
unfolding issuer_key issue_certificate
issuer_key-issue k now serial i validity_days a own good other = ground arith

-- A certificate that the authority issued, whose verdict is not cached, verifies at the
-- authority exactly from the time of issue to the end of its validity, if the authority's key
-- is its own and is well formed, its id is not the word for self-signed, a signature verifies
-- under its own key, and times read back as written.
pub verify_certificate-issue_certificate :
    (k : Pki) (now later : ℕ) (serial : Text) (i : Identity) (validity_days : ℕ) (a : Authority)
    → IsSignature k.crypto
    → IsTimeFormat k.format
    → a.identity.public_key ≡ k.crypto.public_key a.signing_key
    → k.is_key a.identity.public_key ≡ true
    → a.identity.peer_id ≢ self_issuer
    → lookup serial a.validation_cache ≡ none
    → (verify_certificate k later (issue_certificate k now serial i validity_days a) a).0
      ≡ some (leb now later && leb later (now + days validity_days))
verify_certificate-issue_certificate k now later serial i validity_days a sound f own good other
      fresh =
    let cert = issue_certificate k now serial i validity_days a in
    let once : verify_certificate k later cert a ≡ verify_uncached k later cert a =
      verify_certificate-fresh k later cert a (unfold issue_certificate in fresh) in
    ap (λ r. r.0) once
    ∙ verify_uncached-key k later cert a (k.crypto.public_key a.signing_key)
        (leb now later && leb later (now + days validity_days))
        (issuer_key-issue k now serial i validity_days a own good other)
        (unfold issue_certificate in
          is_valid_time-unsigned k now later serial validity_days a.identity.peer_id i a.signing_key
            f)
        (unfold issue_certificate in
          check_signature-signed_by k a.signing_key
            (unsigned k now serial validity_days a.identity.peer_id i) sound)

self_signed-key :
    (k : Pki) (now : ℕ) (cert : Certificate) (key : Bytes) (b : Bool)
    → is_self_signed cert ≡ true
    → get_verify_key k cert.identity ≡ some key
    → is_valid_time k now cert ≡ some b
    → check_signature k key cert ≡ true
    → verify_self_signed k now cert ≡ some b
unfolding verify_self_signed
self_signed-key k now cert key true own read valid good =
    rw own (rw (valid, verify_self_signed) (rw read (ap some good)))
self_signed-key k now cert key false own read valid good =
    rw own (rw (valid, verify_self_signed) refl)

-- A self-signed certificate verifies exactly from its creation to the end of its validity, if
-- the key is well formed, a signature verifies under its own key, and times read back as
-- written.
pub verify_self_signed-create_self_signed :
    (k : Pki) (created now later : ℕ) (serial peer_id : Text) (key : Bytes) (validity_days : ℕ)
    (metadata : Option (Dict Text))
    → IsSignature k.crypto
    → IsTimeFormat k.format
    → k.is_key (k.crypto.public_key key) ≡ true
    → verify_self_signed k later
        (create_self_signed k created now serial peer_id key validity_days metadata)
      ≡ some (leb now later && leb later (now + days validity_days))
verify_self_signed-create_self_signed k created now later serial peer_id key validity_days metadata
      sound f good =
    let i = create k created peer_id (k.crypto.public_key key) metadata in
    let cert = create_self_signed k created now serial peer_id key validity_days metadata in
    self_signed-key k later cert (k.crypto.public_key key)
      (leb now later && leb later (now + days validity_days))
      (unfold is_self_signed create_self_signed in text_eq_refl self_issuer)
      (unfold get_verify_key create_self_signed in rw good refl)
      (unfold create_self_signed in
        is_valid_time-unsigned k now later serial validity_days self_issuer i key f)
      (unfold create_self_signed in
        check_signature-signed_by k key (unsigned k now serial validity_days self_issuer i) sound)

uncached_entry :
    (k : Pki) (now : ℕ) (cert : Certificate) (a : Authority)
    → (verify_uncached k now cert a).0 ≡ some true
    → lookup cert.serial_number (verify_uncached k now cert a).1.validation_cache ≡ some (true, now)
uncached_entry k now cert a e = by_time (is_valid_time k now cert) refl e
  where
    held :
        (b : Bool)
        → b ≡ true
        → lookup cert.serial_number
            (cache_validation_result now cert.serial_number b a).validation_cache
          ≡ some (true, now)
    held b q =
        unfold cache_validation_result in
        ground
          (arith, lookup-insert cert.serial_number cert.serial_number (b, now) a.validation_cache)

    by_key :
        (o : Option (Option Bytes))
        → is_valid_time k now cert ≡ some true
        → issuer_key k cert a ≡ o
        → (verify_uncached k now cert a).0 ≡ some true
        → lookup cert.serial_number (verify_uncached k now cert a).1.validation_cache
          ≡ some (true, now)
    by_key none t q = unfold verify_uncached in rw (t, verify_uncached) (rw q (λ r. cc))
    by_key (some none) t q = unfold verify_uncached in rw (t, verify_uncached) (rw q (λ r. cc))
    by_key (some (some key)) t q =
        unfold verify_uncached in
        rw (t, verify_uncached) (rw q (λ r. held (check_signature k key cert) (cc)))

    by_time :
        (o : Option Bool)
        → is_valid_time k now cert ≡ o
        → (verify_uncached k now cert a).0 ≡ some true
        → lookup cert.serial_number (verify_uncached k now cert a).1.validation_cache
          ≡ some (true, now)
    by_time none t = unfold verify_uncached in rw (t, verify_uncached) (λ r. cc)
    by_time (some false) t = unfold verify_uncached in rw (t, verify_uncached) (λ r. cc)
    by_time (some true) t = by_key (issuer_key k cert a) t refl

-- What a verification leaves in the cache, for a certificate that was not there.
verify_certificate-cached :
    (k : Pki) (now : ℕ) (cert : Certificate) (a : Authority)
    → lookup cert.serial_number a.validation_cache ≡ none
    → (verify_certificate k now cert a).0 ≡ some true
    → lookup cert.serial_number (verify_certificate k now cert a).1.validation_cache
      ≡ some (true, now)
verify_certificate-cached k now cert a fresh e =
    let once = verify_certificate-fresh k now cert a fresh in
    ap (λ r. lookup cert.serial_number r.1.validation_cache) once
    ∙ uncached_entry k now cert a (sym (ap (λ r. r.0) once) ∙ e)

-- A result that the cache holds decides, whatever the certificate is.
cached_verdict :
    (k : Pki) (now later : ℕ) (forged : Certificate) (a : Authority)
    → lookup forged.serial_number a.validation_cache ≡ some (true, now)
    → later < now + cache_ttl
    → is_valid_time k later forged ≡ some true
    → (verify_certificate k later forged a).0 ≡ some true
unfolding verify_certificate get_cached_validation verify_cached
cached_verdict k now later forged a found soon valid =
    rw (found, verify_certificate, get_cached_validation) (ground (arith, valid))

-- After a certificate without a cached verdict has verified, any other certificate with the
-- same serial number that is within its time verifies too while the verdict is cached,
-- whatever its holder, its key and its signature are.
pub verify_certificate_forged :
    (k : Pki) (now later : ℕ) (cert forged : Certificate) (a : Authority)
    → lookup cert.serial_number a.validation_cache ≡ none
    → (verify_certificate k now cert a).0 ≡ some true
    → forged.serial_number ≡ cert.serial_number
    → later < now + cache_ttl
    → is_valid_time k later forged ≡ some true
    → (verify_certificate k later forged (verify_certificate k now cert a).1).0 ≡ some true
verify_certificate_forged k now later cert forged a fresh e same soon valid =
    cached_verdict k now later forged (verify_certificate k now cert a).1
      (ap (λ s. lookup s (verify_certificate k now cert a).1.validation_cache) same
        ∙ verify_certificate-cached k now cert a fresh e)
      soon valid
