-- ===== src/Identity/Authority.antt =====
-- `CertificateAuthority`. A call that raises gives `none`, with the state that it leaves.
use trust_flow_chain_of_cust.Crypto.{verify_signature}
use trust_flow_chain_of_cust.Clock.{seconds}
use trust_flow_chain_of_cust.Identity.Certificate.{
  Identity, Certificate, Pki, get_verify_key, create, is_valid_time, is_self_signed, self_issuer,
  get_signed_data, signed_by,
}
use trust_flow_chain_of_cust.Prelude.Dict.{Dict, lookup, insert, erase, contains}
use trust_flow_chain_of_cust.Strings.Hex.{Bytes, from_hex}
use mathlib.Core.Option
use trust_flow_chain_of_cust.Prelude.{
  ltb, if◌then◌else◌, Text, text_eq, ℕ, ◌+◌, ◌*◌, Bool, true, false, not, ◌&&◌, Option, none, some,
  [],
}

pub record Authority : Type 0 where
  pub identity : Identity
  pub signing_key : Bytes
  pub validation_cache : Dict (Bool × ℕ)

abbrev pub cache_ttl : ℕ
cache_ttl = seconds 60

-- `_get_cached_validation`: an entry that is too old is deleted.
unfoldable pub get_cached_validation : ℕ → Text → Authority → Option Bool × Authority
get_cached_validation now serial_number a = elim (lookup serial_number a.validation_cache) [
  | none ↦ (none, a)
  | some (is_valid, time) ↦
      if ltb now (time + cache_ttl)
      then (some is_valid, a)
      else (none, record a { validation_cache = erase serial_number a.validation_cache })
]

-- `_cache_validation_result`
unfoldable pub cache_validation_result : ℕ → Text → Bool → Authority → Authority
cache_validation_result now serial_number is_valid a = record a {
  validation_cache = insert serial_number (is_valid, now) a.validation_cache;
}

unfoldable pub invalidate_cache : Option Text → Authority → Authority
invalidate_cache none a = record a { validation_cache = [] }
invalidate_cache (some serial_number) a =
    if contains serial_number a.validation_cache
    then record a { validation_cache = erase serial_number a.validation_cache }
    else a

-- `timedelta(days=n)`
abbrev pub days : ℕ → ℕ
days n = seconds (86400 * n)

-- A certificate that is not signed yet.
unfoldable pub unsigned : Pki → ℕ → Text → ℕ → Text → Identity → Certificate
unsigned k now serial_number validity_days issuer_id identity = record {
  identity = identity;
  issuer_id = issuer_id;
  valid_from = k.format.isoformat now;
  valid_until = k.format.isoformat (now + days validity_days);
  signature = [];
  serial_number = serial_number;
}

-- `issue_certificate`, with the serial number that `uuid.uuid4()` gives
unfoldable pub issue_certificate : Pki → ℕ → Text → Identity → ℕ → Authority → Certificate
unfolding unsigned signed_by
issue_certificate k now serial_number identity validity_days a =
    signed_by k a.signing_key
      (unsigned k now serial_number validity_days a.identity.peer_id identity)

-- The key under which a certificate is to verify: that of its own identity, that of this authority,
-- or none, if another authority has issued it. Inside, `none` is an exception.
unfoldable pub issuer_key : Pki → Certificate → Authority → Option (Option Bytes)
unfolding is_self_signed get_verify_key
issuer_key k cert a =
    if is_self_signed cert
    then some (get_verify_key k cert.identity)
    else if text_eq cert.issuer_id a.identity.peer_id
    then some (get_verify_key k a.identity)
    else none

-- Whether the signature verifies; one that is not hexadecimal does not.
unfoldable pub check_signature : Pki → Bytes → Certificate → Bool
check_signature k verify_key cert = elim (from_hex cert.signature) [
  | none ↦ false
  | some signature ↦ verify_signature k.crypto verify_key (get_signed_data k cert) signature
]

-- The part of `verify_certificate` for a certificate that is not in the cache.
unfoldable pub verify_uncached : Pki → ℕ → Certificate → Authority → Option Bool × Authority
unfolding is_valid_time issuer_key check_signature cache_validation_result
verify_uncached k now cert a = elim (is_valid_time k now cert) [
  | none ↦ (none, a)
  | some false ↦ (some false, cache_validation_result now cert.serial_number false a)
  | some true ↦ elim (issuer_key k cert a) [
    | none ↦ (some false, cache_validation_result now cert.serial_number false a)
    | some none ↦ (none, a)
    | some (some key) ↦
        let result = check_signature k key cert in
        (some result, cache_validation_result now cert.serial_number result a)
  ]
]

-- A result from the cache still needs a valid time.
unfoldable pub verify_cached : Pki → ℕ → Certificate → Bool → Option Bool
unfolding is_valid_time
verify_cached k now cert result =
    Option.map (λ in_time. in_time && result) (is_valid_time k now cert)

unfoldable pub verify_certificate : Pki → ℕ → Certificate → Authority → Option Bool × Authority
unfolding get_cached_validation verify_cached verify_uncached
verify_certificate k now cert a =
    let (cached, a') = get_cached_validation now cert.serial_number a in
    elim cached [
      | some result ↦ (verify_cached k now cert result, a')
      | none ↦ verify_uncached k now cert a'
    ]

-- `create_self_signed`; the identity is made a moment before the certificate.
unfoldable pub create_self_signed :
    Pki → ℕ → ℕ → Text → Text → Bytes → ℕ → Option (Dict Text) → Certificate
unfolding create unsigned signed_by
create_self_signed k created now serial_number peer_id signing_key validity_days metadata =
    signed_by k signing_key (
      unsigned k now serial_number validity_days self_issuer
        (create k created peer_id (k.crypto.public_key signing_key) metadata))

-- `verify_self_signed`: a key that does not read is an exception that is caught.
unfoldable pub verify_self_signed : Pki → ℕ → Certificate → Option Bool
unfolding is_self_signed is_valid_time get_verify_key check_signature
verify_self_signed k now cert =
    if not (is_self_signed cert) then some false else elim (is_valid_time k now cert) [
      | none ↦ none
      | some false ↦ some false
      | some true ↦ some (elim (get_verify_key k cert.identity) [
        | none ↦ false
        | some key ↦ check_signature k key cert
      ])
    ]
