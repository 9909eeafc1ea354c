-- ===== src/Lib.antt =====
-- TrustFlow: chains of custody over shared content, with signed nodes, storage per peer, deletion
-- by signed tokens that cascade, time locks, audit logs, certificates, gossip between peers,
-- secret sharing, and the validation of scenarios. This library models the core of coc_framework
-- and proves what makes each part correct.
--
-- The parts, and the files that model them:
-- - Prelude: lists, dictionaries and sets as lists, texts as lists of code points, Boolean
--   tests, signed integers, results of code that may raise.
-- - Strings: the string operations of Python that the code relies on: decimal numbers, join,
--   split, strip, hexadecimal, sorting.
-- - Crypto (coc_framework/core/crypto_core.py): sign_message, verify_signature, hash_content
--   over a record of functions for PyNaCl and hashlib.
-- - Clock: times as microseconds since datetime.min, up to datetime.max where seconds of any
--   sign are added, and a record of functions for isoformat and fromisoformat.
-- - CocNode (coc_framework/core/coc_node.py): CoCNode with its constructor, add_child,
--   verify_signature (verify), get_all_descendants; CocNode.Codec has to_dict and from_dict,
--   CocNode.Signing what signatures cover.
-- - Storage (coc_framework/interfaces/storage_backend.py): ContentTombstone and InMemoryStorage,
--   one function per method; Storage.Index, Storage.References and Storage.Tombstones hold the
--   proofs.
-- - Deletion (coc_framework/core/deletion_engine.py): Deletion.Token for DeletionToken and
--   DeletionReceipt, Deletion.Cache for ProcessedTokenCache, Deletion.Replay for the head of
--   process_token and its replay protection, Deletion.Tracker for DeletionTracker,
--   Deletion.Completion for what the tracker keeps.
-- - Network (coc_framework/core/network_sim.py and the DeletionEngine): Network.World is the
--   state of all peers, Network.Engine the engine, Network.Peers the methods of Peer and
--   Network, Network.Steps the simulation as a step relation; Network.Effect, Network.Process,
--   Network.Authority, Network.Reach and Network.Received hold the proofs.
-- - Audit (coc_framework/core/audit_log.py): Audit.Chain for TamperEvidentLog, Audit.Event for
--   AuditEvent and AuditLogger, Audit.Evidence for what the hashes show; Audit.File for
--   AuditLog, with the proofs in Audit.FileLine, Audit.FileChain and Audit.FileBars.
-- - TimeLock (coc_framework/core/timelock.py): TimeLock.KeyStore for KeyStore, TimeLock.Engine
--   for TimeLockEngine, TimeLock.Simulated for SimulatedTimeLockService (put_lock and take_lock
--   are its encrypt and decrypt, has_expired its is_expired); TimeLock.Life and TimeLock.Runs
--   hold the proofs.
-- - Identity (coc_framework/core/identity.py): Identity.Certificate for Identity and
--   Certificate, Identity.Authority for CertificateAuthority, Identity.Store for IdentityStore;
--   Identity.Issue and Identity.Holders hold the proofs.
-- - Gossip (coc_framework/network/gossip.py): Gossip.Envelope for GossipEnvelope, Gossip.Cache
--   for MessageCache, Gossip.Node for PeerInfo and GossipPeer, Gossip.Net for GossipNetwork;
--   Gossip.Admission, Gossip.Window, Gossip.Replay, Gossip.Room and Gossip.Upkeep hold the
--   proofs.
-- - Sharing (coc_framework/core/secret_sharing.py): Sharing.Field for the arithmetic,
--   Sharing.Chunks for bytes and chunks, Sharing.Share for Share and split_secret,
--   Sharing.Reconstruct for reconstruct_secret, Sharing.Engine for SecretSharingEngine;
--   Sharing.Fuel, Sharing.Polynomial, Sharing.Joining, Sharing.Integrity and Sharing.Holders
--   hold the proofs.
-- - Validation (coc_framework/core/validation.py): Validation.Value for values,
--   Validation.Outcome for ValidationResult, Validation.Formats for the texts, Validation.Event
--   and Validation.Scenario for EventValidator; Validation.Rules says what a valid event is, by
--   shapes and rules that are not the validator's; Validation.Grammar and Validation.WellFormed
--   say what the checks come to, Validation.Tables compares them with the rules, and
--   Validation.Verdict, Validation.Hashes, Validation.Consistent and Validation.Events hold the
--   proofs.
-- - Samples and the modules Tests: concrete values on which the theorems are applied.
--
-- How the parts interact: a peer makes a node, which is signed, and puts it into its storage;
-- messages carry nodes and tokens to other peers; process_token at a peer judges a token by the
-- cache and the clock, checks its signature, and deletes the node from the storage, with the
-- content once no other node has it; then it issues tokens for the children that the peer owns.
--
-- Conventions: an operation that may raise is a function from the state to a result and a state,
-- and the state after an exception is the one that the code leaves. The present time and random
-- values are arguments. Objects that the code shares, such as a peer in the registry, are entries
-- of a table under their ids. Sets are lists, read by membership; the order in which Python walks
-- through a set is not fixed by any theorem.
--
-- Bounds: numbers are natural numbers, as Python's integers do not overflow; get_all_descendants
-- takes fuel that bounds the depth of the walk; the extended Euclidean algorithm gets its first
-- argument as fuel, which falls with each call, and gives none if it runs out, so _mod_inverse
-- always has a result of the algorithm. The integers that time locks take as times to live and as
-- extensions are signed, and a time that leaves the range of datetime is an exception; elsewhere
-- times have no upper end.
--
-- Taken as parameters: Ed25519, AES-GCM, UTF-8, SHA-256, HMAC, hex and int, JSON, the format of
-- times, secrets.token_hex, random.sample, and what reads a gossip payload as a message. What is
-- relied on is stated by IsSignature, IsCipher, IsTimeFormat, IsDigest, IsDigestText, IsHmac and
-- IsSample, and concrete libraries of the tests satisfy them.
--
-- Not modelled: the deletion tracker inside process_token, which the engine keeps but does not
-- call; output, logging, notification and transfer monitors; the SQL storages; the sockets and
-- tasks of gossip and its anti-entropy requests; the format of timestamps in validation;
-- steganography, the servers and the TrustDocs application.
pub mod Prelude
pub mod Strings
pub mod Crypto
pub mod Clock
pub mod CocNode
pub mod Sharing
pub mod Storage
pub mod Deletion
pub mod Network
pub mod Audit
pub mod Identity
pub mod Gossip
pub mod TimeLock
pub mod Validation
pub mod Samples
