-- ===== src/Lib.antt =====
-- nettls: certificates between the components of one application. A component announces its next
-- certificate, signed with the keys that its peers know already; each peer verifies the announcement,
-- stores the certificate and acknowledges it with a receipt; when all have acknowledged, the component
-- switches, and each peer promotes the certificate at the first handshake that shows it. The chain
-- starts at an operator's approval.
--
-- Which file models which part (paths from the repository's root):
--   Error                src/error.rs         `TlsError`, and `Result` with its `?`
--   Canonical            src/canonical.rs     the field rules and the five signed byte strings
--   External             no code of the crate: `krypto` (hash, hex, signatures), `x509_parser`, the PEM
--                        reader of `rustls_pki_types`, as one record that the models take
--   Signature            src/signature.rs     hex fields, P-256 keys and signatures
--   Announcement         src/announcement.rs  `Announcement` and its wire form
--   Receipt              src/announcement.rs  `Receipt` and its wire form
--   Archive              src/announcement.rs  `archive` and `read_archive`
--   Generations          src/generations.rs   `Generations` (one peer's certificates) and the verifier
--                        that a handshake asks
--   Approval             src/approval.rs      `Approval`, `Context`, `Recognition`
--   Capability           src/capability.rs    `SupportStatement` and `choose`
--   Schedule             src/announcer.rs     `Schedule`, `ChainState`, the draw of the next time; its
--                        child Retry has the retries, the alarm and `Status`
--   Modes                src/announcer.rs     `Mode`, `ClockDrift`, the lifetimes, the fall to mode 1
--   Fingerprint          src/fingerprint.rs   `parse_fingerprint`
--   Transport            src/transport.rs     `TransportPolicy`
--   Host                 no code of the crate: certificates (`rcgen`, `rustls`), locked memory, the random
--                        source, the ciphers, `serde_json`, as one record
--   Pem                  src/pem.rs           `encode`, and where the private key begins in a file
--   Lockbox              src/lockbox.rs, src/secret.rs  `lock`, `unlock`, `hold`
--   Pkcs8                src/pkcs8.rs         `pkcs8_p256`, and a reader of DER to hold it against
--   Material             src/material.rs      `TlsMaterial`, its sources, the checks of names
--   Disk                 src/announcer.rs, src/pem.rs  the files, and the two atomic writes
--   Store                src/announcer.rs, src/material.rs  what is saved and read back: the material, the
--                        previous key, the promise; its child Auto has `load_auto`, its child
--                        Source `CertSource` and `load`
--   Announcer            src/announcer.rs, src/resolver.rs  `Announcer`: `new` (in its child Start),
--                        `prepare`, `acked`, the switch
--   Report               src/status.rs        the report and its traffic light
--   Envelope             src/envelope.rs      `seal` and `open`, with the exchange as a record
--   Aegis                src/aegis.rs         the records of the AEGIS-256 suite, with the cipher as a record
--   Pin                  src/pin.rs, src/generations.rs, src/resolver.rs, src/material.rs  the pinned
--                        verifier and the configurations of clients and servers
--   Link                 src/announcer.rs, src/generations.rs  an announcer and one peer, step by step
--   Prelude, Tests       shared names and lemmas; examples with a small `Libs`
--
-- How the code is read. A method with `&mut self` is a function to the new state (and its result). A
-- `String` is the list of its code points, bytes are a list of numbers, and `utf8` connects the two.
-- An `i64` is an integer with the wrap-around of a release build; theorems that compare sums of moments
-- ask for moments below 2 ^ 60. A `BTreeSet<String>` is a sorted list without repetition. A method
-- whose name a constructor has is renamed: `Schedule::announced` is `announce`,
-- `Recognition::verify` is `verify_recognition`, `ModeCheck::can_roll` is `check_can_roll`. The text
-- of an error is cut to its phrase. The only loop with a bound is that of `tilfeldig_under`, 64 rounds
-- as in the source; all others run over a list.
--
-- The disk is a function from paths to contents. Every call of the operating system has a number, and
-- `works` says which of the calls that change the disk go well, so that a failure may stand anywhere;
-- a process that ends is one whose later calls all fail. A call that fails changes nothing, and a file
-- that is there can be read. An `Announcer` with the resolver and the disk is a `World`, a method of it a
-- function from a world to its result and the new world; what was changed before an error stays changed.
-- A call of the random source has the number that it has among all calls. `Announcer::acked` is
-- `acked_by`; the gate of `roll_if_ready_gated` is the answer that it would give.
--
-- Not modelled: the making of certificates (`rcgen`), the signature check of a handshake and the rest of
-- `rustls`, poisoned locks, calls of several threads at once, the permissions of files, `Debug` and
-- `Display` of errors, the example programs, and the Python peer.
pub mod Prelude
pub mod Error
pub mod Canonical
pub mod External
pub mod Signature
pub mod Announcement
pub mod Receipt
pub mod Archive
pub mod Generations
pub mod Approval
pub mod Capability
pub mod Schedule
pub mod Modes
pub mod Fingerprint
pub mod Transport
pub mod Host
pub mod Pem
pub mod Lockbox
pub mod Pkcs8
pub mod Material
pub mod Disk
pub mod Store
pub mod Aegis
pub mod Pin
pub mod Link
pub mod Announcer
pub mod Report
pub mod Envelope
pub mod Tests
