-- ===== src/Lib.antt =====
-- git-kmssign signs and verifies git commits with X.509 certificates, in place of gpgsm.
--
-- The parts and how they meet: runCommand (main.go) reads the flags, lists the identities of the
-- certificate store and runs one command. commandSign (command_sign.go) finds the identity that
-- --local-user names (with parse_user_id.go and utils.go), has package cms (ietf-cms) sign the message,
-- picks the certificates that go with it, and writes the status lines of status.go and the signature.
-- commandVerify (command_verify.go) has package cms parse and check a signature, and reports the result.
-- Package cms (sign.go, verify.go and timestamp.go of ietf-cms) stands on ietf-cms/protocol: ber.go turns
-- BER into the DER that encoding/asn1 reads, and protocol.go holds the types of CMS and makes signatures,
-- with the tables of ietf-cms/oid/oid.go; ietf-cms/timestamp/timestamp.go has the messages of RFC 3161. On
-- Linux the certificate store (certstore/certstore_linux.go) has the one identity that azuresign makes,
-- whose key is in Azure Key Vault; on macOS and Windows it lists the identities of the system
-- (certstore/certstore_darwin.go, certstore/certstore_windows.go), whose keys sign by calls of the system.
--
--   Base      what all modules share: Boolean tests, lists over native numbers, results, texts
--   Ber       ietf-cms/protocol/ber.go: ber2der is BER2DER, read_object readObject, encode encodeTo
--   UserId    parse_user_id.go: step is one round of the loop of parseUserID
--   Cert      the fields of x509.Certificate that are read, and certstore/certstore.go's Identity
--   Fingerprint, Email   utils.go
--   Select    findUserIdentity of command_sign.go
--   Chain     certsForSignature and chainWithoutRoot of command_sign.go; Cut: where its loop cuts a chain
--   Status    status.go: setup_status, emit and emitf, and the lines of a signature
--   Oids      ietf-cms/oid/oid.go
--   Protocol  ietf-cms/protocol/protocol.go and any_set.go, and ietf-cms/signed_data.go: Attributes,
--             Content, Signers (SignerInfo), Signed (SignedData; Left: SetCertificates with an error), Signing
--             (AddSignerInfo; Attributes: what is signed; Left: with an error), Messages
--             (ContentInfo, ParseSignedData, ToDER); Ends: its loops end
--   Timestamp ietf-cms/timestamp/timestamp.go: Imprint, Interval (Before and After), FreeText, Service
--             (Request.Do, ParseInfo)
--   Cms       ietf-cms/verify.go (Verify), ietf-cms/timestamp.go (Timestamps), ietf-cms/sign.go (Sign);
--             RoundTrip: from sign.go to verify.go, and what that needs of the libraries
--   Azure     azuresign: config.go (Config), cert.go (Certificates), signer.go (Signing), and client.go
--             with certstore/certstore_linux.go (Store)
--   Stores    certstore/certstore_darwin.go (Mac: macIdentity in Identity, macStore in Store; Made: what Sign
--             uses) and certstore/certstore_windows.go (Windows: winPrivateKey in Key, winIdentity in Identity,
--             winStore in Store), as methods (Run) on a state of the system with a log of the references
--             that are acquired and released (System, Counts)
--   Command   main.go (Options, Main), command_sign.go (Sign; Outcomes: how it ends),
--             command_verify.go (Verify) and list_keys_command.go (ListKeys), as runs that write events
--             (Run); Package fills the interface of package cms with Protocol and Cms
--
-- In each, Correct (or, for Ber, the modules named for what they prove) holds the theorems, and Tests
-- holds runs and the theorems at concrete inputs.
--
-- A call that fails is a Result (Base/Results.antt) or a Run (Command/Run.antt, Stores/Run.antt), where a panic is an
-- outcome of its own. The outcome `stuck` means that the fuel of a loop was used up. BER2DER has as much
-- fuel as the input has bytes, and two more; each object and each round of a loop reads at least a byte,
-- and Ber/Total.antt shows that this is enough. lengthLength has fuel for the eight bytes of an int. The
-- loops over encoded elements in Protocol have as much fuel as there are bytes, which is enough if
-- encoding/asn1 reads at least a byte of what it accepts, and so has the loop over PEM blocks in Azure.
-- Verify has fuel for the depth to which timestamps nest in timestamps (Cms/Verify/Ends.antt).
--
-- The pool of intermediate certificates is one object that verify shares with the options of the timestamps:
-- Cms passes it from signer to signer, with what the timestamps' certificates added. AddTimestamps returns
-- the message that it leaves beside its result. Every signer that is stamped has an exchange of its own with
-- the random source and the service.
--
-- Parameters, for code that is not in the repository: SHA-1 and the other hashes, encoding/asn1
-- (Protocol.Asn1, Timestamp.Asn1Time), crypto (Protocol.Signing.Crypto), crypto/x509 (Cms.Options.X509),
-- golang.org/x/crypto/openpgp, the random source and the HTTP client (Timestamp.Exchange), files, streams and
-- the clock (Command.System), the environment, encoding/pem and the Azure SDK (Azure.Environment),
-- Security.framework and CoreFoundation (Stores.Mac.Security), and CryptoAPI and CNG (Stores.Windows.Api). The
-- commands take package cms as an interface (Command.Cms), and what the certificate store lists as a field of
-- Command.System.
--
-- A call of the system in Stores may change its state in any way: the theorems hold for each. Objects that
-- the system makes for its caller are a reference that the caller owns. What Windows frees in its own
-- iterations (CertFindChainInStore, CertFindCertificateInStore) and the memory of C are not in the log.
--
-- Not modelled: the texts of errors, the conversions of strings and the names and flags that the stores of
-- macOS and Windows hand to the system (certstore/crypt_strings_windows.go); fakeca, which serves the
-- tests; what an error of verify leaves in a pool of the caller; the
-- parsing of flags by getopt, and the closing of files and, on Linux, of the store.
pub mod Base
pub mod Ber
pub mod UserId
pub mod Cert
pub mod Fingerprint
pub mod Chain
pub mod Email
pub mod Select
pub mod Azure
pub mod Cms
pub mod Command
pub mod Oids
pub mod Protocol
pub mod Status
pub mod Stores
pub mod Timestamp
