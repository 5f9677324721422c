-- ===== src/Cms.antt =====
-- ietf-cms/verify.go, ietf-cms/sign.go and ietf-cms/timestamp.go: making, timestamping and verifying
-- signed messages. crypto/x509 is a parameter.
pub mod Options
pub mod Timestamps
pub mod Verify
pub mod Sign
pub mod RoundTrip
pub mod Samples
mod Tests
