-- ===== src/Canonical.antt =====
-- internal/canonical: the one encoding that signatures and digests are computed over.
pub mod Order
pub mod Strings
pub mod Write
pub mod Reader
mod ReadText
mod Numbers
pub mod Normal
mod Texts
mod Sequences
pub mod RoundTrip
pub mod Signed
