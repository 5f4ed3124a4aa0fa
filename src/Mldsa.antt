-- ===== src/Mldsa.antt =====
-- ML-DSA on the host: keys and signatures between their packed and their expanded forms.
pub mod Params
pub mod ZCoeffs
pub mod ZRoundTrip
pub mod Hints
pub mod HintRows
pub mod HintRoundTrip
pub mod Signature
pub mod SignatureParts
pub mod SignatureRoundTrip
pub mod SecretKey
pub mod KeyBits
pub mod T0Bits
pub mod KeyRoundTrip
pub mod KeyOverread
pub mod UnpackBounds
pub mod ReadBounds
