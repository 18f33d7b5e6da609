-- ===== src/Efax.antt =====
-- The efax program of efax/, which efax-gtk runs to send and to receive a fax: the encryption of the
-- scan lines, their T.4 codes, and the capabilities that the two stations negotiate.
pub mod Cipher
pub mod Tables
pub mod Bits
pub mod Encoder
pub mod Decoder
pub mod Page
pub mod Runs
pub mod Capabilities
