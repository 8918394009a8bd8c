-- ===== src/Certificate.antt =====
-- src/common/certificate.h and certificate.cpp, and src/common/rsakey.h and rsakey.cpp: certificates
-- and keys. OpenSSL's types for both, and what it reads and writes, are a parameter.
use cybersec_proj.Base.{Bytes, codes, ◌++◌, Option, some, M, ◌>>=◌, return, or_throw, or_fault}
use cybersec_proj.Exception.{ex_certificate}

-- `d2i` and `i2d` are d2i_X509 and i2d_X509, `get_pubkey` is X509_get_pubkey; `none` is a failure.
pub record Codec (K P : Type 0) : Type 0 where
  pub d2i : Bytes → Option K
  pub i2d : K → Option Bytes
  pub get_pubkey : K → Option P

-- What fopen and a PEM_read function make of a path: `none` if the file cannot be opened, `some none`
-- if it cannot be read.
abbrev pub Pem : Type 0 → Type 0
Pem A = Bytes → Option (Option A)

-- A `Certificate`: its `cert`, `none` for the null pointer.
abbrev pub Certificate : Type 0 → Type 0
Certificate K = Option K

-- An `RSAKey`: its `key`, `none` for the null pointer.
abbrev pub RsaKey : Type 0 → Type 0
RsaKey P = Option P

-- `getX509`, with its assertion.
unfoldable pub get_x509 : {S K : Type 0} → Certificate K → M S K
get_x509 cert = or_fault cert

-- `getPKEY`, with its assertion.
unfoldable pub get_pkey : {S P : Type 0} → RsaKey P → M S P
get_pkey key = or_fault key

module _ {S K P : Type 0} where
  -- `Certificate::fromString`.
  unfoldable pub cert_from_string : Codec K P → Bytes → M S (Certificate K)
  cert_from_string codec buffer = do
    cert ← or_throw (codec.d2i buffer) ex_certificate
    return (some cert)

  -- `Certificate::str`.
  unfoldable pub cert_str : Codec K P → Certificate K → M S Bytes
  cert_str codec cert = do x509 ← get_x509 cert; or_throw (codec.i2d x509) ex_certificate

  -- `RSAKey::fromCertificate`.
  unfoldable pub from_certificate : Codec K P → Certificate K → M S (RsaKey P)
  from_certificate codec cert = do
    x509 ← get_x509 cert
    key ← or_throw (codec.get_pubkey x509) ex_certificate
    return (some key)

-- `fopen` and a PEM_read function, each followed by its test.
unfoldable pub read_pem : {S A : Type 0} → Pem A → Bytes → M S A
read_pem pem path = do file ← or_throw (pem path) ex_certificate; or_throw file ex_certificate

abbrev pub key_path : Bytes
key_path = codes "cert/"

-- `RSAKey::fromUserName`.
unfoldable pub from_user_name : {S P : Type 0} → Pem P → Bytes → M S (RsaKey P)
from_user_name pem username = do
  key ← read_pem pem (key_path ++ (username ++ codes "_key.pem"))
  return (some key)
