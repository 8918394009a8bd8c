-- ===== src/CertManager.antt =====
-- src/common/certmanager.cpp: the check of a peer's certificate and of its name. The X.509 part of
-- OpenSSL is a parameter over unknown certificates.
pub mod Laws
pub mod Loading
use cybersec_proj.Base.{
  ℕ, suc, Bool, true, false, not, ◌&&◌, ◌||◌, List, [], ◌∷◌, Bytes, codes, ◌++◌, ◌==◌, length, M,
  Option, some, ◌>>=◌, return, or_throw, ◌>>◌, check, if◌then◌else◌,
}
use cybersec_proj.Exception.{ex_certificate}
use cybersec_proj.Certificate.{Certificate, RsaKey, Pem, read_pem, from_user_name, get_x509}

-- `new_ctx` tells whether X509_STORE_CTX_new succeeds, `init_ctx` and `verify_cert` whether
-- X509_STORE_CTX_init and X509_verify_cert answer 1 with the manager's store; `oneline` is
-- X509_NAME_oneline of the subject.
pub record X509 (K : Type 0) : Type 0 where
  pub new_ctx : Bool
  pub init_ctx : K → Bool
  pub verify_cert : K → Bool
  pub oneline : K → Bytes

abbrev starts_with : Bytes → Bytes → Bool
starts_with [] text = true
starts_with (c ∷ cs) [] = false
starts_with (c ∷ cs) (d ∷ ds) = (c == d) && starts_with cs ds

-- `text.find(pattern) != -1`.
pub found : Bytes → Bytes → Bool
found pattern [] = starts_with pattern []
found pattern (c ∷ cs) = starts_with pattern (c ∷ cs) || found pattern cs

-- The value of `i` after the loop over `authPeersList`.
pub first_match : Bytes → List Bytes → ℕ
first_match subject [] = 0
first_match subject (name ∷ names) =
    let rest = first_match subject names in
    if found (codes "CN=" ++ name) subject then 0 else suc rest

pub name_pass : Bytes → List Bytes → Bool
name_pass subject [] = false
name_pass subject (name ∷ names) = not (first_match subject (name ∷ names) == length (name ∷ names))

module _ {K S : Type 0} (x509 : X509 K) where
  pub verify_cert : List Bytes → K → M S (Unit {0})
  verify_cert auth_peers_list cert = do
    check (x509.new_ctx) ex_certificate
    check (x509.init_ctx cert && x509.verify_cert cert) ex_certificate
    check (name_pass (x509.oneline cert) auth_peers_list) ex_certificate

abbrev pub cert_path : Bytes
cert_path = codes "cert/"

-- What the constructor asks of OpenSSL, over its types of a revocation list and of a store: `new_store`
-- is X509_STORE_new, `add_cert` and `add_crl` give the store with the addition, `crl_check` sets
-- X509_V_FLAG_CRL_CHECK, and `x509` is verification against a store.
pub record Trust (K R T : Type 0) : Type 0 where
  pub new_store : Option T
  pub add_cert : T → K → Option T
  pub add_crl : T → R → Option T
  pub crl_check : T → T
  pub x509 : T → X509 K

-- A `CertManager`: its store is seen through what verification does with it.
pub record CertManager (K P : Type 0) : Type 0 where
  pub cert : Certificate K
  pub privkey : RsaKey P
  pub store : X509 K
  pub auth_peers_list : List Bytes

module _ {S K P R T : Type 0} (trust : Trust K R T) (certs : Pem K) (crls : Pem R)
    (keys : Pem P) where
  -- `CertManager(username, authPeersList)`.
  unfoldable pub init : Bytes → List Bytes → M S (CertManager K P)
  init username auth_peers_list = do
    ca_cert ← read_pem certs (cert_path ++ codes "TrustedCA_cert.pem")
    crl ← read_pem crls (cert_path ++ codes "TrustedCA_crl.pem")
    empty ← or_throw trust.new_store ex_certificate
    with_ca ← or_throw (trust.add_cert empty ca_cert) ex_certificate
    with_crl ← or_throw (trust.add_crl with_ca crl) ex_certificate
    my_cert ← read_pem certs (cert_path ++ (username ++ codes "_cert.pem"))
    privkey ← from_user_name keys username
    return (record {
      cert = some my_cert;
      privkey = privkey;
      store = trust.x509 (trust.crl_check with_crl);
      auth_peers_list = auth_peers_list;
    })

module _ {S K P : Type 0} where
  -- `verifyCert` on the object.
  unfoldable pub verify_peer : CertManager K P → Certificate K → M S (Unit {0})
  verify_peer cm cert = do x509 ← get_x509 cert; verify_cert cm.store cm.auth_peers_list x509
