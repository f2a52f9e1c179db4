-- ===== src/Server/Tls.antt =====
-- src/server.rs: `build_rustls_config`. The files, and what the crates rustls and rustls_pemfile do
-- with them, are an interface.
use enigma_relay.Base.{
  ◌≡◌, refl, ap, subst, ◌∙◌, map, ◌++◌, true, Option, none, some, List, [], ◌∷◌, String, last,
  if◌then◌else◌, Bool-cases, inl, inr,
}
use enigma_relay.Error.{
  Result, ok, err, ◌>>=◌, ok_or, tls, disabled, Attempt, done, failed, then_ok, ok_or-some,
}
use enigma_relay.Config.{Features, TlsConfig}

pub record Rustls : Type 1 where
  pub File : Type 0
  pub Certificate : Type 0
  pub PrivateKey : Type 0
  pub RootCertStore : Type 0
  pub Verifier : Type 0
  pub ServerConfig : Type 0
  pub open_file : String → Attempt File
  pub certs : File → List (Attempt Certificate)
  pub pkcs8_private_keys : File → List (Attempt PrivateKey)
  pub empty : RootCertStore
  pub add : Certificate → RootCertStore → Attempt RootCertStore
  pub build_verifier : RootCertStore → Attempt Verifier
  -- The builder, with a verifier of client certificates or without one.
  pub with_single_cert : Option Verifier → List Certificate → PrivateKey → Attempt ServerConfig

-- `r.map_err(|e| Tls(e.to_string()))`
abbrev pub or_tls : {A : Type 0} → Attempt A → Result A
or_tls (done a) = ok a
or_tls (failed text) = err (tls text)

-- `collect` into a `Result` of a vector: the first failure ends it.
unfoldable pub collect_all : {A : Type 0} → List (Attempt A) → Attempt (List A)
collect_all [] = done []
collect_all (failed text ∷ rest) = failed text
collect_all (done a ∷ rest) = elim (collect_all rest) [
  | failed text ↦ failed text
  | done all ↦ done (a ∷ all)
]

-- All is read, and nothing fails.
collect_all-done :
    {A : Type 0} (attempts : List (Attempt A)) (all : List A)
    → collect_all attempts ≡ done all
    → attempts ≡ map done all
unfolding collect_all
collect_all-done [] all e = let same : [] ≡ all = cc in ap (map done) same
collect_all-done (failed text ∷ rest) all e = cc
collect_all-done (done a ∷ rest) all e =
    split_rest (collect_all rest) refl (collect_all-done rest) e
  where
    split_rest :
        (c : Attempt (List _))
        → collect_all rest ≡ c
        → ((others : List _) → collect_all rest ≡ done others → rest ≡ map done others)
        → (elim c [ failed text ↦ failed text | done others ↦ done (a ∷ others) ]) ≡ done all
        → done a ∷ rest ≡ map done all
    split_rest (failed text) read all_read e = cc
    split_rest (done others) read all_read e =
        let same : a ∷ others ≡ all = cc in
        ap (◌∷◌ (done a)) (all_read others read) ∙ ap (map done) same

-- What is last stands after some others.
last-snoc :
    {A : Type 0} (xs : List A) (x : A)
    → last xs ≡ some x
    → (before : List A) × (xs ≡ before ++ x ∷ [])
last-snoc [] x e = cc
last-snoc (y ∷ []) x e = let same : y ≡ x = cc in ([], ap (λ z. z ∷ []) same)
last-snoc (y ∷ z ∷ xs) x e =
    let (before, same) = last-snoc (z ∷ xs) x e in (y ∷ before, ap (◌∷◌ y) same)

or_tls-done : {A : Type 0} (t : Attempt A) (a : A) → or_tls t ≡ ok a → t ≡ done a
or_tls-done (done b) a e = cc
or_tls-done (failed text) a e = cc

module _ (r : Rustls) where
  -- The loop over the certificates of the authorities.
  unfoldable pub add_all : List r.Certificate → r.RootCertStore → Result r.RootCertStore
  add_all [] store = ok store
  add_all (ca ∷ cas) store = do store' ← or_tls (r.add ca store); add_all cas store'

  -- The verifier from the file of authorities.
  unfoldable pub verifier_from : String → Result r.Verifier
  verifier_from ca_path = do
    ca_file ← or_tls (r.open_file ca_path)
    cas ← or_tls (collect_all (r.certs ca_file))
    store ← add_all cas r.empty
    or_tls (r.build_verifier store)

  -- The two arms of the feature `mtls`.
  unfoldable pub client_verifier : Features → Option String → Result (Option r.Verifier)
  client_verifier features none = ok none
  client_verifier features (some ca_path) =
      let verified = verifier_from ca_path >>= (λ verifier. ok (some verifier)) in
      if features.mtls then verified else err (disabled "mtls feature not enabled")

  unfoldable pub build_rustls_config : Features → TlsConfig → Result r.ServerConfig
  build_rustls_config features tls_cfg = do
    cert_file ← or_tls (r.open_file tls_cfg.cert_pem_path)
    key_file ← or_tls (r.open_file tls_cfg.key_pem_path)
    cert_chain ← or_tls (collect_all (r.certs cert_file))
    keys ← or_tls (collect_all (r.pkcs8_private_keys key_file))
    key ← ok_or (last keys) (tls "no private key found")
    verifier ← client_verifier features tls_cfg.client_ca_pem_path
    or_tls (r.with_single_cert verifier cert_chain key)

  -- The certificates are added to the first store, one after the other.
  pub data Adds : r.RootCertStore → List r.Certificate → r.RootCertStore → Type 0 where
    adds_none : {store : r.RootCertStore} → Adds store [] store
    adds_one :
        {store store' end : r.RootCertStore} {ca : r.Certificate} {cas : List r.Certificate}
        → r.add ca store ≡ done store'
        → Adds store' cas end
        → Adds store (ca ∷ cas) end

  add_all-Adds :
      (cas : List r.Certificate) (store end : r.RootCertStore)
      → add_all cas store ≡ ok end
      → Adds store cas end
  unfolding add_all
  add_all-Adds [] store end e = let same : store ≡ end = cc in subst (Adds store []) same adds_none
  add_all-Adds (ca ∷ cas) store end e =
      let (store', e1, rest) = then_ok _ _ end e in
      adds_one (or_tls-done _ store' e1) (add_all-Adds cas store' end rest)

  -- The verifier trusts all certificates of the file, and no others.
  pub record Trusts (ca_path : String) (v : r.Verifier) : Type 0 where
    pub ca_file : r.File
    pub cas : List r.Certificate
    pub store : r.RootCertStore
    pub opened : r.open_file ca_path ≡ done ca_file
    pub read : r.certs ca_file ≡ map done cas
    pub added : Adds r.empty cas store
    pub built : r.build_verifier store ≡ done v

  verifier_from-Trusts :
      (ca_path : String) (v : r.Verifier) → verifier_from ca_path ≡ ok v → Trusts ca_path v
  unfolding verifier_from
  verifier_from-Trusts ca_path v e =
      let (ca_file, e1, rest1) = then_ok _ _ v e in
      let (cas, e2, rest2) = then_ok _ _ v rest1 in
      let (store, e3, rest3) = then_ok _ _ v rest2 in
      record {
        ca_file = ca_file;
        cas = cas;
        store = store;
        opened = or_tls-done _ ca_file e1;
        read = collect_all-done (r.certs ca_file) cas (or_tls-done _ cas e2);
        added = add_all-Adds cas r.empty store e3;
        built = or_tls-done _ v rest3;
      }

  -- Clients are verified as the configuration says: against the authorities of its file, or not at
  -- all if it names none.
  abbrev pub Checks : Features → Option String → Option r.Verifier → Type 0
  Checks features none verifier = verifier ≡ none
  Checks features (some ca_path) verifier =
      (features.mtls ≡ true) × ((v : r.Verifier) × Trusts ca_path v × (verifier ≡ some v))

  client_verifier-Checks :
      (features : Features) (ca : Option String) (verifier : Option r.Verifier)
      → client_verifier features ca ≡ ok verifier
      → Checks features ca verifier
  unfolding client_verifier
  client_verifier-Checks features none verifier e = cc
  client_verifier-Checks features (some path) verifier e = elim (Bool-cases features.mtls) [
    | inl on ↦
        let (v, built, same) = then_ok (verifier_from path) _ verifier (rw on at e) in
        (on, (v, verifier_from-Trusts path v built, cc))
    | inr off ↦
        let refused : err (disabled "mtls feature not enabled") ≡ ok verifier = rw off at e in
        absurd (cc)
  ]

  -- What a configuration of rustls is made of.
  pub record Secures (features : Features) (tls_cfg : TlsConfig) (c : r.ServerConfig) : Type 0 where
    pub cert_file : r.File
    pub key_file : r.File
    pub cert_chain : List r.Certificate
    pub earlier_keys : List r.PrivateKey
    pub key : r.PrivateKey
    pub verifier : Option r.Verifier
    pub cert_opened : r.open_file tls_cfg.cert_pem_path ≡ done cert_file
    pub key_opened : r.open_file tls_cfg.key_pem_path ≡ done key_file
    pub chain_read : r.certs cert_file ≡ map done cert_chain
    pub keys_read : r.pkcs8_private_keys key_file ≡ map done (earlier_keys ++ key ∷ [])
    pub checks : Checks features tls_cfg.client_ca_pem_path verifier
    pub built : r.with_single_cert verifier cert_chain key ≡ done c

  -- A configuration of rustls that is built has the whole chain of the certificate file and the last
  -- key of the key file, and neither file has an entry that cannot be read. If the relay's
  -- configuration names a file of authorities, then the feature `mtls` is there, and clients are
  -- verified against a store to which all certificates of that file were added, and no others; clients
  -- are left unverified only if it names none.
  pub build_rustls_config-Secures :
      (features : Features) (tls_cfg : TlsConfig) (c : r.ServerConfig)
      → build_rustls_config features tls_cfg ≡ ok c
      → Secures features tls_cfg c
  unfolding build_rustls_config
  build_rustls_config-Secures features tls_cfg c e =
      let (cert_file, e1, rest1) = then_ok _ _ c e in
      let (key_file, e2, rest2) = then_ok _ _ c rest1 in
      let (cert_chain, e3, rest3) = then_ok _ _ c rest2 in
      let (keys, e4, rest4) = then_ok _ _ c rest3 in
      let (key, e5, rest5) = then_ok _ _ c rest4 in
      let (verifier, e6, rest6) = then_ok _ _ c rest5 in
      let (earlier_keys, ends) = last-snoc keys key (ok_or-some (last keys) _ key e5) in
      record {
        cert_file = cert_file;
        key_file = key_file;
        cert_chain = cert_chain;
        earlier_keys = earlier_keys;
        key = key;
        verifier = verifier;
        cert_opened = or_tls-done _ cert_file e1;
        key_opened = or_tls-done _ key_file e2;
        chain_read = collect_all-done (r.certs cert_file) cert_chain (or_tls-done _ cert_chain e3);
        keys_read =
            collect_all-done (r.pkcs8_private_keys key_file) keys (or_tls-done _ keys e4)
            ∙ ap (map done) ends;
        checks = client_verifier-Checks features tls_cfg.client_ca_pem_path verifier e6;
        built = or_tls-done _ c rest6;
      }
