-- ===== src/Client/Laws.antt =====
-- examples/client/main.go against middleware/middleware.go and facilitator/verify.go.
use Prim.Native.String.{◌++◌}
use cosmos_pay.Prelude.{
  ℕ, ◌+◌, ◌-◌, ◌≤◌, ◌<◌, ◌^◌, String, ◌≡◌, ◌≢◌, ◌⊎◌, refl, sym, ap, ◌∙◌, true, false, eq_iff, [],
  arith, All, length,
}
use cosmos_pay.Prelude.Text.{strip_prefix-append, trim_prefix, trim_prefix-append}
use cosmos_pay.Clock.{unix}
use cosmos_pay.Errors.{ok, value_or}
use cosmos_pay.Types.{PaymentRequirements, Authorization, PaymentPayload}
use cosmos_pay.Types.Codes.{scheme_id}
use cosmos_pay.Amounts.Laws.{amount_exceeds_self}
use cosmos_pay.Encoding.Base64
use cosmos_pay.Encoding.Base64.Laws.{decode-encode}
use cosmos_pay.Nonces.{NonceStore}
use cosmos_pay.Nonces.Table.{lookup}
use cosmos_pay.Chain.{ChainClient}
use cosmos_pay.Adr036.{SignLib, Bytes, adr036_preimage}
use cosmos_pay.Adr036.Laws.{IsSigned}
use cosmos_pay.Verify.{Verifier, verify}
use cosmos_pay.Verify.Laws.{
  OnNetwork, MeetsTerms, InWindow, IsGranted, IsFunded, IsVerified, verify_complete,
}
use cosmos_pay.Http.{Request}
use cosmos_pay.Middleware.{Config, build_requirements, chain_id_of, with_defaults, settle_request}
use cosmos_pay.Server.{chains_of}
use cosmos_pay.Client.{PrivKey, build_authorization, build_payload, sign_auth, window, pay}

-- What the libraries promise of a key: a signature that it makes has 64 bytes and checks, its
-- public key has the length of one, and the address is the key's.
pub record KeyWorks (lib : SignLib) (priv : PrivKey) (prefix addr : String) : Type 0 where
  pub key_length : length priv.pub_key_bytes ≡ lib.pub_key_size
  pub key_bytes : All (λ b. b < 256) priv.pub_key_bytes
  pub sig_length : (m sig : Bytes) → priv.sign m ≡ ok sig → length sig ≡ 64
  pub sig_bytes : (m sig : Bytes) → priv.sign m ≡ ok sig → All (λ b. b < 256) sig
  pub checks :
      (m sig : Bytes) → priv.sign m ≡ ok sig → lib.verify_signature priv.pub_key_bytes m sig ≡ true
  pub address_of : lib.convert_and_encode prefix (lib.address priv.pub_key_bytes) ≡ ok addr

module _ (lib : SignLib) (priv : PrivKey) (prefix addr : String)
    (key : KeyWorks lib priv prefix addr) where
  -- If the client's key works, and the client signs an authorization whose `from` is the address
  -- of its key, then the signature and the key in base64 have all the properties that the
  -- facilitator's signature check asks for.
  pub sign_auth-IsSigned :
      (a : Authorization) (signed : Bytes × Bytes)
      → a.from ≡ addr
      → sign_auth lib priv a ≡ ok signed
      → IsSigned lib (Base64.encode signed.1) (Base64.encode signed.0) a prefix
  unfolding sign_auth
  sign_auth-IsSigned a signed from h =
      let m = value_or [] (adr036_preimage lib a) in
      let made : priv.sign m ≡ ok signed.0 = ground arith in
      let same_key : signed.1 ≡ priv.pub_key_bytes = ground arith in
      record {
        key = priv.pub_key_bytes;
        signature = signed.0;
        preimage = m;
        key_decodes = rw same_key (decode-encode priv.pub_key_bytes key.key_bytes);
        key_length = key.key_length;
        signature_decodes = decode-encode signed.0 (key.sig_bytes m signed.0 made);
        signature_length = key.sig_length m signed.0 made;
        preimage_made = ground arith;
        checks = key.checks m signed.0 made;
        bound = rw from key.address_of;
      }

-- What the outside world has to grant the payment: the facilitator serves the network and its
-- clock is close to the client's, the nonce is fresh, and the grant and the balance cover it.
module _ (lib : SignLib) (N : NonceStore) where
  pub record IsReady (v : Verifier) (client : ChainClient) (requirements : PaymentRequirements)
      (a : Authorization) (now : ℕ) (s : N.State) : Type 0 where
    pub serves : v.chains ≡ chains_of client
    pub no_past : 5 ≤ now
    pub no_wrap : now + 30 < 2 ^ 64
    pub clock_after : now ≤ unix (v.clock 0) + 5
    pub clock_before : unix (v.clock 0) < now + 30
    pub fresh : N.exists a.from a.chain_id a.nonce s ≡ ok false
    pub granted : IsGranted client v.clock a requirements
    pub funded : IsFunded client a

window_eq : (now : ℕ) → 5 ≤ now → now + 30 < 2 ^ 64 → window false now ≡ (now - 5, now + 30)
unfolding window
window_eq now h k = ground arith

chain_id_of_cosmos : (chain : String) → chain ≢ "" → chain_id_of ("cosmos:" ++ chain) ≡ chain
unfolding chain_id_of
chain_id_of_cosmos chain h = ground (arith, strip_prefix-append "cosmos:" chain, eq_iff chain "")

module _ (lib : SignLib) (N : NonceStore) (priv : PrivKey) (client : ChainClient) (cfg : Config)
    (r : Request) (v : Verifier) (addr nonce : String) (now : ℕ) (s : N.State) where
  abbrev pub requirements : PaymentRequirements
  requirements = build_requirements (with_defaults cfg) r

  abbrev pub authorization : Authorization
  authorization = build_authorization requirements addr nonce false now

  requirements-network : requirements.network ≡ cfg.network
  unfolding build_requirements
  requirements-network = ground arith

  requirements-scheme : requirements.scheme ≡ scheme_id
  unfolding build_requirements
  requirements-scheme = refl

  requirements-timeout :
      (cfg.max_timeout_seconds ≡ 0) ⊎ (35 ≤ cfg.max_timeout_seconds)
      → 35 ≤ requirements.max_timeout_seconds
  unfolding build_requirements
  requirements-timeout h = ground arith

  requirements-chain :
      cfg.network ≡ "cosmos:" ++ client.chain_id
      → client.chain_id ≢ ""
      → requirements.extra.chain_id ≡ client.chain_id
  unfolding build_requirements
  requirements-chain network has_chain =
      ap chain_id_of (requirements-network ∙ network) ∙ chain_id_of_cosmos client.chain_id has_chain

  built_payload :
      (payload : PaymentPayload)
      → pay lib priv requirements addr nonce false now ≡ ok payload
      → (signed : Bytes × Bytes) × (sign_auth lib priv authorization ≡ ok signed)
        × (payload ≡ build_payload requirements addr authorization signed)
  unfolding pay
  built_payload payload paid =
      (value_or ([], []) (sign_auth lib priv authorization), ground arith, ground arith)

  built_window :
      IsReady lib N v client requirements authorization now s
      → 35 ≤ requirements.max_timeout_seconds
      → InWindow (v.clock 0) authorization requirements
  unfolding build_authorization
  built_window ready timeout = ground (arith, window_eq now ready.no_past ready.no_wrap)

  built_terms :
      cfg.network ≡ "cosmos:" ++ client.chain_id
      → client.chain_id ≢ ""
      → MeetsTerms client requirements.network authorization requirements
  unfolding build_authorization
  built_terms network has_chain = record {
    recipient = refl;
    asset = refl;
    amount = amount_exceeds_self requirements.max_amount_required;
    resource = refl;
    chain_of_network =
        requirements-chain network has_chain
        ∙ sym (
            ap (λ n. trim_prefix n "cosmos:") (requirements-network ∙ network)
            ∙ trim_prefix-append "cosmos:" client.chain_id);
    chain_of_client = requirements-chain network has_chain;
  }

  built_network :
      (signed : Bytes × Bytes)
      → cfg.network ≡ "cosmos:" ++ client.chain_id
      → v.chains ≡ chains_of client
      → OnNetwork v.chains
          (build_payload requirements addr authorization signed)
          requirements
          client
  unfolding build_payload lookup
  built_network signed network serves = record {
    payload_scheme = refl;
    requirements_scheme = requirements-scheme;
    same_network = refl;
    configured = rw serves (
        ground (
          arith,
          requirements-network,
          eq_iff ("cosmos:" ++ client.chain_id) requirements.network,
        ));
  }

  -- Let the middleware's network be "cosmos:" and the non-empty chain id of a chain client, its
  -- timeout the default or at least 35 seconds, the key work, and the facilitator be ready: it
  -- serves that client alone, its clock is at most 5 seconds behind the client's and less than 30
  -- ahead, the client's time is at least 5 and does not wrap, the nonce is fresh, and grant and
  -- balance cover the payment. Then a payment that the client makes for the middleware's
  -- requirements is verified, with the client's address.
  pub client_payment_verifies :
      (payload : PaymentPayload)
      → cfg.network ≡ "cosmos:" ++ client.chain_id
      → client.chain_id ≢ ""
      → ((cfg.max_timeout_seconds ≡ 0) ⊎ (35 ≤ cfg.max_timeout_seconds))
      → KeyWorks lib priv client.account_prefix addr
      → IsReady lib N v client requirements authorization now s
      → pay lib priv requirements addr nonce false now ≡ ok payload
      → verify lib N v (settle_request payload requirements) s ≡ ok addr
  unfolding build_payload build_authorization
  client_payment_verifies payload network has_chain timeout key ready paid =
      let (signed, made, built) = built_payload payload paid in
      let req =
        settle_request (build_payload requirements addr authorization signed) requirements in
      let verified : IsVerified lib N v req s = record {
        client = client;
        network = built_network signed network ready.serves;
        terms = built_terms network has_chain;
        window = built_window ready (requirements-timeout timeout);
        fresh = ready.fresh;
        signed =
            sign_auth-IsSigned lib priv client.account_prefix addr key authorization signed refl
              made;
        granted = ready.granted;
        funded = ready.funded;
      } in
      rw built (verify_complete lib N v req s verified)
