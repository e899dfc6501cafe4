-- ===== src/Tools/Fixture/Laws.antt =====
-- tools/fixture/main.go against facilitator/verify.go.
use Prim.Native.String.{◌++◌}
use cosmos_pay.Prelude.{
  ℕ, ◌+◌, ◌≤◌, ◌<◌, ◌^◌, String, ◌≡◌, ◌⊎◌, refl, sym, ap, ◌∙◌, arith, eq_iff, false, inl, inr,
}
use cosmos_pay.Prelude.Text.{trim_prefix, trim_prefix-append}
use cosmos_pay.Clock.{unix}
use cosmos_pay.Errors.{ok, Result-cases}
use cosmos_pay.Types.{PaymentPayload, PaymentRequirements, VerifyRequest}
use cosmos_pay.Amounts.Laws.{amount_exceeds_self}
use cosmos_pay.Nonces.{NonceStore}
use cosmos_pay.Nonces.Table.{lookup}
use cosmos_pay.Chain.{ChainClient}
use cosmos_pay.Adr036.{SignLib, Bytes}
use cosmos_pay.Verify.{Verifier, verify}
use cosmos_pay.Verify.Laws.{IsGranted, IsFunded, IsVerified, verify_complete}
use cosmos_pay.Server.{chains_of}
use cosmos_pay.Client.{PrivKey, sign_auth, fresh_nonce}
use cosmos_pay.Client.Laws.{KeyWorks, sign_auth-IsSigned}
use cosmos_pay.Noble.Config.{KeyLib}
use cosmos_pay.Tools.Keys.{derive_key}
use cosmos_pay.Tools.Fixture.{
  Flags, fixture_authorization, fixture_payload, fixture_requirements, fixture_main,
}

-- the request that a gateway makes of a fixture, which has no version of its own
abbrev pub fixture_request : PaymentPayload × PaymentRequirements → VerifyRequest
fixture_request (payload, requirements) = record {
  x402_version = 0;
  payment_payload = payload;
  payment_requirements = requirements;
}

module _ (lib : SignLib) (N : NonceStore) (keys : KeyLib) (key_of : Bytes → PrivKey) (flags : Flags)
    (random : Bytes) (now : ℕ) where
  -- The flags fit the chain and the window, and the facilitator is ready at its clock.
  pub record IsFitting (v : Verifier) (client : ChainClient) (payer : String) (s : N.State)
      : Type 0 where
    pub serves : v.chains ≡ chains_of client
    pub network : flags.network ≡ "cosmos:" ++ client.chain_id
    pub chain : flags.chain_id ≡ client.chain_id
    pub prefix : flags.prefix ≡ client.account_prefix
    pub no_past : 5 ≤ now
    pub no_wrap : now + flags.validity_seconds < 2 ^ 64
    pub bounded :
        (flags.max_timeout_seconds ≡ 0) ⊎ (flags.validity_seconds + 5 ≤ flags.max_timeout_seconds)
    pub started : now ≤ unix (v.clock 0) + 5
    pub not_ended : unix (v.clock 0) < now + flags.validity_seconds
    pub fresh : N.exists payer flags.chain_id (fresh_nonce random) s ≡ ok false
    pub granted :
        IsGranted client v.clock
          (fixture_authorization flags payer (fresh_nonce random) now)
          (fixture_requirements flags)
    pub funded : IsFunded client (fixture_authorization flags payer (fresh_nonce random) now)

  -- Let the flags fit the chain that the facilitator serves, the key derived from them work, the
  -- clock of the facilitator be inside the window, and the nonce, the grant and the balance be in
  -- order. Then the payment that the command writes passes `Verify`, which returns the payer.
  pub fixture_verifies :
      (v : Verifier) (client : ChainClient) (priv : Bytes) (payer : String) (s : N.State)
      (written : PaymentPayload × PaymentRequirements)
      → derive_key keys flags.payer_mnemonic flags.prefix ≡ ok (priv, payer)
      → KeyWorks lib (key_of priv) flags.prefix payer
      → IsFitting v client payer s
      → fixture_main lib keys key_of flags random now ≡ ok written
      → verify lib N v (fixture_request written) s ≡ ok payer
  unfolding fixture_main lookup sign_auth
  fixture_verifies v client priv payer s written derived key fits h =
      let a = fixture_authorization flags payer (fresh_nonce random) now in
      elim (Result-cases (sign_auth lib (key_of priv) a)) [
        | inl (e, failed) ↦ absurd (ground arith)
        | inr (signed, made) ↦
            let out : PaymentPayload × PaymentRequirements =
              (fixture_payload flags payer a signed, fixture_requirements flags) in
            let same : written ≡ out = ground arith in
            let verified : IsVerified lib N v (fixture_request out) s = record {
              client = client;
              network = record {
                payload_scheme = refl;
                requirements_scheme = refl;
                same_network = refl;
                configured = rw fits.serves (
                    ground
                      (arith, fits.network, eq_iff ("cosmos:" ++ client.chain_id) flags.network));
              };
              terms = record {
                recipient = refl;
                asset = refl;
                amount = amount_exceeds_self flags.amount;
                resource = refl;
                chain_of_network =
                    fits.chain
                    ∙ sym (
                        ap (λ n. trim_prefix n "cosmos:") fits.network
                        ∙ trim_prefix-append "cosmos:" client.chain_id);
                chain_of_client = fits.chain;
              };
              window = ground arith;
              fresh = fits.fresh;
              signed =
                  rw fits.prefix at (
                    sign_auth-IsSigned lib (key_of priv) flags.prefix payer key a signed refl made);
              granted = fits.granted;
              funded = fits.funded;
            } in
            rw same (verify_complete lib N v (fixture_request out) s verified)
      ]
