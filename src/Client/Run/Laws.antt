-- ===== src/Client/Run/Laws.antt =====
-- examples/client/main.go: what a run that prints a body has done.
use cosmos_pay.Prelude.{ℕ, String, ◌≡◌, ◌==◌, [], ◌∷◌, inl, inr, arith}
use cosmos_pay.Errors.{ok, value_or, Result-cases}
use cosmos_pay.Types.{PaymentRequirements, PaymentPayload}
use cosmos_pay.Adr036.{SignLib, Bytes}
use cosmos_pay.Http.{get_header, status_ok, status_payment_required}
use cosmos_pay.Noble.Config.{Env, env_or, KeyLib}
use cosmos_pay.Client.{PrivKey, pay, decode_header, payment_header}
use cosmos_pay.Tools.Keys.{derive_key}
use cosmos_pay.Client.Run.{Response, ClientLib, nonce_of, server_url, read_required, client_main}

module _ (lib : SignLib) (keys : KeyLib) (key_of : Bytes → PrivKey) (client : ClientLib) (env : Env)
    (random : Bytes) (now : ℕ) where
  -- The first response asked for a payment, the client signed one for its requirements, and the
  -- second response, to the request with that payment, has status 200.
  pub record IsRetried (body : Bytes) : Type 0 where
    pub priv : Bytes
    pub addr : String
    pub asked : Response
    pub requirements : PaymentRequirements
    pub payload : PaymentPayload
    pub answered : Response
    pub derived :
        derive_key keys (env "X402_PAYER_MNEMONIC") (env_or env "X402_NOBLE_PREFIX" "noble")
        ≡ ok (priv, addr)
    pub first : client.get 0 (server_url env) [] ≡ ok asked
    pub unpaid : asked.status ≡ status_payment_required
    pub read :
        decode_header client.unmarshal_requirements (get_header "PAYMENT-REQUIRED" asked.header)
        ≡ ok requirements
    pub paid :
        pay lib
          (key_of priv)
          requirements
          addr
          (nonce_of env random)
          (env "X402_EXPIRED" == "1")
          now
        ≡ ok payload
    pub second :
        client.get 1 (server_url env) (("PAYMENT-SIGNATURE", payment_header payload) ∷ [])
        ≡ ok answered
    pub success : answered.status ≡ status_ok
    pub printed : body ≡ answered.body

  pub client_main_sound :
      (body : Bytes) → client_main lib keys key_of client env random now ≡ ok body → IsRetried body
  unfolding client_main read_required
  client_main_sound body h =
      let account =
        value_or ([], "")
          (derive_key keys (env "X402_PAYER_MNEMONIC") (env_or env "X402_NOBLE_PREFIX" "noble")) in
      elim (Result-cases (client.get 0 (server_url env) [])) [
        | inl (e, failed) ↦ absurd (ground arith)
        | inr (asked, first) ↦
            elim (Result-cases (
              decode_header client.unmarshal_requirements
                (get_header "PAYMENT-REQUIRED" asked.header))) [
                  | inl (e, failed) ↦ absurd (ground arith)
                  | inr (requirements, read) ↦
                      elim (Result-cases (
                        pay lib (key_of account.0) requirements account.1 (nonce_of env random)
                          (env "X402_EXPIRED" == "1") now)) [
                            | inl (e, failed) ↦ absurd (ground arith)
                            | inr (payload, paid) ↦
                                elim (Result-cases (
                                  client.get 1 (server_url env)
                                    (("PAYMENT-SIGNATURE", payment_header payload) ∷ []))) [
                                      | inl (e, failed) ↦ absurd (ground arith)
                                      | inr (answered, second) ↦ record {
                                        priv = account.0;
                                        addr = account.1;
                                        asked = asked;
                                        requirements = requirements;
                                        payload = payload;
                                        answered = answered;
                                        derived = ground arith;
                                        first = first;
                                        unpaid = ground arith;
                                        read = read;
                                        paid = paid;
                                        second = second;
                                        success = ground arith;
                                        printed = ground arith;
                                      }
                                    ]
                          ]
                ]
      ]
