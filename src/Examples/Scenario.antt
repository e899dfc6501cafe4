-- ===== src/Examples/Scenario.antt =====
-- A payer, a chain and a facilitator for the runs. The libraries are stood in for by small
-- functions: a signature checks if it is as long as it has to be and begins like the key, and every
-- key has the address "noble1payer".
use Prim.Native.String.{◌++◌}
use cosmos_pay.Prelude.{ℕ, ◌+◌, String, Bool, false, Option, none, some, List, [], ◌∷◌, eqb}
use cosmos_pay.Clock.{zero_time, unix_time}
use cosmos_pay.Errors.{Error, Result, ok, plain}
use cosmos_pay.Types.{Authorization, PaymentPayload, PaymentRequirements, VerifyRequest}
use cosmos_pay.Types.Codes.{scheme_id}
use cosmos_pay.Chain.{ChainClient}
use cosmos_pay.Adr036.{SignLib, Bytes}
use cosmos_pay.Verify.{Verifier}
use cosmos_pay.Encoding.Json.{Json}
use cosmos_pay.Encoding.Json.Value.{Fields}
use cosmos_pay.Encoding.Json.Struct.{type_error}

-- no reading of the free-form map, which no request has
abbrev pub no_free : Fields → List (String × Json) → Result (List (String × Json))
no_free fs old = type_error

abbrev begin_alike : Bytes → Bytes → Bool
begin_alike (a ∷ k) (b ∷ s) = eqb a b
begin_alike _ _ = false

abbrev pub toy_lib : SignLib
toy_lib = record {
  sort_json = λ b. ok b;
  sha256 = λ b. b;
  pub_key_size = 3;
  verify_signature = λ k m s. begin_alike k s;
  address = λ k. k;
  convert_and_encode = λ prefix b. ok (prefix ++ "1payer");
}

-- the key bytes 0 0 0, and 64 zero bytes
abbrev pub key_b64 : String
key_b64 = "AAAA"

abbrev pub signature_b64 : String
signature_b64 =
    "AAAAAAAAAAAAAAAAAAAAAAAAAAAAAAAAAAAAAAAAAAAAAAAAAAAAAAAAAAAAAAAAAAAAAAAAAAAAAAAAAAAAAA=="

abbrev pub authorization_of : String → String → Authorization
authorization_of amount nonce = record {
  from = "noble1payer";
  to = "noble1shop";
  denom = "uusdc";
  amount = amount;
  nonce = nonce;
  valid_after = 1716700000;
  valid_before = 1716700060;
  resource = "https://shop/premium";
  chain_id = "grand-1";
}

abbrev pub shop_requirements : PaymentRequirements
shop_requirements = record {
  scheme = scheme_id;
  network = "cosmos:grand-1";
  max_amount_required = "10000";
  asset = "uusdc";
  pay_to = "noble1shop";
  resource = "https://shop/premium";
  description = "";
  mime_type = "";
  max_timeout_seconds = 60;
  output_schema = [];
  extra = record { facilitator = "noble1fac"; chain_id = "grand-1"; decimals = 6; symbol = "USDC" };
}

abbrev pub payload_of : Authorization → PaymentPayload
payload_of a = record {
  x402_version = 2;
  scheme = scheme_id;
  network = "cosmos:grand-1";
  payload = record {
    from = a.from;
    public_key = key_b64;
    signature = signature_b64;
    authorization = a;
  };
}

abbrev pub request_of : String → String → VerifyRequest
request_of amount nonce = record {
  x402_version = 2;
  payment_payload = payload_of (authorization_of amount nonce);
  payment_requirements = shop_requirements;
}

-- a chain with a grant of one million and this answer to a broadcast
abbrev pub chain_answering : String × Option Error → ChainClient
chain_answering answer = record {
  chain_id = "grand-1";
  account_prefix = "noble";
  query_send_authorization = λ granter grantee denom. ok ("1000000", zero_time);
  query_balance = λ addr denom. ok "500000";
  broadcast_authz_send = λ from to denom amount. answer;
}

abbrev pub verifier_at : ℕ → String × Option Error → Verifier
verifier_at seconds answer = record {
  chains = ("cosmos:grand-1", chain_answering answer) ∷ [];
  clock = λ i. unix_time (seconds + i);
}

abbrev pub accepted : String × Option Error
accepted = ("ABCD", none)

abbrev pub timed_out : String × Option Error
timed_out = ("ABCD", some (plain "wait for inclusion: timeout waiting for tx ABCD"))
