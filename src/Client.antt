-- ===== src/Client.antt =====
-- examples/client/main.go: the payer's side. It reads the requirements from the 402 response, builds
-- and signs an authorization, and retries with it in a header. The random bytes, the clock and the
-- key are parameters. Client/Run has the two requests.
pub mod Laws
pub mod Run
use Prim.Native.String.{◌++◌}
use cosmos_pay.Prelude.{
  ℕ, ◌/◌, ◌%◌, String, Bool, true, false, not, ◌==◌, Option, none, some, List, [], ◌∷◌,
  if◌then◌else◌,
}
use cosmos_pay.Prelude.Text.{ascii_text}
use cosmos_pay.Prelude.Words.{add64, sub64}
use cosmos_pay.Errors.{Error, Result, ok, err, ◌>>=◌}
use cosmos_pay.Types.{PaymentRequirements, Authorization, PaymentPayload}
use cosmos_pay.Types.Codes.{scheme_id}
use cosmos_pay.Types.Tags.{payload_json}
use cosmos_pay.Encoding.Json.{Json, hex_digit, print}
use cosmos_pay.Encoding.Base64
use cosmos_pay.Adr036.{SignLib, Bytes, adr036_preimage}

-- a private key: Sign, and the bytes of its public key
pub record PrivKey : Type 0 where
  pub sign : Bytes → Result Bytes
  pub pub_key_bytes : Bytes

-- hex.EncodeToString, as character codes
abbrev hex_codes : Bytes → List ℕ
hex_codes [] = []
hex_codes (b ∷ bytes) = hex_digit (b / 16) ∷ hex_digit (b % 16) ∷ hex_codes bytes

-- the window that the client asks for; `expired` is the switch X402_EXPIRED
unfoldable pub window : Bool → ℕ → ℕ × ℕ
window expired now = if expired then (sub64 now 60, sub64 now 10) else (sub64 now 5, add64 now 30)

-- step 2: the authorization, from the requirements, the payer, the nonce and the time
unfoldable pub build_authorization :
    PaymentRequirements → String → String → Bool → ℕ → Authorization
unfolding window
build_authorization requirements addr nonce expired now = record {
  from = addr;
  to = requirements.pay_to;
  denom = requirements.asset;
  amount = requirements.max_amount_required;
  nonce = nonce;
  valid_after = (window expired now).0;
  valid_before = (window expired now).1;
  resource = requirements.resource;
  chain_id = requirements.extra.chain_id;
}

-- freshNonce, at the random bytes
unfoldable pub fresh_nonce : Bytes → String
unfolding hex_digit
fresh_nonce b = "0x" ++ ascii_text (hex_codes b)

-- signAuth: the signature and the public key
unfoldable pub sign_auth : SignLib → PrivKey → Authorization → Result (Bytes × Bytes)
sign_auth lib priv a = do
  preimage ← adr036_preimage lib a
  sig ← priv.sign preimage
  ok (sig, priv.pub_key_bytes)

-- step 3: the payload around the signature
unfoldable pub build_payload :
    PaymentRequirements → String → Authorization → Bytes × Bytes → PaymentPayload
build_payload requirements addr a signed = record {
  x402_version = 2;
  scheme = scheme_id;
  network = requirements.network;
  payload = record {
    from = addr;
    public_key = Base64.encode signed.1;
    signature = Base64.encode signed.0;
    authorization = a;
  };
}

-- steps 2 and 3
unfoldable pub pay :
    SignLib → PrivKey → PaymentRequirements → String → String → Bool → ℕ → Result PaymentPayload
unfolding build_authorization sign_auth build_payload
pay lib priv requirements addr nonce expired now = do
  let a = build_authorization requirements addr nonce expired now
  signed ← sign_auth lib priv a
  ok (build_payload requirements addr a signed)

-- encodeHeader, at the JSON of a value
abbrev pub encode_header : Json → String
encode_header v = Base64.encode (print v)

-- decodeHeader, with the JSON decoder as a parameter
unfoldable pub decode_header {ℓ} : {A : Type ℓ} → (Bytes → Result A) → String → Result A
decode_header unmarshal h = do raw ← Base64.decode h; unmarshal raw

-- the header of the retry
abbrev pub payment_header : PaymentPayload → String
payment_header payload = encode_header (payload_json payload)
