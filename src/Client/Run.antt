-- ===== src/Client/Run.antt =====
-- main of examples/client/main.go: the request for the page, and the retry with a payment. The log,
-- in which the receipt of the second response is shown, is not modelled. An error is the text of
-- log.Fatal.
pub mod Laws
use Prim.Native.String.{◌++◌}
use cosmos_pay.Prelude.{ℕ, String, Bool, true, not, ◌==◌, eqb, [], ◌∷◌, if◌then◌else◌}
use cosmos_pay.Prelude.Text.{repeat_text}
use cosmos_pay.Errors.{
  Error, plain, wrapped, error_text, Result, ok, err, ◌>>=◌, ◌>>◌, reject_if, map_error, fatal,
}
use cosmos_pay.Types.{PaymentRequirements}
use cosmos_pay.Adr036.{SignLib, Bytes, show}
use cosmos_pay.Http.{Header, get_header, status_ok, status_payment_required}
use cosmos_pay.Noble.Config.{Env, env_or, KeyLib}
use cosmos_pay.Client.{PrivKey, fresh_nonce, pay, decode_header, payment_header}
use cosmos_pay.Tools.Keys.{derive_key}

-- http.Response, with its body read
pub record Response : Type 0 where
  pub status : ℕ
  pub header : Header
  pub body : Bytes

-- What the client calls: json.Unmarshal into requirements, and the HTTP client's answer to the
-- n-th GET of a URL with a header.
pub record ClientLib : Type 0 where
  pub unmarshal_requirements : Bytes → Result PaymentRequirements
  pub get : ℕ → String → Header → Result Response
  -- fmt's %s at the body
  pub body_text : Bytes → String

-- the nonce, which the switch X402_REUSE_NONCE fixes
abbrev pub nonce_of : Env → Bytes → String
nonce_of env random =
    if env "X402_REUSE_NONCE" == "1" then "0x" ++ repeat_text "ab" 32 else fresh_nonce random

abbrev pub server_url : Env → String
server_url env = env_or env "X402_SERVER_URL" "http://localhost:8080/premium"

module _ (lib : SignLib) (keys : KeyLib) (key_of : Bytes → PrivKey) (client : ClientLib)
    (env : Env) where
  -- step 1: the requirements of a response that asks for a payment
  unfoldable pub read_required : Response → Result PaymentRequirements
  read_required resp = do
    reject_if (not (eqb resp.status status_payment_required))
        (plain ("expected 402, got " ++ show resp.status))
    reject_if (get_header "PAYMENT-REQUIRED" resp.header == "")
        (plain "server did not return PAYMENT-REQUIRED header")
    map_error (fatal "decode requirements")
        (decode_header client.unmarshal_requirements (get_header "PAYMENT-REQUIRED" resp.header))

  -- main, up to the body that is printed; `random` is what rand.Read gave, `now` the Unix time
  unfoldable pub client_main : Bytes → ℕ → Result Bytes
  unfolding read_required
  client_main random now = do
    reject_if (env "X402_PAYER_MNEMONIC" == "") (plain "X402_PAYER_MNEMONIC is required")
    (priv, addr) ←
        map_error (fatal "derive payer key")
          (derive_key keys (env "X402_PAYER_MNEMONIC") (env_or env "X402_NOBLE_PREFIX" "noble"))
    resp ← map_error (fatal "first request") (client.get 0 (server_url env) [])
    requirements ← read_required resp
    payload ← map_error (fatal "sign") (
        pay lib (key_of priv) requirements addr (nonce_of env random) (env "X402_EXPIRED" == "1")
          now)
    resp2 ←
        map_error (fatal "paid request")
          (client.get 1 (server_url env) (("PAYMENT-SIGNATURE", payment_header payload) ∷ []))
    reject_if (not (eqb resp2.status status_ok)) (
        plain (
          "paid request returned status "
          ++ show resp2.status
          ++ ", body="
          ++ client.body_text resp2.body))
    ok resp2.body
