-- ===== src/DemoServer/Complete.antt =====
-- examples/server/main.go and examples/client/main.go: an exchange in which everything is in order.
use cosmos_pay.Prelude.{ℕ, String, ◌≡◌, ◌≢◌, ◌==◌, refl, true, some, none, [], ◌∷◌, arith, eq_iff}
use cosmos_pay.Clock.{Time}
use cosmos_pay.Errors.{ok}
use cosmos_pay.Types.{PaymentRequirements, PaymentPayload, SettleResponse}
use cosmos_pay.Encoding.Base64
use cosmos_pay.Encoding.Json.{Members, obj, print}
use cosmos_pay.Adr036.{SignLib, Bytes}
use cosmos_pay.Http.{
  Header, Request, ResponseWriter, new_writer, get_header, status_ok, status_payment_required,
}
use cosmos_pay.Middleware.{
  Config, HttpLib, build_requirements, requirements_header, decode_payload, call_settle,
  with_defaults, set_response_header, paid,
}
use cosmos_pay.Middleware.Laws.{IsPaidFor, served_receipt, unserved_payment_required}
use cosmos_pay.Noble.Config.{Env, env_or, KeyLib}
use cosmos_pay.Server.{with_line_break}
use cosmos_pay.Client.{PrivKey, pay, decode_header, payment_header}
use cosmos_pay.Client.Run.{Response, ClientLib, nonce_of, server_url, read_required, client_main}
use cosmos_pay.Tools.Keys.{derive_key}
use cosmos_pay.DemoServer.{premium_json, premium}
use cosmos_pay.DemoServer.Laws.{page_request, sent_response, IsReached, paying_request, page_paid}

-- the base64 of some bytes is a text of some characters
encode-ne-empty : (b : ℕ) (bytes : Bytes) → Base64.encode (b ∷ bytes) ≢ ""
unfolding Base64.encode
encode-ne-empty b [] h = cc
encode-ne-empty b (c ∷ []) h = cc
encode-ne-empty b (c ∷ d ∷ bytes) h = cc

pub object-ne-empty : (ms : Members) → Base64.encode (print (obj ms)) ≢ ""
unfolding print
object-ne-empty ms = encode-ne-empty _ _

premium_writer :
    (now : Time) (w : ResponseWriter) (r : Request)
    → w.status ≡ none
    → ((premium now w r).status ≡ some status_ok)
      × ((premium now w r).body ≡ with_line_break (print (premium_json now)))
unfolding premium
premium_writer now w r fresh = (ground arith, refl)

module _ (https : ℕ → HttpLib) (other : ResponseWriter → Request → ResponseWriter) (cfg : Config)
    (clock : ℕ → Time) (host : String) (lib : SignLib) (keys : KeyLib) (key_of : Bytes → PrivKey)
    (client : ClientLib) (env : Env) (random : Bytes) (now : ℕ) where
  abbrev first_requirements : PaymentRequirements
  first_requirements = build_requirements (with_defaults cfg) (page_request host [])

  -- The client has a key, the decoders of the two sides read back what was encoded, and the
  -- facilitator settles the payment.
  pub record IsServable : Type 0 where
    pub priv : Bytes
    pub addr : String
    pub payload : PaymentPayload
    pub response : SettleResponse
    pub reached : IsReached https other cfg clock host lib keys key_of client env
    pub given : env "X402_PAYER_MNEMONIC" ≢ ""
    pub derived :
        derive_key keys (env "X402_PAYER_MNEMONIC") (env_or env "X402_NOBLE_PREFIX" "noble")
        ≡ ok (priv, addr)
    pub read :
        decode_header client.unmarshal_requirements (requirements_header first_requirements)
        ≡ ok first_requirements
    pub signed :
        pay lib
          (key_of priv)
          first_requirements
          addr
          (nonce_of env random)
          (env "X402_EXPIRED" == "1")
          now
        ≡ ok payload
    pub decoded : decode_payload (https 1) (payment_header payload) ≡ ok payload
    pub answered :
        call_settle (https 1) (with_defaults cfg) payload (
          build_requirements
            (with_defaults cfg)
            (paying_request https other cfg clock host lib keys key_of client env payload))
        ≡ ok response
    pub settled : response.success ≡ true

  first_response :
      ((paid (https 0) (premium (clock 0)) cfg new_writer (page_request host [])).writer.status
        ≡ some status_payment_required)
      × (get_header "PAYMENT-REQUIRED"
            (paid (https 0) (premium (clock 0)) cfg new_writer (page_request host [])).writer.header
          ≡ requirements_header first_requirements)
  unfolding paid get_header
  first_response =
      unserved_payment_required (https 0) (premium (clock 0)) cfg new_writer (page_request host [])
        refl refl

  abbrev first_answer : Response
  first_answer =
      sent_response
        (paid (https 0) (premium (clock 0)) cfg new_writer (page_request host [])).writer

  first_read :
      decode_header client.unmarshal_requirements (requirements_header first_requirements)
        ≡ ok first_requirements
      → read_required lib keys key_of client env first_answer ≡ ok first_requirements
  unfolding read_required
  first_read read =
      let present : requirements_header first_requirements ≢ "" = object-ne-empty _ in
      ground
        (arith, first_response, read, eq_iff (requirements_header first_requirements) "", present)

  abbrev second_answer : PaymentPayload → Response
  second_answer payload =
      sent_response
        (paid (https 1) (premium (clock 1)) cfg new_writer
          (paying_request https other cfg clock host lib keys key_of client env payload)).writer

  second_served :
      (c : IsServable)
      → ((second_answer c.payload).status ≡ status_ok)
        × ((second_answer c.payload).body ≡ with_line_break (print (premium_json (clock 1))))
  unfolding get_header set_response_header
  second_served c =
      let r = paying_request https other cfg clock host lib keys key_of client env c.payload in
      let paid_for : IsPaidFor (https 1) (premium (clock 1)) cfg new_writer r = record {
        payload = c.payload;
        response = c.response;
        carried = object-ne-empty _;
        decoded = c.decoded;
        answered = c.answered;
        settled = c.settled;
      } in
      let written = (served_receipt (https 1) (premium (clock 1)) cfg new_writer r paid_for).0 in
      let page = premium_writer (clock 1) (set_response_header new_writer c.response) r refl in
      (ground (arith, written, page), ground (arith, written, page))

  -- If the client has a key, the decoders read back what was encoded, and the facilitator settles
  -- the payment, then the client prints the page.
  pub client_main_completes :
      IsServable
      → client_main lib keys key_of client env random now
        ≡ ok (with_line_break (print (premium_json (clock 1))))
  unfolding client_main
  client_main_completes c =
      let header : Header = ("PAYMENT-SIGNATURE", payment_header c.payload) ∷ [] in
      let first : client.get 0 (server_url env) [] ≡ ok first_answer = ground (
        arith,
        c.reached 0 [],
        page_paid https other cfg clock host lib keys key_of client env 0 [],
      ) in
      let second : client.get 1 (server_url env) header ≡ ok (second_answer c.payload) = ground (
        arith,
        c.reached 1 header,
        page_paid https other cfg clock host lib keys key_of client env 1 header,
      ) in
      ground (
        arith,
        eq_iff (env "X402_PAYER_MNEMONIC") "",
        first,
        first_read c.read,
        second,
        second_served c,
      )
