-- ===== src/Middleware/Laws.antt =====
-- middleware/middleware.go: the handler on its branches.
use cosmos_pay.Prelude.{String, [], ◌≡◌, ◌≢◌, ◌↔◌, inl, inr, true, false, none, some, arith, eq_iff}
use Prim.Native.String.{◌++◌}
use cosmos_pay.Prelude.Text.{strip_prefix, trim_prefix, append_of_strip_prefix}
use cosmos_pay.Errors.{Result, ok, value_or, Result-cases}
use cosmos_pay.Types.{PaymentRequirements, PaymentPayload, SettleResponse}
use cosmos_pay.Types.Codes.{scheme_id, err_invalid_authorization, err_unexpected}
use cosmos_pay.Encoding.Base64
use cosmos_pay.Encoding.Json.{print}
use cosmos_pay.Adr036.{Bytes}
use cosmos_pay.Types.Tags.{request_json}
use mathlib.Core.Option.{get_or}
use text.Mathlib.TextLemmas.{append-nil}
use cosmos_pay.Http.{Request, get_header, ResponseWriter, status_payment_required}
use cosmos_pay.Middleware.Headers.{
  get_header-set_header, write_required-Refuses, write_failure-Refuses,
}
use cosmos_pay.Middleware.{
  Config, HttpLib, settle_url, chain_id_of, build_requirements, requirements_header,
  response_header, set_response_header, decode_payload, call_settle, with_defaults, paid,
}

module _ (lib : HttpLib) (next : ResponseWriter → Request → ResponseWriter) (cfg : Config)
    (w : ResponseWriter) (r : Request) where
  abbrev pub asked : PaymentRequirements
  asked = build_requirements (with_defaults cfg) r

  abbrev pub signature_header : String
  signature_header = get_header "PAYMENT-SIGNATURE" r.header

  -- The request carries a payload of the scheme, and the facilitator answers that it is settled.
  pub record IsPaidFor : Type 0 where
    pub payload : PaymentPayload
    pub response : SettleResponse
    pub carried : signature_header ≢ ""
    pub decoded : decode_payload lib signature_header ≡ ok payload
    pub answered : call_settle lib (with_defaults cfg) payload asked ≡ ok response
    pub settled : response.success ≡ true

  decode_payload-scheme :
      (header : String) (pp : PaymentPayload)
      → decode_payload lib header ≡ ok pp
      → pp.scheme ≡ scheme_id
  unfolding decode_payload
  decode_payload-scheme header pp h = ground (
    arith,
    eq_iff (value_or pp (lib.unmarshal_payload (value_or [] (Base64.decode header)))).scheme
        scheme_id,
  )

  -- The inner handler runs only for a request that is paid for.
  pub served_sound : (paid lib next cfg w r).served ≡ true → IsPaidFor
  unfolding paid
  served_sound h = elim (Result-cases (decode_payload lib signature_header)) [
    | inl (e, failed) ↦ absurd (ground arith)
    | inr (pp, decoded) ↦ elim (Result-cases (call_settle lib (with_defaults cfg) pp asked)) [
      | inl (e, failed) ↦ absurd (ground arith)
      | inr (resp, answered) ↦ record {
        payload = pp;
        response = resp;
        carried = ground (arith, eq_iff signature_header "");
        decoded = decoded;
        answered = answered;
        settled = ground arith;
      }
    ]
  ]

  pub served_complete : IsPaidFor → (paid lib next cfg w r).served ≡ true
  unfolding paid
  served_complete p = ground (arith, eq_iff signature_header "")

  -- The body of the POST for a payload: the protocol version, the payload, and the requirements.
  abbrev pub settle_body : PaymentPayload → Bytes
  settle_body payload = print (
      request_json
        (record { x402_version = 2; payment_payload = payload; payment_requirements = asked }))

  -- The header is the base64 of a JSON payload of the scheme, and the facilitator's settle URL
  -- answered the POST of that payload and the requirements with a settlement that succeeded.
  pub record IsSettledFor (payload : PaymentPayload) : Type 0 where
    pub raw : Bytes
    pub body : Bytes
    pub response : SettleResponse
    pub carried : get_header "PAYMENT-SIGNATURE" r.header ≢ ""
    pub base64 : Base64.decode (get_header "PAYMENT-SIGNATURE" r.header) ≡ ok raw
    pub json : lib.unmarshal_payload raw ≡ ok payload
    pub scheme : payload.scheme ≡ scheme_id
    pub posted : lib.post (cfg.facilitator_url ++ "/settle") (settle_body payload) ≡ ok body
    pub answered : lib.decode_settle_response body ≡ ok response
    pub settled : response.success ≡ true

  facilitator_url_defaults : (with_defaults cfg).facilitator_url ≡ cfg.facilitator_url
  facilitator_url_defaults = ground arith

  pub IsPaidFor-IsSettledFor : (p : IsPaidFor) → IsSettledFor p.payload
  unfolding decode_payload call_settle
  IsPaidFor-IsSettledFor p =
      let raw = value_or [] (Base64.decode signature_header) in
      let body = value_or [] (lib.post (settle_url (with_defaults cfg)) (settle_body p.payload)) in
      record {
        raw = raw;
        body = body;
        response = p.response;
        carried = p.carried;
        base64 = ground (arith, p.decoded);
        json = ground (arith, p.decoded);
        scheme = decode_payload-scheme signature_header p.payload p.decoded;
        posted = ground (arith, p.answered, facilitator_url_defaults);
        answered = ground (arith, p.answered);
        settled = p.settled;
      }

  IsSettledFor-IsPaidFor : (payload : PaymentPayload) → IsSettledFor payload → IsPaidFor
  unfolding decode_payload call_settle
  IsSettledFor-IsPaidFor payload p = record {
    payload = payload;
    response = p.response;
    carried = p.carried;
    decoded = ground (arith, eq_iff payload.scheme scheme_id);
    answered = ground (arith, facilitator_url_defaults);
    settled = p.settled;
  }

  -- The inner handler runs exactly if the request carries a header that is not empty and is
  -- the base64 of a JSON payload of the scheme, and the facilitator's settle URL answered
  -- the POST of that payload with the middleware's requirements with a settlement that
  -- succeeded.
  pub served_iff :
      ((paid lib next cfg w r).served ≡ true) ↔ ((payload : PaymentPayload) × IsSettledFor payload)
  served_iff = (
    λ h. let p = served_sound h in (p.payload, IsPaidFor-IsSettledFor p),
    λ (payload, p). served_complete (IsSettledFor-IsPaidFor payload p),
  )

  -- If the inner handler does not run, and the writer had no status yet, then the response has
  -- the status 402 and the requirements for the request in its header.
  pub unserved_payment_required :
      w.status ≡ none
      → (paid lib next cfg w r).served ≡ false
      → ((paid lib next cfg w r).writer.status ≡ some status_payment_required)
        × (get_header "PAYMENT-REQUIRED" (paid lib next cfg w r).writer.header
            ≡ requirements_header asked)
  unfolding paid
  unserved_payment_required fresh h = elim (Result-cases (decode_payload lib signature_header)) [
    | inl (e, failed) ↦ ground (
      arith,
      write_required-Refuses w asked fresh,
      write_failure-Refuses w asked err_invalid_authorization fresh,
    )
    | inr (pp, decoded) ↦ elim (Result-cases (call_settle lib (with_defaults cfg) pp asked)) [
      | inl (e, failed) ↦ ground (
        arith,
        write_required-Refuses w asked fresh,
        write_failure-Refuses w asked err_unexpected fresh,
      )
      | inr (resp, answered) ↦ ground (
        arith,
        write_required-Refuses w asked fresh,
        write_failure-Refuses w asked resp.error_reason fresh,
      )
    ]
  ]

  -- Two HTTP clients that give the same answers to the POST, at the facilitator's settle
  -- URL, of a payload of the scheme with the middleware's requirements, make the handler do
  -- the same.
  pub paid_by_post :
      (post : String → Bytes → Result Bytes)
      → ((payload : PaymentPayload)
          → payload.scheme ≡ scheme_id
          → post (cfg.facilitator_url ++ "/settle") (settle_body payload)
            ≡ lib.post (cfg.facilitator_url ++ "/settle") (settle_body payload))
      → paid (record lib { post = post }) next cfg w r ≡ paid lib next cfg w r
  unfolding paid decode_payload call_settle
  paid_by_post post same = elim (Result-cases (decode_payload lib signature_header)) [
    | inl (e, failed) ↦ ground arith
    | inr (pp, decoded) ↦
        let agree = same pp (decode_payload-scheme signature_header pp decoded) in
        ground (arith, agree, facilitator_url_defaults)
  ]

  -- For a request that is paid for, the response is what the inner handler writes to a writer
  -- whose header has the facilitator's answer as its receipt.
  pub served_receipt :
      (p : IsPaidFor)
      → ((paid lib next cfg w r).writer ≡ next (set_response_header w p.response) r)
        × (get_header "PAYMENT-RESPONSE" (set_response_header w p.response).header
            ≡ response_header p.response)
  unfolding paid set_response_header
  served_receipt p = (ground (arith, eq_iff signature_header ""), simp get_header-set_header)

-- For every network but "cosmos:", the chain id in the middleware's requirements is the one that
-- the facilitator takes from the network.
pub chain_id_of-eq-trim_prefix :
    (network : String) → network ≢ "cosmos:" → chain_id_of network ≡ trim_prefix network "cosmos:"
unfolding chain_id_of trim_prefix
chain_id_of-eq-trim_prefix network h = ground (
  arith,
  eq_iff (get_or (strip_prefix "cosmos:" network) "") "",
  append_of_strip_prefix "cosmos:" network "",
  append-nil "cosmos:",
)
