-- ===== src/Deployment.antt =====
-- middleware/middleware.go in front of facilitator/cmd/main.go: the middleware's HTTP client posts to
-- the settlement endpoint of a facilitator. The two decoders are those of Go's encoding/json; what
-- is relied on is that each reads back the value that was encoded.
pub mod Chain
pub mod Exchange
pub mod Wire
use cosmos_pay.Prelude.{◌≡◌, refl, true, false, some, [], ◌∷◌, arith}
use cosmos_pay.Errors.{Result, ok}
use cosmos_pay.Types.{PaymentPayload, SettleRequest, SettleResponse, VerifyRequest}
use cosmos_pay.Types.Tags.{request_json, settle_response_json}
use cosmos_pay.Encoding.Json.{print}
use cosmos_pay.Nonces.{NonceStore}
use cosmos_pay.Nonces.Contract.{Contract}
use cosmos_pay.Adr036.{SignLib, Bytes}
use cosmos_pay.Verify.{Verifier}
use cosmos_pay.Settle.{settle}
use cosmos_pay.Settle.Laws.{response_of, IsPaid, settle-IsPaid}
use cosmos_pay.Http.{Request, ResponseWriter, new_writer}
use cosmos_pay.Middleware.{
  Config, HttpLib, decode_payload, settle_request, settle_url, call_settle, with_defaults, paid,
}
use cosmos_pay.Middleware.Laws.{asked, signature_header, served_sound}
use cosmos_pay.Server.{with_line_break, write_json, settle_handler}
use cosmos_pay.Server.Laws.{settle_handler_settles}

-- the request that the middleware's client makes
abbrev pub post_of : Bytes → Request
post_of body = record {
  method = "POST";
  tls = false;
  host = "";
  path = "/settle";
  header = ("Content-Type", "application/json") ∷ [];
  body = body;
}

-- what json.Encoder writes for a settle response
abbrev pub encoded_response : SettleResponse → Bytes
encoded_response response = with_line_break (print (settle_response_json response))

module _ (http : HttpLib) (next : ResponseWriter → Request → ResponseWriter) (cfg : Config)
    (w : ResponseWriter) (r : Request) (lib : SignLib) (N : NonceStore) (K : Contract N)
    (decode : Bytes → Result VerifyRequest) (v : Verifier) (s : N.State) where
  abbrev posted_request : PaymentPayload → SettleRequest
  posted_request pp = settle_request pp (asked http next cfg w r)

  -- The middleware and the facilitator are connected, for this request.
  pub record IsConnected : Type 0 where
    pub posts :
        (body : Bytes)
        → http.post (settle_url cfg) body
          ≡ ok (settle_handler lib N decode v new_writer (post_of body) s).0.body
    pub reads_request :
        (pp : PaymentPayload)
        → decode_payload http (signature_header http next cfg w r) ≡ ok pp
        → decode (print (request_json (posted_request pp))) ≡ ok (posted_request pp)
    pub reads_response :
        (pp : PaymentPayload) (response : SettleResponse)
        → decode_payload http (signature_header http next cfg w r) ≡ ok pp
        → response_of (settle lib N v (posted_request pp) s) ≡ some response
        → http.decode_settle_response (encoded_response response) ≡ ok response

  settled_response :
      (c : IsConnected) (pp : PaymentPayload) (response : SettleResponse)
      → decode_payload http (signature_header http next cfg w r) ≡ ok pp
      → call_settle http (with_defaults cfg) pp (asked http next cfg w r) ≡ ok response
      → response_of (settle lib N v (posted_request pp) s) ≡ some response
  unfolding call_settle write_json
  settled_response c pp response decoded answered =
      let body = print (request_json (posted_request pp)) in
      let (given, gives, written) =
        settle_handler_settles lib N decode v new_writer (post_of body) (posted_request pp) s K refl
          (c.reads_request pp decoded) in
      ground (arith, written, c.posts body, c.reads_response pp given decoded gives)

  -- Let the facilitator's store keep the contract, and the middleware's client reach its settlement
  -- endpoint, whose decoders read back what was encoded. If the inner handler runs, then the header
  -- of the request decodes to a payload for which, with the middleware's requirements, the
  -- settlement verified and broadcast the payment with success.
  pub served_pays :
      IsConnected
      → (paid http next cfg w r).served ≡ true
      → (pp : PaymentPayload) × (response : SettleResponse) × (decode_payload http
            (signature_header http next cfg w r)
          ≡ ok pp)
        × IsPaid lib N K v (posted_request pp) s response
  served_pays c served =
      let p = served_sound http next cfg w r served in
      (
        p.payload,
        p.response,
        p.decoded,
        settle-IsPaid lib N K v (posted_request p.payload) s p.response
            (settled_response c p.payload p.response p.decoded p.answered) p.settled,
      )
