-- ===== src/Deployment/Exchange.antt =====
-- examples/client/main.go, examples/server/main.go and facilitator/cmd/main.go together: an exchange
-- in which the parts are connected and the chain accepts the transfer.
use Prim.Native.String.{◌++◌}
use cosmos_pay.Prelude.{ℕ, ◌≤◌, String, ◌≡◌, ◌≢◌, ◌⊎◌, ◌==◌, refl, false, some, none, [], arith}
use cosmos_pay.Clock.{Time}
use cosmos_pay.Errors.{Result, ok}
use cosmos_pay.Types.{
  PaymentRequirements, PaymentPayload, SettleResponse, SettleRequest, VerifyRequest,
}
use cosmos_pay.Types.Tags.{request_json}
use cosmos_pay.Encoding.Json.{print}
use cosmos_pay.Nonces.{NonceStore}
use cosmos_pay.Nonces.Contract.{Contract}
use cosmos_pay.Chain.{ChainClient}
use cosmos_pay.Adr036.{SignLib, Bytes}
use cosmos_pay.Verify.{Verifier, verify}
use cosmos_pay.Verify.Laws.{verify_sound}
use cosmos_pay.Settle.{success, finish, settle}
use cosmos_pay.Settle.Laws.{auth, response_of, sent_of, broadcast_for, settle_verified}
use cosmos_pay.Http.{Request, ResponseWriter, new_writer, get_header}
use cosmos_pay.Middleware.{
  Config, HttpLib, build_requirements, requirements_header, decode_payload, settle_request,
  call_settle, with_defaults,
}
use cosmos_pay.Middleware.Laws.{asked, signature_header}
use cosmos_pay.Server.{chains_of, with_line_break, write_json}
use cosmos_pay.Server.Laws.{settle_handler_settles}
use cosmos_pay.Noble.Config.{Env, env_or, KeyLib}
use cosmos_pay.Client.{PrivKey, build_authorization, pay, decode_header, payment_header}
use cosmos_pay.Client.Laws.{KeyWorks, IsReady, client_payment_verifies}
use cosmos_pay.Client.Run.{ClientLib, nonce_of, client_main}
use cosmos_pay.Tools.Keys.{derive_key}
use cosmos_pay.DemoServer.{premium_json, premium}
use cosmos_pay.DemoServer.Laws.{page_request, IsReached, paying_request}
use cosmos_pay.DemoServer.Complete.{IsServable, client_main_completes}
use cosmos_pay.Deployment.{IsConnected, post_of}
use cosmos_pay.Deployment.Chain.{lookup-chains_of}

module _ (lib : SignLib) (N : NonceStore) (K : Contract N) where
  -- A verified payment that the chain accepts is answered with success.
  settle_completes :
      (v : Verifier) (req : SettleRequest) (s : N.State) (node : ChainClient)
      (addr tx_hash : String)
      → v.chains ≡ chains_of node
      → verify lib N v req s ≡ ok addr
      → node.broadcast_authz_send (auth req).from (auth req).to (auth req).denom (auth req).amount
        ≡ (tx_hash, none)
      → (response_of (settle lib N v req s)
          ≡ some (success tx_hash req.payment_payload.network (auth req).from))
        × (sent_of (settle lib N v req s) ≡ some (broadcast_for (auth req) (tx_hash, none)))
  unfolding finish
  settle_completes v req s node addr tx_hash serves verified accepts =
      let w = (verify_sound lib N v req s addr verified).0 in
      let same =
        lookup-chains_of req.payment_payload.network node w.client
          (rw serves at w.network.configured) in
      (
        ground (arith, settle_verified lib N K v req s w, same, accepts),
        ground (arith, settle_verified lib N K v req s w, same, accepts),
      )

  -- The middleware's client gets the response of the settlement.
  pub call_settle_completes :
      (http : HttpLib) (next : ResponseWriter → Request → ResponseWriter) (cfg : Config)
      (w : ResponseWriter) (r : Request) (decode : Bytes → Result VerifyRequest) (v : Verifier)
      (s : N.State) (c : IsConnected http next cfg w r lib N K decode v s) (pp : PaymentPayload)
      (response : SettleResponse)
      → decode_payload http (signature_header http next cfg w r) ≡ ok pp
      → response_of (settle lib N v (settle_request pp (asked http next cfg w r)) s) ≡ some response
      → call_settle http (with_defaults cfg) pp (asked http next cfg w r) ≡ ok response
  unfolding call_settle write_json
  call_settle_completes http next cfg w r decode v s c pp response decoded gives =
      let body = print (request_json (settle_request pp (asked http next cfg w r))) in
      let (given, given_by, written) =
        settle_handler_settles lib N decode v new_writer (post_of body)
          (settle_request pp (asked http next cfg w r)) s K refl (c.reads_request pp decoded) in
      ground
        (arith, written, c.posts body, c.reads_response pp given decoded given_by, given_by, gives)

module _ (https : ℕ → HttpLib) (other : ResponseWriter → Request → ResponseWriter) (cfg : Config)
    (clock : ℕ → Time) (host : String) (lib : SignLib) (keys : KeyLib) (key_of : Bytes → PrivKey)
    (client : ClientLib) (env : Env) (random : Bytes) (now : ℕ) (N : NonceStore) (K : Contract N)
    (decode : Bytes → Result VerifyRequest) (v : Verifier) (s : N.State) (node : ChainClient) where
  abbrev pub page_requirements : PaymentRequirements
  page_requirements = build_requirements (with_defaults cfg) (page_request host [])

  abbrev pub paid_request : PaymentPayload → Request
  paid_request = paying_request https other cfg clock host lib keys key_of client env

  -- The payment is in order, and the chain accepts the transfer.
  pub record IsPrepared (priv : Bytes) (addr tx_hash : String) (payload : PaymentPayload)
      : Type 1 where
    pub reached : IsReached https other cfg clock host lib keys key_of client env
    pub given : env "X402_PAYER_MNEMONIC" ≢ ""
    pub prompt : (env "X402_EXPIRED" == "1") ≡ false
    pub derived :
        derive_key keys (env "X402_PAYER_MNEMONIC") (env_or env "X402_NOBLE_PREFIX" "noble")
        ≡ ok (priv, addr)
    pub key_works : KeyWorks lib (key_of priv) node.account_prefix addr
    pub network : cfg.network ≡ "cosmos:" ++ node.chain_id
    pub named : node.chain_id ≢ ""
    pub timeout : (cfg.max_timeout_seconds ≡ 0) ⊎ (35 ≤ cfg.max_timeout_seconds)
    pub ready :
        IsReady lib N v node page_requirements
          (build_authorization page_requirements addr (nonce_of env random) false now)
          now
          s
    pub signed :
        pay lib (key_of priv) page_requirements addr (nonce_of env random) false now ≡ ok payload
    pub accepts :
        node.broadcast_authz_send
          (auth (settle_request payload page_requirements)).from
          (auth (settle_request payload page_requirements)).to
          (auth (settle_request payload page_requirements)).denom
          (auth (settle_request payload page_requirements)).amount
        ≡ (tx_hash, none)

  -- Also, the parts are connected, and their decoders read back what was encoded.
  pub record IsWorking (priv : Bytes) (addr tx_hash : String) (payload : PaymentPayload)
      : Type 1 where
    pub prepared : IsPrepared priv addr tx_hash payload
    pub connected :
        IsConnected
          (https 1)
          (premium (clock 1))
          cfg
          new_writer
          (paid_request payload)
          lib
          N
          K
          decode
          v
          s
    pub reads_requirements :
        decode_header client.unmarshal_requirements (requirements_header page_requirements)
        ≡ ok page_requirements
    pub reads_payload : decode_payload (https 1) (payment_header payload) ≡ ok payload

  -- The header with the payment does not change what is asked for.
  same_requirements :
      (payload : PaymentPayload)
      → build_requirements (with_defaults cfg) (paid_request payload) ≡ page_requirements
  unfolding build_requirements get_header
  same_requirements payload = refl

  carried_header :
      (payload : PaymentPayload)
      → get_header "PAYMENT-SIGNATURE" (paid_request payload).header ≡ payment_header payload
  unfolding get_header
  carried_header payload = refl

  -- Let the demo client reach the demo server and the middleware the facilitator, whose store
  -- keeps the contract and whose decoders read back what was encoded; let the client's key work,
  -- the facilitator be ready for the payment, and its chain accept the transfer. Then the client
  -- prints the page, and the settlement of its payment makes exactly that transfer.
  pub exchange_completes :
      (priv : Bytes) (addr tx_hash : String) (payload : PaymentPayload)
      → IsWorking priv addr tx_hash payload
      → (client_main lib keys key_of client env random now
          ≡ ok (with_line_break (print (premium_json (clock 1)))))
        × (sent_of (settle lib N v (settle_request payload page_requirements) s)
            ≡ some
                (broadcast_for (auth (settle_request payload page_requirements)) (tx_hash, none)))
  exchange_completes priv addr tx_hash payload h =
      let p = h.prepared in
      let verified =
        client_payment_verifies lib N (key_of priv) node cfg (page_request host []) v addr
          (nonce_of env random) now s payload p.network p.named p.timeout p.key_works p.ready
          p.signed in
      let (answers, sent) =
        settle_completes lib N K v (settle_request payload page_requirements) s node addr tx_hash
          p.ready.serves verified p.accepts in
      let servable : IsServable https other cfg clock host lib keys key_of client env random now =
        record {
          priv = priv;
          addr = addr;
          payload = payload;
          response =
              success tx_hash payload.network
                (auth (settle_request payload page_requirements)).from;
          reached = p.reached;
          given = p.given;
          derived = p.derived;
          read = h.reads_requirements;
          signed = rw p.prompt p.signed;
          decoded = h.reads_payload;
          answered =
              call_settle_completes lib N K (https 1) (premium (clock 1)) cfg new_writer
                (paid_request payload) decode v s h.connected payload _
                (rw (carried_header payload) h.reads_payload)
                (rw (same_requirements payload) answers);
          settled = refl;
        } in
      (
        client_main_completes https other cfg clock host lib keys key_of client env random now
            servable,
        sent,
      )
