-- ===== src/DemoServer/Laws.antt =====
-- examples/server/main.go and examples/client/main.go: the client's two requests to the demo server.
use cosmos_pay.Prelude.{
  if◌then◌else◌, ◌==◌, ℕ, String, ◌≡◌, refl, true, false, Bool-cases, some, inl, inr, [], ◌∷◌,
  arith,
}
use mathlib.Core.Option.{get_or}
use cosmos_pay.Clock.{Time}
use cosmos_pay.Errors.{ok}
use cosmos_pay.Types.{PaymentPayload}
use cosmos_pay.Encoding.Json.{print}
use cosmos_pay.Adr036.{SignLib, Bytes}
use cosmos_pay.Http.{
  Header, get_header, Request, ResponseWriter, new_writer, status_ok, status_payment_required,
}
use cosmos_pay.Middleware.{
  build_requirements, with_defaults, requirements_header, set_response_header, Config, HttpLib,
  Exchange, paid,
}
use cosmos_pay.Middleware.Laws.{served_sound, served_receipt, unserved_payment_required}
use cosmos_pay.Noble.Config.{Env, env_or, KeyLib}
use cosmos_pay.Server.{with_line_break}
use cosmos_pay.Client.{PrivKey, payment_header}
use cosmos_pay.Client.Run.{Response, ClientLib, client_main, server_url}
use cosmos_pay.Client.Run.Laws.{IsRetried, client_main_sound}
use cosmos_pay.DemoServer.{must_env, demo_config, premium_json, premium, demo_mux}

-- a GET of the page
abbrev pub page_request : String → Header → Request
page_request host header = record {
  method = "GET";
  tls = false;
  host = host;
  path = "/premium";
  header = header;
  body = [];
}

-- what net/http sends for a writer: status 200 if the handler set none
abbrev pub sent_response : ResponseWriter → Response
sent_response w = record { status = get_or w.status status_ok; header = w.header; body = w.body }

-- The page asks for the recipient, the price and the coin of the server's environment.
pub demo_config_terms :
    (env : Env) (addr : String) (cfg : Config) (r : Request)
    → demo_config env ≡ ok (addr, cfg)
    → ((build_requirements (with_defaults cfg) r).pay_to ≡ env "X402_PAY_TO")
      × ((build_requirements (with_defaults cfg) r).max_amount_required
          ≡ (if env "X402_AMOUNT" == "" then "10000" else env "X402_AMOUNT"))
      × ((build_requirements (with_defaults cfg) r).asset
          ≡ (if env "X402_ASSET" == "" then "uusdc" else env "X402_ASSET"))
      × (cfg.max_timeout_seconds ≡ 60)
      × (cfg.decimals ≡ 6)
unfolding demo_config must_env build_requirements env_or
demo_config_terms env addr cfg r h =
    (ground arith, ground arith, ground arith, ground arith, ground arith)

module _ (https : ℕ → HttpLib) (other : ResponseWriter → Request → ResponseWriter) (cfg : Config)
    (clock : ℕ → Time) (host : String) (lib : SignLib) (keys : KeyLib) (key_of : Bytes → PrivKey)
    (client : ClientLib) (env : Env) where
  -- the server's work on the n-th request
  abbrev pub page : ℕ → Header → Exchange
  page n header = demo_mux (https n) other cfg (clock n) new_writer (page_request host header)

  -- the client's requests go to the page
  abbrev pub IsReached : Type 0
  IsReached =
      (n : ℕ) (header : Header)
      → client.get n (server_url env) header ≡ ok (sent_response (page n header).writer)

  abbrev pub paying_request : PaymentPayload → Request
  paying_request payload = page_request host (("PAYMENT-SIGNATURE", payment_header payload) ∷ [])

  served_status :
      (e : Exchange) (answered : Response)
      → answered ≡ sent_response e.writer
      → answered.status ≡ status_ok
      → (e.served ≡ false → e.writer.status ≡ some status_payment_required)
      → e.served ≡ true
  served_status e answered same is_ok refused = elim (Bool-cases e.served) [
    | inl yes_served ↦ yes_served
    | inr unserved ↦ absurd (ground (arith, refused unserved))
  ]

  pub page_paid :
      (n : ℕ) (header : Header)
      → page n header ≡ paid (https n) (premium (clock n)) cfg new_writer (page_request host header)
  unfolding demo_mux
  page_paid n header = refl

  premium_body :
      (now : Time) (w : ResponseWriter) (r : Request)
      → (premium now w r).body ≡ with_line_break (print (premium_json now))
  unfolding premium
  premium_body now w r = refl

  -- If the client's requests reach the page, and the client prints a body, then its second request
  -- was served, and the body is the page.
  pub client_main_served :
      (random : Bytes) (now : ℕ) (body : Bytes)
      → IsReached
      → client_main lib keys key_of client env random now ≡ ok body
      → (p : IsRetried lib keys key_of client env random now body) × ((paid
            (https 1)
            (premium (clock 1))
            cfg
            new_writer
            (paying_request p.payload)).served
          ≡ true)
        × (body ≡ with_line_break (print (premium_json (clock 1))))
  client_main_served random now body reached h =
      let p = client_main_sound lib keys key_of client env random now body h in
      let header : Header = ("PAYMENT-SIGNATURE", payment_header p.payload) ∷ [] in
      let r = paying_request p.payload in
      let e = paid (https 1) (premium (clock 1)) cfg new_writer r in
      let answered : p.answered ≡ sent_response e.writer =
        ground (arith, p.second, reached 1 header, page_paid 1 header) in
      let served : e.served ≡ true = served_status e p.answered answered p.success (λ unserved.
        (unserved_payment_required (https 1) (premium (clock 1)) cfg new_writer r refl
          unserved).0) in
      let settled = served_sound (https 1) (premium (clock 1)) cfg new_writer r served in
      let written = (served_receipt (https 1) (premium (clock 1)) cfg new_writer r settled).0 in
      (
        p,
        served,
        ground (
          arith,
          p.printed,
          answered,
          written,
          premium_body (clock 1) (set_response_header new_writer settled.response) r,
        ),
      )

  -- The requirements that the client reads are in the header of the page's refusal.
  pub client_main_asked :
      (random : Bytes) (now : ℕ) (body : Bytes)
      → IsReached
      → (p : IsRetried lib keys key_of client env random now body)
      → get_header "PAYMENT-REQUIRED" p.asked.header
        ≡ requirements_header (build_requirements (with_defaults cfg) (page_request host []))
  unfolding paid get_header
  client_main_asked random now body reached p =
      let refused =
        unserved_payment_required (https 0) (premium (clock 0)) cfg new_writer
          (page_request host []) refl refl in
      ground (arith, p.first, reached 0 [], page_paid 0 [], refused)
