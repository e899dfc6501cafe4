-- ===== src/Examples/Page.antt =====
-- The demo client's two requests to the demo server, with a facilitator that settles every payment.
use cosmos_pay.Prelude.{ℕ, ◌+◌, ◌≡◌, refl, []}
use cosmos_pay.Clock.{Time, unix_time}
use cosmos_pay.Errors.{ok}
use cosmos_pay.Adr036.{Bytes}
use cosmos_pay.Http.{Request, ResponseWriter, new_writer}
use cosmos_pay.Middleware.{Config, HttpLib, build_requirements, with_defaults}
use cosmos_pay.Noble.Config.{env_or}
use cosmos_pay.Client.{PrivKey}
use cosmos_pay.Client.Run.{ClientLib}
use cosmos_pay.DemoServer.{must_env, demo_config, demo_mux}
use cosmos_pay.DemoServer.Laws.{page_request, sent_response}
use cosmos_pay.Examples.Signer.{toy_key}
use cosmos_pay.Examples.Tools.{toy_env}

abbrev pub key_of : Bytes → PrivKey
key_of b = toy_key

abbrev pub page_config : Config
page_config = record {
  pay_to = "noble1shop";
  asset = "uusdc";
  amount = "10000";
  network = "cosmos:grand-1";
  facilitator_url = "http://localhost:8402";
  facilitator_addr = "noble1fac";
  max_timeout_seconds = 60;
  description = "One call to the premium endpoint";
  mime_type = "application/json";
  decimals = 6;
  symbol = "USDC";
}

pub config_run : demo_config toy_env ≡ ok (":8080", page_config)
unfolding demo_config must_env env_or
config_run = refl

abbrev pub not_found : ResponseWriter → Request → ResponseWriter
not_found w r = w

abbrev pub ticks : ℕ → Time
ticks n = unix_time (1716700000 + n)

-- a client whose requests reach the server, and that reads the requirements that the server sent
abbrev pub reaching : (ℕ → HttpLib) → ClientLib
reaching https = record {
  unmarshal_requirements =
      λ b. ok (build_requirements (with_defaults page_config) (page_request "localhost:8080" []));
  get = λ n url header. ok (
      sent_response
        (demo_mux (https n) not_found page_config (ticks n) new_writer
          (page_request "localhost:8080" header)).writer);
  body_text = λ b. "";
}
