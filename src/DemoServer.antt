-- ===== src/DemoServer.antt =====
-- examples/server/main.go: a server with one page behind the middleware. The environment is read
-- into the middleware's configuration; an error is the text of log.Fatalf. Listening and the log
-- are not modelled. The clock shows a time after 1970.
pub mod Laws
pub mod Complete
use Prim.Native.String.{◌++◌}
use cosmos_pay.Prelude.{ℕ, String, false, ◌==◌, none, [], ◌∷◌, if◌then◌else◌}
use cosmos_pay.Clock.{Time, unix}
use cosmos_pay.Errors.{plain, Result, ok, err, ◌>>=◌}
use cosmos_pay.Encoding.Json.{Json, str, num, obj, members, print}
use cosmos_pay.Http.{Request, ResponseWriter, with_header, write_status, status_ok}
use cosmos_pay.Middleware.{Config, HttpLib, Exchange, paid}
use cosmos_pay.Noble.Config.{Env, env_or}
use cosmos_pay.Server.{with_line_break, write_body}

-- mustEnv
unfoldable pub must_env : Env → String → Result String
must_env env k =
    if env k == "" then err (plain ("required env var " ++ k ++ " is not set")) else ok (env k)

-- the address to listen on, and the configuration
unfoldable pub demo_config : Env → Result (String × Config)
unfolding must_env env_or
demo_config env = do
  let addr = env_or env "X402_SERVER_ADDR" ":8080"
  pay_to ← must_env env "X402_PAY_TO"
  let facilitator_url = env_or env "X402_FACILITATOR_URL" "http://localhost:8402"
  facilitator_addr ← must_env env "X402_FACILITATOR_GRANTEE"
  let cfg : Config = record {
    pay_to = pay_to;
    asset = env_or env "X402_ASSET" "uusdc";
    amount = env_or env "X402_AMOUNT" "10000";
    network = env_or env "X402_NETWORK" "cosmos:grand-1";
    facilitator_url = facilitator_url;
    facilitator_addr = facilitator_addr;
    max_timeout_seconds = 60;
    description = "One call to the premium endpoint";
    mime_type = "application/json";
    decimals = 6;
    symbol = "USDC";
  }
  ok (addr, cfg)

abbrev pub premium_json : Time → Json
premium_json now =
    obj (members (("data", str "the secret of life is 42") ∷ ("timestamp", num (unix now)) ∷ []))

-- the page, at the time of the call
unfoldable pub premium : Time → ResponseWriter → Request → ResponseWriter
premium now w r =
    write_body (with_line_break (print (premium_json now)))
      (with_header "Content-Type" "application/json" w)

-- The server's mux. `other` answers the paths that no pattern matches; the pages but the first are
-- not behind the middleware.
unfoldable pub demo_mux :
    HttpLib
    → (ResponseWriter → Request → ResponseWriter)
    → Config
    → Time
    → ResponseWriter
    → Request
    → Exchange
unfolding premium
demo_mux lib other cfg now w r =
    if r.path == "/premium"
    then paid lib (premium now) cfg w r
    else if r.path == "/healthz"
    then record { writer = write_status status_ok w; served = false }
    else record { writer = other w r; served = false }
