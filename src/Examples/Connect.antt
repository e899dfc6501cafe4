-- ===== src/Examples/Connect.antt =====
-- A Noble client that is started, and one whose second dial fails.
use Prim.Native.String.{◌++◌}
use cosmos_pay.Prelude.{◌≡◌, refl, Option, none, some, [], ◌∷◌}
use cosmos_pay.Errors.{Error, plain, err, in_step}
use cosmos_pay.Noble.Config.{NobleClient, env_or, new_noble_client}
use cosmos_pay.Noble.Connect.{
  Process, DialLib, Codec, client, failed, std_interfaces, crypto_interfaces, auth_interfaces,
  bank_interfaces, authz_interfaces, set_bech32_prefixes, close_conn, start_noble_client,
}
use cosmos_pay.Noble.Connect.Laws.{
  grpc_answer, rpc_answer, IsConfigured, started_client, failed_start,
}
use cosmos_pay.Examples.Tools.{toy_keys, toy_env}

abbrev dials : Option Error → DialLib
dials rpc_error = record {
  new_grpc_client = λ endpoint credentials. none;
  new_rpc_client = λ endpoint path. rpc_error;
  close = λ conn. none;
  new_interface_registry = λ account validator. none;
}

-- a process with one other connection
abbrev before : Process
before = record {
  prefixes = record {
    account = "cosmos";
    account_pub = "cosmospub";
    validator = "cosmosvaloper";
    validator_pub = "cosmosvaloperpub";
    consensus = "cosmosvalcons";
    consensus_pub = "cosmosvalconspub";
  };
  opened = 1;
  connections = 0 ∷ [];
}

abbrev noble : NobleClient
noble = record {
  chain_id = "grand-1";
  prefix = "noble";
  denom = "uusdc";
  signer = 1 ∷ [];
  address = "noble1payer";
}

abbrev codec : Codec
codec = record {
  account_prefix = "noble";
  validator_prefix = "noblevaloper";
  registered =
      std_interfaces ∷ crypto_interfaces ∷ auth_interfaces ∷ bank_interfaces ∷ authz_interfaces
      ∷ [];
}

abbrev after : Process
after = record (set_bech32_prefixes "noble" before) { opened = 2; connections = 1 ∷ 0 ∷ [] }

start_run : start_noble_client toy_keys (dials none) toy_env before ≡ (client noble 1 codec, after)
unfolding start_noble_client env_or set_bech32_prefixes
start_run = refl

started_client_example :
    IsConfigured toy_keys (dials none) toy_env before noble
    × (after.connections ≡ 1 ∷ before.connections)
    × ((close_conn (dials none) 1 after).1.connections ≡ before.connections)
    × (after.prefixes ≡ record {
      account = "noble";
      account_pub = "noblepub";
      validator = "noblevaloper";
      validator_pub = "noblevaloperpub";
      consensus = "noblevalcons";
      consensus_pub = "noblevalconspub";
    })
    × (codec.account_prefix ≡ noble.prefix)
    × (codec.validator_prefix ≡ noble.prefix ++ "valoper")
started_client_example =
    started_client toy_keys (dials none) toy_env before noble 1 codec after start_run

abbrev refused : Error
refused = plain "connection refused"

abbrev reported : Error
reported = in_step "dial rpc https://noble-testnet-rpc.polkachu.com" refused

abbrev closed : Process
closed = record (set_bech32_prefixes "noble" before) { opened = 2; connections = 0 ∷ [] }

failed_run :
    start_noble_client toy_keys (dials (some refused)) toy_env before ≡ (failed reported, closed)
unfolding start_noble_client env_or set_bech32_prefixes
failed_run = refl

failed_start_example :
    (closed.connections ≡ before.connections)
    × (new_noble_client toy_keys
          (grpc_answer (dials (some refused)))
          (rpc_answer (dials (some refused)))
          toy_env
        ≡ err reported)
failed_start_example =
    failed_start toy_keys (dials (some refused)) toy_env before reported closed failed_run
