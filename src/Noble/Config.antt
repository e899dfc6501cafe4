-- ===== src/Noble/Config.antt =====
-- NewNobleClient, deriveCosmosKey and envOr of facilitator/chain_noble.go: the values that they give.
-- What NewNobleClient does to the process is in Noble/Connect.
use Prim.Native.String.{◌++◌}
use cosmos_pay.Prelude.{String, Bool, not, ◌==◌, if◌then◌else◌}
use cosmos_pay.Errors.{plain, Result, ok, ◌>>=◌, ◌>>◌, reject_if, map_error, in_step}
use cosmos_pay.Adr036.{Bytes}

-- The environment gives the empty text for a variable that is not set.
abbrev pub Env : Type 0
Env = String → String

unfoldable pub env_or : Env → String → String → String
env_or env k default = if not (env k == "") then env k else default

-- go-bip39, the SDK's hd package, its secp256k1 keys, and bech32
pub record KeyLib : Type 0 where
  pub is_mnemonic_valid : String → Bool
  pub new_seed : String → String → Bytes
  pub compute_masters_from_seed : Bytes → Bytes × Bytes
  pub derive_private_key_for_path : Bytes → Bytes → String → Result Bytes
  pub pub_key : Bytes → Bytes
  pub address : Bytes → Bytes
  pub convert_and_encode : String → Bytes → Result String

abbrev pub hd_path : String
hd_path = "m/44'/118'/0'/0/0"

-- the private key and its address
unfoldable pub derive_cosmos_key : KeyLib → String → String → Result (Bytes × String)
derive_cosmos_key lib mnemonic prefix = do
  reject_if (not (lib.is_mnemonic_valid mnemonic)) (plain "invalid mnemonic")
  let seed = lib.new_seed mnemonic ""
  let masters = lib.compute_masters_from_seed seed
  key ← map_error (in_step "derive") (lib.derive_private_key_for_path masters.0 masters.1 hd_path)
  addr ←
      map_error (in_step "bech32 encode")
        (lib.convert_and_encode prefix (lib.address (lib.pub_key key)))
  ok (key, addr)

-- nobleConfig; the gas price is the constant 0.1
pub record NobleConfig : Type 0 where
  pub grpc_endpoint : String
  pub grpc_use_tls : Bool
  pub rpc_endpoint : String
  pub chain_id : String
  pub prefix : String
  pub denom : String
  pub mnemonic : String

unfoldable pub config_from : Env → NobleConfig
unfolding env_or
config_from env = record {
  grpc_endpoint = env_or env "X402_NOBLE_GRPC" "noble-testnet-grpc.polkachu.com:21590";
  grpc_use_tls = env "X402_NOBLE_GRPC_TLS" == "true";
  rpc_endpoint = env_or env "X402_NOBLE_RPC" "https://noble-testnet-rpc.polkachu.com";
  chain_id = env_or env "X402_NOBLE_CHAIN_ID" "grand-1";
  prefix = env_or env "X402_NOBLE_PREFIX" "noble";
  denom = env_or env "X402_NOBLE_DENOM" "uusdc";
  mnemonic = env "X402_FACILITATOR_MNEMONIC";
}

-- the fields of the client that hold data
pub record NobleClient : Type 0 where
  pub chain_id : String
  pub prefix : String
  pub denom : String
  pub signer : Bytes
  pub address : String

-- NewNobleClient; the two dials are parameters
unfoldable pub new_noble_client :
    KeyLib
    → (String → Bool → Result (Unit {0}))
    → (String → Result (Unit {0}))
    → Env
    → Result NobleClient
unfolding config_from derive_cosmos_key
new_noble_client lib dial_grpc dial_rpc env = do
  let cfg = config_from env
  reject_if (cfg.mnemonic == "") (plain "X402_FACILITATOR_MNEMONIC is required")
  (priv, addr) ←
      map_error (in_step "derive facilitator key") (derive_cosmos_key lib cfg.mnemonic cfg.prefix)
  map_error (in_step ("dial grpc " ++ cfg.grpc_endpoint))
      (dial_grpc cfg.grpc_endpoint cfg.grpc_use_tls)
  map_error (in_step ("dial rpc " ++ cfg.rpc_endpoint)) (dial_rpc cfg.rpc_endpoint)
  ok (record {
    chain_id = cfg.chain_id;
    prefix = cfg.prefix;
    denom = cfg.denom;
    signer = priv;
    address = addr;
  })
