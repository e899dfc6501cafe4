-- ===== src/Noble/Connect.antt =====
-- NewNobleClient, makeCodec, dialGRPC and Close of facilitator/chain_noble.go with what they do to the
-- process: the bech32 prefixes of the SDK, and the connections that are open.
pub mod Laws
use Prim.Native.String.{◌++◌}
use cosmos_pay.Prelude.{
  ℕ, suc, String, Bool, ◌==◌, Option, none, some, List, [], ◌∷◌, eqb, if◌then◌else◌,
}
use cosmos_pay.Errors.{Error, plain, Result, ok, err, in_step}
use cosmos_pay.Noble.Config.{Env, KeyLib, config_from, NobleConfig, NobleClient, derive_cosmos_key}

-- the prefixes that sdk.GetConfig() holds
pub record Bech32Prefixes : Type 0 where
  pub account : String
  pub account_pub : String
  pub validator : String
  pub validator_pub : String
  pub consensus : String
  pub consensus_pub : String

-- The connections are numbered in the order in which they are opened.
pub record Process : Type 0 where
  pub prefixes : Bech32Prefixes
  pub opened : ℕ
  pub connections : List ℕ

pub data Credentials : Type 0 where
  tls insecure : Credentials

-- the modules whose interfaces a registry knows
pub data Interfaces : Type 0 where
  std_interfaces crypto_interfaces auth_interfaces bank_interfaces authz_interfaces : Interfaces

-- a codec over a registry with the prefixes of its address codecs
pub record Codec : Type 0 where
  pub account_prefix : String
  pub validator_prefix : String
  pub registered : List Interfaces

-- What the file calls: grpc.NewClient at an endpoint and credentials, cometrpc.New at an endpoint and
-- a path, (*grpc.ClientConn).Close, and the SDK's NewInterfaceRegistryWithOptions at the prefixes of
-- its two address codecs. Each gives the error that it returns, if any.
pub record DialLib : Type 0 where
  pub new_grpc_client : String → Credentials → Option Error
  pub new_rpc_client : String → String → Option Error
  pub close : ℕ → Option Error
  pub new_interface_registry : String → String → Option Error

unfoldable pub set_bech32_prefixes : String → Process → Process
set_bech32_prefixes prefix p = record p {
  prefixes = record {
    account = prefix;
    account_pub = prefix ++ "pub";
    validator = prefix ++ "valoper";
    validator_pub = prefix ++ "valoperpub";
    consensus = prefix ++ "valcons";
    consensus_pub = prefix ++ "valconspub";
  };
}

-- the connection and the process, or an error
unfoldable pub dial_grpc : DialLib → String → Bool → Process → Result ℕ × Process
dial_grpc lib endpoint use_tls p =
    elim (lib.new_grpc_client endpoint (if use_tls then tls else insecure)) [
      | some e ↦ (err e, p)
      | none ↦
          (ok p.opened, record p { opened = suc p.opened; connections = p.opened ∷ p.connections })
    ]

abbrev remove : ℕ → List ℕ → List ℕ
remove c [] = []
remove c (d ∷ ds) = if eqb c d then ds else d ∷ remove c ds

-- (*grpc.ClientConn).Close: the connection is gone, also where an error is returned.
unfoldable pub close_conn : DialLib → ℕ → Process → Option Error × Process
close_conn lib c p = (lib.close c, record p { connections = remove c p.connections })

-- An error of the registry is a panic.
unfoldable pub make_codec : DialLib → String → Result Codec
make_codec lib prefix = elim (lib.new_interface_registry prefix (prefix ++ "valoper")) [
  | some e ↦ err (in_step "interface registry" e)
  | none ↦ ok (record {
    account_prefix = prefix;
    validator_prefix = prefix ++ "valoper";
    registered =
        std_interfaces ∷ crypto_interfaces ∷ auth_interfaces ∷ bank_interfaces ∷ authz_interfaces
        ∷ [];
  })
]

-- the client with what it holds, an error that is returned, or a panic
pub data Started : Type 0 where
  client : NobleClient → ℕ → Codec → Started
  failed panics : Error → Started

abbrev with_codec : NobleConfig → ℕ → String → Result Codec → List ℕ → Started
with_codec cfg conn addr (err e) priv = panics e
with_codec cfg conn addr (ok cdc) priv =
    client
      (record {
        chain_id = cfg.chain_id;
        prefix = cfg.prefix;
        denom = cfg.denom;
        signer = priv;
        address = addr;
      })
      conn cdc

-- after dialGRPC
abbrev with_conn : DialLib → NobleConfig → List ℕ × String → Result ℕ × Process → Started × Process
with_conn lib cfg (priv, addr) (err e, p) =
    (failed (in_step ("dial grpc " ++ cfg.grpc_endpoint) e), p)
with_conn lib cfg (priv, addr) (ok conn, p) =
    elim (lib.new_rpc_client cfg.rpc_endpoint "/websocket") [
      | some e ↦ (failed (in_step ("dial rpc " ++ cfg.rpc_endpoint) e), (close_conn lib conn p).1)
      | none ↦ (with_codec cfg conn addr (make_codec lib cfg.prefix) priv, p)
    ]

-- after deriveCosmosKey
abbrev with_key : DialLib → NobleConfig → Process → Result (List ℕ × String) → Started × Process
with_key lib cfg p (err e) = (failed (in_step "derive facilitator key" e), p)
with_key lib cfg p (ok key) =
    with_conn lib cfg key (dial_grpc lib cfg.grpc_endpoint cfg.grpc_use_tls p)

-- NewNobleClient
unfoldable pub start_noble_client : KeyLib → DialLib → Env → Process → Started × Process
unfolding dial_grpc close_conn make_codec set_bech32_prefixes config_from derive_cosmos_key
start_noble_client keys lib env p =
    let cfg = config_from env in
    if cfg.mnemonic == ""
    then (failed (plain "X402_FACILITATOR_MNEMONIC is required"), p)
    else with_key lib cfg (set_bech32_prefixes cfg.prefix p)
        (derive_cosmos_key keys cfg.mnemonic cfg.prefix)
