-- ===== src/Noble/Connect/Laws.antt =====
-- The connections and the prefixes that NewNobleClient of facilitator/chain_noble.go leaves.
use Prim.Native.String.{◌++◌}
use cosmos_pay.Prelude.{
  ℕ, String, ◌≡◌, ◌==◌, true, Bool, Option, none, some, ◌∷◌, if◌then◌else◌, arith,
}
use cosmos_pay.Errors.{Error, Result, ok, err}
use cosmos_pay.Noble.Config.{Env, KeyLib, env_or, NobleClient, new_noble_client}
use cosmos_pay.Noble.Connect.{
  Process, DialLib, Codec, client, failed, set_bech32_prefixes, dial_grpc, close_conn, make_codec,
  tls, insecure, start_noble_client,
}

abbrev result_of : Option Error → Result (Unit {0})
result_of none = ok tt
result_of (some e) = err e

-- The answers of the two dials, without what they do to the process.
abbrev pub grpc_answer : DialLib → String → Bool → Result (Unit {0})
grpc_answer lib endpoint use_tls =
    result_of (lib.new_grpc_client endpoint (if use_tls then tls else insecure))

abbrev pub rpc_answer : DialLib → String → Result (Unit {0})
rpc_answer lib endpoint = result_of (lib.new_rpc_client endpoint "/websocket")

module _ (keys : KeyLib) (lib : DialLib) (env : Env) (p : Process) where
  -- a variable of the environment that has a default
  abbrev variable : String → String → String
  variable k default = if env k == "" then default else env k

  -- The client has the values of the environment, or their defaults; its key and address are
  -- derived from the mnemonic; and both endpoints could be dialed.
  pub record IsConfigured (c : NobleClient) : Type 0 where
    pub chain_id : c.chain_id ≡ variable "X402_NOBLE_CHAIN_ID" "grand-1"
    pub prefix : c.prefix ≡ variable "X402_NOBLE_PREFIX" "noble"
    pub denom : c.denom ≡ variable "X402_NOBLE_DENOM" "uusdc"
    pub valid : keys.is_mnemonic_valid (env "X402_FACILITATOR_MNEMONIC") ≡ true
    pub key :
        keys.derive_private_key_for_path
          (keys.compute_masters_from_seed (keys.new_seed (env "X402_FACILITATOR_MNEMONIC") "")).0
          (keys.compute_masters_from_seed (keys.new_seed (env "X402_FACILITATOR_MNEMONIC") "")).1
          "m/44'/118'/0'/0/0"
        ≡ ok c.signer
    pub address :
        keys.convert_and_encode c.prefix (keys.address (keys.pub_key c.signer)) ≡ ok c.address
    pub grpc_dialed :
        lib.new_grpc_client
          (variable "X402_NOBLE_GRPC" "noble-testnet-grpc.polkachu.com:21590")
          (if env "X402_NOBLE_GRPC_TLS" == "true" then tls else insecure)
        ≡ none
    pub rpc_dialed :
        lib.new_rpc_client
          (variable "X402_NOBLE_RPC" "https://noble-testnet-rpc.polkachu.com")
          "/websocket"
        ≡ none

  started_client-IsConfigured :
      (c : NobleClient) (conn : ℕ) (cdc : Codec) (q : Process)
      → start_noble_client keys lib env p ≡ (client c conn cdc, q)
      → IsConfigured c
  unfolding start_noble_client env_or dial_grpc close_conn make_codec
  started_client-IsConfigured c conn cdc q h = record {
    chain_id = ground (arith, h);
    prefix = ground (arith, h);
    denom = ground (arith, h);
    valid = ground (arith, h);
    key = ground (arith, h);
    address = ground (arith, h);
    grpc_dialed = ground (arith, h);
    rpc_dialed = ground (arith, h);
  }

  -- If NewNobleClient returns a client, then both endpoints could be dialed; the client has
  -- the chain id, the prefix and the denom of the environment or their defaults, and the key
  -- and the address of the mnemonic; one connection was opened, which Close of the client
  -- takes away again; and the process and the codec hold the bech32 prefixes of the client's
  -- prefix.
  pub started_client :
      (c : NobleClient) (conn : ℕ) (cdc : Codec) (q : Process)
      → start_noble_client keys lib env p ≡ (client c conn cdc, q)
      → IsConfigured c
        × (q.connections ≡ conn ∷ p.connections)
        × ((close_conn lib conn q).1.connections ≡ p.connections)
        × (q.prefixes ≡ record {
          account = c.prefix;
          account_pub = c.prefix ++ "pub";
          validator = c.prefix ++ "valoper";
          validator_pub = c.prefix ++ "valoperpub";
          consensus = c.prefix ++ "valcons";
          consensus_pub = c.prefix ++ "valconspub";
        })
        × (cdc.account_prefix ≡ c.prefix)
        × (cdc.validator_prefix ≡ c.prefix ++ "valoper")
  unfolding start_noble_client new_noble_client close_conn set_bech32_prefixes dial_grpc make_codec
  started_client c conn cdc q h = (
    started_client-IsConfigured c conn cdc q h,
    ground (arith, h),
    ground (arith, h),
    ground (arith, h),
    ground (arith, h),
    ground (arith, h),
  )

  -- If NewNobleClient returns an error, then every connection that it opened is closed
  -- again, and the error is the one that the model without connections gives.
  pub failed_start :
      (e : Error) (q : Process)
      → start_noble_client keys lib env p ≡ (failed e, q)
      → (q.connections ≡ p.connections)
        × (new_noble_client keys (grpc_answer lib) (rpc_answer lib) env ≡ err e)
  unfolding start_noble_client new_noble_client close_conn set_bech32_prefixes dial_grpc make_codec
  failed_start e q h = (ground (arith, h), ground (arith, h))
