-- ===== src/Tools/Fixture.antt =====
-- tools/fixture/main.go: the command that writes a signed payment with its requirements. The flags,
-- the random bytes, the clock and the file system are parameters; the log is not modelled.
pub mod Laws
pub mod Posted
use cosmos_pay.Prelude.{
  ℕ, String, Bool, ◌==◌, Option, none, some, List, [], ◌∷◌, ◌++◌, if◌then◌else◌,
}
use cosmos_pay.Prelude.Words.{add64, sub64}
use cosmos_pay.Errors.{Error, plain, Result, ok, err, ◌>>=◌, ◌>>◌, reject_if, map_error, fatal}
use cosmos_pay.Types.{PaymentRequirements, Authorization, PaymentPayload}
use cosmos_pay.Types.Codes.{scheme_id}
use cosmos_pay.Types.Tags.{payload_json, requirements_json}
use cosmos_pay.Encoding.Json.{Json, obj, members}
use cosmos_pay.Encoding.Json.Indent.{marshal_indent}
use cosmos_pay.Encoding.Base64
use cosmos_pay.Adr036.{SignLib, Bytes, adr036_preimage}
use cosmos_pay.Noble.Config.{Env, env_or, KeyLib}
use cosmos_pay.Client.{PrivKey, fresh_nonce}
use cosmos_pay.Tools.Keys.{derive_key}

-- the flags; `validity_seconds` is an `int64`, as its bit pattern
pub record Flags : Type 0 where
  pub payer_mnemonic : String
  pub recipient : String
  pub facilitator : String
  pub amount : String
  pub asset : String
  pub network : String
  pub chain_id : String
  pub prefix : String
  pub resource : String
  pub validity_seconds : ℕ
  pub max_timeout_seconds : ℕ
  pub output : String

-- the flags when none is given
unfoldable pub default_flags : Env → Flags
unfolding env_or
default_flags env = record {
  payer_mnemonic = env "X402_PAYER_MNEMONIC";
  recipient = env "X402_PAY_TO";
  facilitator = env "X402_FACILITATOR_GRANTEE";
  amount = env_or env "X402_AMOUNT" "10000";
  asset = env_or env "X402_ASSET" "uusdc";
  network = env_or env "X402_NETWORK" "cosmos:grand-1";
  chain_id = env_or env "X402_NOBLE_CHAIN_ID" "grand-1";
  prefix = env_or env "X402_NOBLE_PREFIX" "noble";
  resource = "https://suverse-pay.example/v1/smoke";
  validity_seconds = 50;
  max_timeout_seconds = 60;
  output = "-";
}

abbrev pub fixture_authorization : Flags → String → String → ℕ → Authorization
fixture_authorization flags payer nonce now = record {
  from = payer;
  to = flags.recipient;
  denom = flags.asset;
  amount = flags.amount;
  nonce = nonce;
  valid_after = sub64 now 5;
  valid_before = add64 now flags.validity_seconds;
  resource = flags.resource;
  chain_id = flags.chain_id;
}

abbrev pub fixture_payload : Flags → String → Authorization → Bytes × Bytes → PaymentPayload
fixture_payload flags payer a signed = record {
  x402_version = 2;
  scheme = scheme_id;
  network = flags.network;
  payload = record {
    from = payer;
    public_key = Base64.encode signed.1;
    signature = Base64.encode signed.0;
    authorization = a;
  };
}

abbrev pub fixture_requirements : Flags → PaymentRequirements
fixture_requirements flags = record {
  scheme = scheme_id;
  network = flags.network;
  max_amount_required = flags.amount;
  asset = flags.asset;
  pay_to = flags.recipient;
  resource = flags.resource;
  description = "";
  mime_type = "";
  max_timeout_seconds = flags.max_timeout_seconds;
  output_schema = [];
  extra = record {
    facilitator = flags.facilitator;
    chain_id = flags.chain_id;
    decimals = 0;
    symbol = "";
  };
}

-- main, up to the value that is marshalled; an error is the text of log.Fatal. `key_of` is the
-- private key at its bytes.
unfoldable pub fixture_main :
    SignLib
    → KeyLib
    → (Bytes → PrivKey)
    → Flags
    → Bytes
    → ℕ
    → Result (PaymentPayload × PaymentRequirements)
fixture_main lib keys key_of flags random now = do
  reject_if (flags.payer_mnemonic == "")
      (plain "--payer-mnemonic (or X402_PAYER_MNEMONIC) is required")
  reject_if (flags.recipient == "") (plain "--recipient (or X402_PAY_TO) is required")
  reject_if (flags.facilitator == "")
      (plain "--facilitator (or X402_FACILITATOR_GRANTEE) is required")
  (priv, payer) ←
      map_error (fatal "derive payer key") (derive_key keys flags.payer_mnemonic flags.prefix)
  let a = fixture_authorization flags payer (fresh_nonce random) now
  preimage ← map_error (fatal "preimage") (adr036_preimage lib a)
  signature ← map_error (fatal "sign") ((key_of priv).sign preimage)
  ok (
    fixture_payload flags payer a (signature, (key_of priv).pub_key_bytes),
    fixture_requirements flags,
  )

-- the value that is written
abbrev pub fixture_json : PaymentPayload × PaymentRequirements → Json
fixture_json (payload, requirements) = obj (
    members (
      ("paymentPayload", payload_json payload)
      ∷ ("paymentRequirements", requirements_json requirements)
      ∷ []))

-- what is written, with the line break that ends it
abbrev pub fixture_text : PaymentPayload × PaymentRequirements → Bytes
fixture_text written = marshal_indent (fixture_json written) ++ 10 ∷ []

-- The text on the standard output, or in a file at a path.
pub data Output : Type 0 where
  on_output : Bytes → Output
  in_file : String → Bytes → Output

abbrev write_text : String → String
write_text path = Prim.Native.String.◌++◌ "write " path

-- the last part of main; `write_file` gives the error of os.WriteFile, if any
unfoldable pub write_fixture :
    (String → Bytes → Option Error) → Flags → PaymentPayload × PaymentRequirements → Result Output
write_fixture write_file flags written =
    let text = fixture_text written in
    if flags.output == "-" then ok (on_output text) else elim (write_file flags.output text) [
      | none ↦ ok (in_file flags.output text)
      | some e ↦ err (fatal (write_text flags.output) e)
    ]
