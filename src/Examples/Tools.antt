-- ===== src/Examples/Tools.antt =====
-- The theorems on the commands, at one key and one payment.
use cosmos_pay.Prelude.{
  ℕ, ◌≡◌, ◌≢◌, refl, true, false, ◌==◌, ◌||◌, if◌then◌else◌, some, none, [], ◌∷◌,
}
use cosmos_pay.Clock.{unix_time}
use cosmos_pay.Errors.{Result, ok}
use cosmos_pay.Types.{Authorization, PaymentPayload, PaymentRequirements}
use cosmos_pay.Adr036.{Bytes}
use cosmos_pay.Client.{PrivKey, fresh_nonce}
use cosmos_pay.Noble.Config.{Env, env_or, KeyLib}
use cosmos_pay.Noble.Wait.Laws.{IsIncluded}
use cosmos_pay.Noble.Tx.{Tx, BroadcastResult}
use cosmos_pay.Noble.Wait.{wait_from, wait_for_tx}
use cosmos_pay.Tools.Keys.{MnemonicLib, derive_key, new_account}
use cosmos_pay.Tools.Grant
use cosmos_pay.Tools.Grant.Laws.{IsSignedGrant, grant_main_sound}
use cosmos_pay.Tools.Fixture
use cosmos_pay.Http.{Request}
use cosmos_pay.Prelude.Text.{trim_space}
use cosmos_pay.Examples.Signer.{zeros, toy_key}
use cosmos_pay.Examples.Node.{toy_tx_lib, polls}
use Prim.Native.String.{◌++◌}

abbrev pub toy_keys : KeyLib
toy_keys = record {
  is_mnemonic_valid = λ words. true;
  new_seed = λ words passphrase. [];
  compute_masters_from_seed = λ seed. ([], []);
  derive_private_key_for_path = λ master chain path. ok (1 ∷ []);
  pub_key = λ key. zeros 3;
  address = λ key. key;
  convert_and_encode = λ prefix b. ok (prefix ++ "1payer");
}

-- an environment with a mnemonic, a recipient and a facilitator
abbrev pub toy_env : Env
toy_env k =
    if k == "X402_PAYER_MNEMONIC" || k == "PAYER_MNEMONIC" || k == "X402_FACILITATOR_MNEMONIC"
    then " abandon\n"
    else if k == "X402_PAY_TO"
    then "noble1shop"
    else if k == "X402_FACILITATOR_GRANTEE"
    then "noble1fac"
    else ""

abbrev shop_flags : Fixture.Flags
shop_flags = Fixture.default_flags toy_env

abbrev toy_words : MnemonicLib
toy_words = record { new_entropy = λ bits. ok []; new_mnemonic = λ entropy. ok "abandon" }

account_run : new_account toy_keys toy_words "noble" ≡ ok ("abandon", "noble1payer")
unfolding new_account
account_run = refl

abbrev key_of : Bytes → PrivKey
key_of b = toy_key

abbrev bought : Authorization
bought =
    Fixture.fixture_authorization shop_flags "noble1payer" (fresh_nonce (1 ∷ 2 ∷ [])) 1716700000

abbrev written : PaymentPayload × PaymentRequirements
written = (
  Fixture.fixture_payload shop_flags "noble1payer" bought (zeros 64, zeros 3),
  Fixture.fixture_requirements shop_flags,
)

abbrev fixture_call : Request
fixture_call = record {
  method = "POST";
  tls = false;
  host = "";
  path = "/verify";
  header = [];
  body = Fixture.fixture_text written;
}

write_run :
    Fixture.write_fixture (λ path text. none) shop_flags written
    ≡ ok (Fixture.on_output (Fixture.fixture_text written))
unfolding Fixture.write_fixture Fixture.default_flags
write_run = refl

abbrev toy_grant_lib : Grant.GrantLib
toy_grant_lib = record {
  keys = toy_keys;
  parse_coins = λ text. ok (record { denom = "uusdc"; amount = "1000000" } ∷ []);
  new_coins = toy_tx_lib.new_coins;
  int_coin = toy_tx_lib.int_coin;
  account_bytes = toy_tx_lib.account_bytes;
  new_msg_grant = λ msg. ok msg;
  dial_grpc = λ endpoint tls. ok tt;
  dial_rpc = λ endpoint. ok tt;
  account = λ addr. ok (ok (7, 3));
  set_msgs = toy_tx_lib.set_msgs;
  set_signatures = toy_tx_lib.set_signatures;
  sign_bytes = toy_tx_lib.sign_bytes;
  sign = λ priv m. ok (4 ∷ []);
  encode_tx = toy_tx_lib.encode_tx;
  broadcast_tx_sync = toy_tx_lib.broadcast_tx_sync;
  hex_upper = toy_tx_lib.hex_upper;
  quote = toy_tx_lib.quote;
}

abbrev grant_flags : Grant.Flags
grant_flags = record (Grant.default_flags toy_env (unix_time 1716786400)) { grantee = "noble1fac" }

abbrev confirmed : Bytes → Result (Unit {0})
confirmed hash = ok tt

grant_run : Grant.grant_main toy_grant_lib grant_flags confirmed ≡ ok tt
unfolding Grant.grant_main Grant.run derive_key trim_space Grant.default_flags env_or
grant_run = refl

grant_waits :
    (hash : Bytes)
    → Grant.grant_wait toy_grant_lib grant_flags polls 20 hash ≡ some (confirmed hash)
unfolding wait_for_tx wait_from
grant_waits hash = refl

grant_main_sound_example :
    (grant_flags.mnemonic ≢ "")
    × (grant_flags.grantee ≢ "")
    × (tx : Tx) × (bytes : Bytes) × (res : BroadcastResult) × IsSignedGrant toy_grant_lib
        grant_flags tx
    × (toy_grant_lib.encode_tx tx ≡ ok bytes)
    × (toy_grant_lib.broadcast_tx_sync bytes ≡ ok res)
    × (res.code ≡ 0)
    × (round : ℕ) × IsIncluded (polls.tx round)
grant_main_sound_example =
    grant_main_sound toy_grant_lib grant_flags confirmed (λ hash. polls) (λ hash. 20) grant_waits
      grant_run
