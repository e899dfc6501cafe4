-- ===== src/Adr036.antt =====
-- facilitator/adr036.go: the bytes that a payer signs, and the check of a signature.
-- `SignLib` stands for the libraries that the file calls: the SDK's `SortJSON`, the SHA-256 of the
-- standard library, the SDK's secp256k1 keys and bech32.

pub mod Laws
pub mod Sorting
pub mod Binding
use Prim.Native.String.{◌++◌}
use cosmos_pay.Prelude.{ℕ, String, Bool, not, ◌==◌, List, [], ◌∷◌, map, length, eqb}
use cosmos_pay.Prelude.Text.{ascii_text}
use cosmos_pay.Errors.{
  Error, plain, wrapped, error_text, Result, ok, err, ◌>>=◌, ◌>>◌, reject_if, map_error,
}
use cosmos_pay.Types.{Authorization}
use cosmos_pay.Types.Tags.{authorization_json}
use cosmos_pay.Encoding.Base64
use cosmos_pay.Encoding.Json.{Json, str, arr, obj, items, members, print, decimal}

abbrev pub Bytes : Type 0
Bytes = List ℕ

pub record SignLib : Type 0 where
  -- sdk.SortJSON
  pub sort_json : Bytes → Result Bytes
  -- sha256.Sum256
  pub sha256 : Bytes → Bytes
  -- secp256k1.PubKeySize
  pub pub_key_size : ℕ
  -- (*secp256k1.PubKey).VerifySignature at a key, a message and a signature
  pub verify_signature : Bytes → Bytes → Bytes → Bool
  -- (*secp256k1.PubKey).Address
  pub address : Bytes → Bytes
  -- bech32.ConvertAndEncode
  pub convert_and_encode : String → Bytes → Result String

pub record SignMsgValue : Type 0 where
  pub data_b64 : String
  pub signer : String

pub record SignMsg : Type 0 where
  pub type_url : String
  pub value : SignMsgValue

-- `Amount` holds no element in any document of the program
pub record Fee : Type 0 where
  pub amount : List Json
  pub gas : String

pub record SignDoc : Type 0 where
  pub account_number : String
  pub chain_id : String
  pub fee : Fee
  pub memo : String
  pub msgs : List SignMsg
  pub sequence : String

abbrev sign_msg_json : SignMsg → Json
sign_msg_json m = obj (
    members (
      ("type", str m.type_url)
      ∷ (
        "value",
        obj (members (("data", str m.value.data_b64) ∷ ("signer", str m.value.signer) ∷ [])),
      )
      ∷ []))

abbrev pub sign_doc_json : SignDoc → Json
sign_doc_json d = obj (
    members (
      ("account_number", str d.account_number)
      ∷ ("chain_id", str d.chain_id)
      ∷ ("fee", obj (members (("amount", arr (items d.fee.amount)) ∷ ("gas", str d.fee.gas) ∷ [])))
      ∷ ("memo", str d.memo)
      ∷ ("msgs", arr (items (map sign_msg_json d.msgs)))
      ∷ ("sequence", str d.sequence)
      ∷ []))

-- json.Marshal, which does not fail on these types
abbrev pub marshal : Json → Result Bytes
marshal j = ok (print j)

-- fmt's %d
abbrev pub show : ℕ → String
show n = ascii_text (decimal n)

module _ (lib : SignLib) where
  unfoldable pub canonical_authorization_json : Authorization → Result Bytes
  canonical_authorization_json a = do
    bz ←
        map_error (λ e. wrapped ("marshal authorization: " ++ error_text e) e)
          (marshal (authorization_json a))
    map_error (λ e. wrapped ("sort authorization json: " ++ error_text e) e) (lib.sort_json bz)

  -- the document that is signed, around the encoded authorization
  abbrev pub sign_doc : Authorization → String → SignDoc
  sign_doc a b64data = record {
    account_number = "0";
    chain_id = "";
    fee = record { amount = []; gas = "0" };
    memo = "";
    msgs =
        record {
          type_url = "sign/MsgSignData";
          value = record { data_b64 = b64data; signer = a.from };
        }
        ∷ [];
    sequence = "0";
  }

  -- adr036Preimage, and its exported name ADR036Preimage
  unfoldable pub adr036_preimage : Authorization → Result Bytes
  unfolding canonical_authorization_json
  adr036_preimage a = do
    inner_json ← canonical_authorization_json a
    let b64data = Base64.encode inner_json
    bz ← marshal (sign_doc_json (sign_doc a b64data))
    lib.sort_json bz

  unfoldable pub adr036_sign_bytes : Authorization → Result Bytes
  unfolding adr036_preimage
  adr036_sign_bytes a = do preimage ← adr036_preimage a; ok (lib.sha256 preimage)

  unfoldable pub verify_adr036 : String → String → Authorization → String → Result String
  verify_adr036 pub_key_b64 signature_b64 a account_prefix = do
    pub_key_bz ←
        map_error (λ e. wrapped ("decode pubkey: " ++ error_text e) e) (Base64.decode pub_key_b64)
    reject_if (not (eqb (length pub_key_bz) lib.pub_key_size)) (
        plain
          ("pubkey length: got " ++ show (length pub_key_bz) ++ ", want " ++ show lib.pub_key_size))
    sig ←
        map_error (λ e. wrapped ("decode signature: " ++ error_text e) e)
          (Base64.decode signature_b64)
    reject_if (not (eqb (length sig) 64))
        (plain ("signature length: got " ++ show (length sig) ++ ", want 64"))
    preimage ← adr036_preimage a
    reject_if (not (lib.verify_signature pub_key_bz preimage sig))
        (plain "signature verification failed")
    addr ←
        map_error (λ e. wrapped ("bech32 encode: " ++ error_text e) e)
          (lib.convert_and_encode account_prefix (lib.address pub_key_bz))
    reject_if (not (addr == a.from))
        (plain ("pubkey/from mismatch: signed by " ++ addr ++ ", claims " ++ a.from))
    ok addr
