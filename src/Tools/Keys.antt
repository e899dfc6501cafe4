-- ===== src/Tools/Keys.antt =====
-- deriveKey of tools/grant/main.go, tools/fixture/main.go and examples/client/main.go, which are one
-- function, and newAccount of tools/keygen/main.go, whose panics are errors here.
use Prim.Native.String.{◌++◌}
use cosmos_pay.Prelude.{ℕ, String, not, true, ◌≡◌, ◌↔◌, List, [], ◌∷◌, suc, arith}
use cosmos_pay.Prelude.Text.{trim_space}
use cosmos_pay.Errors.{plain, Result, ok, err, ◌>>=◌, ◌>>◌, reject_if, value_or}
use cosmos_pay.Adr036.{Bytes}
use cosmos_pay.Noble.Config.{KeyLib, hd_path, derive_cosmos_key}

unfoldable pub derive_key : KeyLib → String → String → Result (Bytes × String)
derive_key lib mnemonic prefix = do
  let trimmed = trim_space mnemonic
  reject_if (not (lib.is_mnemonic_valid trimmed)) (plain "invalid mnemonic")
  let seed = lib.new_seed trimmed ""
  let masters = lib.compute_masters_from_seed seed
  key ← lib.derive_private_key_for_path masters.0 masters.1 hd_path
  addr ← lib.convert_and_encode prefix (lib.address (lib.pub_key key))
  ok (key, addr)

-- go-bip39: NewEntropy, at a number of bits, and NewMnemonic
pub record MnemonicLib : Type 0 where
  pub new_entropy : ℕ → Result Bytes
  pub new_mnemonic : Bytes → Result String

-- the mnemonic and its address
unfoldable pub new_account : KeyLib → MnemonicLib → String → Result (String × String)
new_account lib words prefix = do
  entropy ← words.new_entropy 256
  mnemonic ← words.new_mnemonic entropy
  let seed = lib.new_seed mnemonic ""
  let masters = lib.compute_masters_from_seed seed
  key ← lib.derive_private_key_for_path masters.0 masters.1 hd_path
  addr ← lib.convert_and_encode prefix (lib.address (lib.pub_key key))
  ok (mnemonic, addr)

-- what main of tools/keygen/main.go prints of an account
abbrev pub account_text : String → String → String → String
account_text label mnemonic addr =
    "=== " ++ label ++ " ===\nmnemonic: " ++ mnemonic ++ "\naddress:  " ++ addr ++ "\n\n"

-- what a label prints in front of what comes after it
abbrev print_account :
    String → Result (String × String) → String × Result (Unit {0}) → String × Result (Unit {0})
print_account label (err e) rest = ("", err e)
print_account label (ok (mnemonic, addr)) (text, end) =
    (account_text label mnemonic addr ++ text, end)

-- the loop of main: what it prints, and whether it panics; `words i` is the source of the i-th
-- account
unfoldable pub print_accounts :
    KeyLib → (ℕ → MnemonicLib) → List String → ℕ → String × Result (Unit {0})
print_accounts lib words [] i = ("", ok tt)
print_accounts lib words (label ∷ labels) i =
    print_account label (new_account lib (words i) "noble")
      (print_accounts lib words labels (suc i))

abbrev pub keygen_main : KeyLib → (ℕ → MnemonicLib) → String × Result (Unit {0})
keygen_main lib words = print_accounts lib words ("FACILITATOR" ∷ "PAYER" ∷ []) 0

-- The commands derive a key and an address from a mnemonic exactly if the facilitator derives them
-- from the mnemonic without the white space around it.
pub derive_key_iff :
    (lib : KeyLib) (mnemonic prefix : String) (found : Bytes × String)
    → (derive_key lib mnemonic prefix ≡ ok found)
      ↔ (derive_cosmos_key lib (trim_space mnemonic) prefix ≡ ok found)
unfolding derive_key derive_cosmos_key
derive_key_iff lib mnemonic prefix found = ground arith

-- If the key generator makes a mnemonic and an address, and the mnemonic is valid, then the
-- facilitator derives a key with the same address from that mnemonic.
pub new_account_derives :
    (lib : KeyLib) (words : MnemonicLib) (prefix mnemonic addr : String)
    → new_account lib words prefix ≡ ok (mnemonic, addr)
    → lib.is_mnemonic_valid mnemonic ≡ true
    → (key : Bytes) × (derive_cosmos_key lib mnemonic prefix ≡ ok (key, addr))
unfolding new_account derive_cosmos_key
new_account_derives lib words prefix mnemonic addr h valid =
    let masters = lib.compute_masters_from_seed (lib.new_seed mnemonic "") in
    (value_or [] (lib.derive_private_key_for_path masters.0 masters.1 hd_path), ground arith)
