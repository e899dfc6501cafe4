-- ===== src/Examples/Binding.antt =====
-- The sign bytes of two authorizations, with a JSON sorter that reads and writes values.
use cosmos_pay.Prelude.{[], ◌≡◌, ◌↔◌, arith}
use cosmos_pay.Errors.{ok, value_or}
use cosmos_pay.Types.{Authorization}
use cosmos_pay.Types.Tags.{authorization_json}
use cosmos_pay.Encoding.Base64
use cosmos_pay.Encoding.Json.{print}
use cosmos_pay.Adr036.{
  SignLib, Bytes, sign_doc, sign_doc_json, canonical_authorization_json, adr036_preimage,
}
use cosmos_pay.Adr036.Binding.{IsExact, preimage_binds}
use cosmos_pay.Adr036.Sorting.{SortsJson, sorted}
use cosmos_pay.Examples.Sorter.{sort_text, sort_text-print}
use cosmos_pay.Examples.Scenario.{toy_lib, authorization_of}

abbrev sorting_lib : SignLib
sorting_lib = record toy_lib { sort_json = sort_text }

sorting_lib-SortsJson : SortsJson sorting_lib
sorting_lib-SortsJson = record {
  sorts = λ j x plain h. let written = sort_text-print j in ground (arith, h, written);
}

abbrev bought : Authorization
bought = authorization_of "10000" "0x01"

-- the same purchase with another nonce
abbrev bought_again : Authorization
bought_again = authorization_of "10000" "0x02"

bought-IsExact : IsExact bought
bought-IsExact = record { after = ground arith; before = ground arith }

bought_again-IsExact : IsExact bought_again
bought_again-IsExact = record { after = ground arith; before = ground arith }

abbrev preimage : Authorization → Bytes
preimage a = value_or [] (adr036_preimage sorting_lib a)

preimage_run : (a : Authorization) → adr036_preimage sorting_lib a ≡ ok (preimage a)
unfolding adr036_preimage canonical_authorization_json
preimage_run a =
    let inner = sort_text-print (authorization_json a) in
    let b64 = Base64.encode (print (sorted (authorization_json a))) in
    let document = sort_text-print (sign_doc_json (sign_doc sorting_lib a b64)) in
    ground (arith, inner, document)

preimage_binds_example : (preimage bought ≡ preimage bought_again) ↔ (bought ≡ bought_again)
preimage_binds_example =
    preimage_binds sorting_lib sorting_lib-SortsJson bought bought_again (preimage bought)
      (preimage bought_again) bought-IsExact bought_again-IsExact (preimage_run bought)
      (preimage_run bought_again)
