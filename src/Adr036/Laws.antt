-- ===== src/Adr036/Laws.antt =====
-- VerifyADR036 of facilitator/adr036.go, and what it asks of a signature.
use cosmos_pay.Prelude.{String, ◌≡◌, ◌↔◌, true, eq_iff, eq_refl, [], length, arith}
use cosmos_pay.Errors.{ok, value_or}
use cosmos_pay.Types.{Authorization}
use cosmos_pay.Encoding.Base64
use cosmos_pay.Adr036.{SignLib, Bytes, adr036_preimage, verify_adr036}

module _ (lib : SignLib) where
  -- The key and the signature decode to the right lengths, the key's signature over the sign
  -- bytes of the authorization checks, and its address is the authorization's payer.
  pub record IsSigned (pub_key_b64 signature_b64 : String) (a : Authorization) (prefix : String)
      : Type 0 where
    pub key : Bytes
    pub signature : Bytes
    pub preimage : Bytes
    pub key_decodes : Base64.decode pub_key_b64 ≡ ok key
    pub key_length : length key ≡ lib.pub_key_size
    pub signature_decodes : Base64.decode signature_b64 ≡ ok signature
    pub signature_length : length signature ≡ 64
    pub preimage_made : adr036_preimage lib a ≡ ok preimage
    pub checks : lib.verify_signature key preimage signature ≡ true
    pub bound : lib.convert_and_encode prefix (lib.address key) ≡ ok a.from

  -- If the signature check returns an address, then it is the authorization's `from`, the key and
  -- the signature decode with the right lengths, the signature of the key over the sign document
  -- of the authorization checks, and the address of the key is the `from`.
  pub verify_adr036_sound :
      (k s : String) (a : Authorization) (prefix addr : String)
      → verify_adr036 lib k s a prefix ≡ ok addr
      → IsSigned k s a prefix × (addr ≡ a.from)
  unfolding verify_adr036
  verify_adr036_sound k s a prefix addr h =
      let key = value_or [] (Base64.decode k) in
      let found = value_or "" (lib.convert_and_encode prefix (lib.address key)) in
      (
        record {
          key = key;
          signature = value_or [] (Base64.decode s);
          preimage = value_or [] (adr036_preimage lib a);
          key_decodes = ground arith;
          key_length = ground arith;
          signature_decodes = ground arith;
          signature_length = ground arith;
          preimage_made = ground arith;
          checks = ground arith;
          bound = ground (arith, eq_iff found a.from);
        },
        ground (arith, eq_iff found a.from),
      )

  -- If the key and the signature decode with the right lengths, the signature of the key over the
  -- sign document of the authorization checks, and the address of the key is the authorization's
  -- `from`, then the signature check returns that `from`.
  pub verify_adr036_complete :
      (k s : String) (a : Authorization) (prefix : String)
      → IsSigned k s a prefix
      → verify_adr036 lib k s a prefix ≡ ok a.from
  unfolding verify_adr036
  verify_adr036_complete k s a prefix v = ground (arith, eq_refl a.from)

  -- The signature check returns an address exactly if the key and the signature decode with the
  -- right lengths, the signature of the key over the sign document of the authorization checks,
  -- the address of the key is the authorization's `from`, and the address returned is that
  -- `from`.
  pub verify_adr036_iff :
      (k s : String) (a : Authorization) (prefix addr : String)
      → (verify_adr036 lib k s a prefix ≡ ok addr) ↔ (IsSigned k s a prefix × (addr ≡ a.from))
  verify_adr036_iff k s a prefix addr = (
    verify_adr036_sound k s a prefix addr,
    λ (signed, from). rw from (verify_adr036_complete k s a prefix signed),
  )
