-- ===== src/Proposals/Cursor/Roundtrip.antt =====
-- proposals/cursor.ts: cursors, written and read back.
use ha_mcp.Prelude.{
  ℕ, zero, suc, ◌≤◌, ◌≡◌, refl, ap, ◌∙◌, subst, String, true, false, [], ◌∷◌, ◌++◌, length,
  length-append, arith,
}
use ha_mcp.Prelude.Results.{ok}
use ha_mcp.Proposals.Cursor.{
  Bytes, Platform, Codec, take_bytes, drop_bytes, bytes_beq, write_uint32, read_uint32, payload,
  encode, open_payload, decode,
}

-- What the code relies on of the platform: base64url is read back, a code is 32 bytes long, and the
-- schema of a cursor accepts the text of 102 bytes.
pub record PlatformLaws (p : Platform) : Type 0 where
  pub reads_back : (bytes : Bytes) → p.from_text (p.to_text bytes) ≡ bytes
  pub hmac_length : (key bytes : Bytes) → length (p.hmac key bytes) ≡ 32
  pub accepts : (bytes : Bytes) → length bytes ≡ 102 → p.is_cursor (p.to_text bytes) ≡ true

bytes_beq_refl : (bs : Bytes) → bytes_beq bs bs ≡ true
bytes_beq_refl [] = refl
bytes_beq_refl (b ∷ bs) = ground (arith, bytes_beq_refl bs)

take_bytes-append : (n : ℕ) (xs ys : Bytes) → length xs ≡ n → take_bytes n (xs ++ ys) ≡ xs
unfolding take_bytes
take_bytes-append zero [] ys h = refl
take_bytes-append zero (x ∷ xs) ys h = absurd (omega (arith, h))
take_bytes-append (suc n) [] ys h = absurd (omega (arith, h))
take_bytes-append (suc n) (x ∷ xs) ys h =
    ap (λ bs. x ∷ bs) (take_bytes-append n xs ys (omega (arith, h)))

drop_bytes-append : (n : ℕ) (xs ys : Bytes) → length xs ≡ n → drop_bytes n (xs ++ ys) ≡ ys
unfolding drop_bytes
drop_bytes-append zero [] ys h = refl
drop_bytes-append zero (x ∷ xs) ys h = absurd (omega (arith, h))
drop_bytes-append (suc n) [] ys h = absurd (omega (arith, h))
drop_bytes-append (suc n) (x ∷ xs) ys h = drop_bytes-append n xs ys (omega (arith, h))

read_uint32-write_uint32 :
    (n : ℕ) (rest : Bytes) → n ≤ 0xffffffff → read_uint32 (write_uint32 n rest) ≡ n
unfolding read_uint32 write_uint32
read_uint32-write_uint32 n rest h = omega (arith, h)

module _ (p : Platform) where
  payload-length :
      (codec : Codec) (operation generation offset : ℕ) (snapshot : Bytes)
      → length snapshot ≡ 32
      → length codec.key_tag ≡ 28
      → length (payload p codec operation generation offset snapshot) ≡ 70
  unfolding payload write_uint32
  payload-length codec operation generation offset snapshot h k =
      omega (arith, h, k, length-append snapshot codec.key_tag)

  open_payload-payload :
      (codec : Codec) (operation generation offset : ℕ) (snapshot : Bytes)
      → generation ≤ 0xffffffff
      → offset ≤ 0xffffffff
      → length snapshot ≡ 32
      → let bytes = payload p codec operation generation offset snapshot in
        open_payload p codec operation bytes (p.hmac codec.key bytes)
        ≡ ok (generation, offset, snapshot)
  unfolding open_payload payload drop_bytes write_uint32
  open_payload-payload codec operation generation offset snapshot g o s =
      let bytes = payload p codec operation generation offset snapshot in
      let rest = snapshot ++ codec.key_tag in
      ground (
        arith,
        bytes_beq_refl (p.hmac codec.key bytes),
        bytes_beq_refl codec.key_tag,
        drop_bytes-append 32 snapshot codec.key_tag s,
        take_bytes-append 32 snapshot codec.key_tag s,
        read_uint32-write_uint32 generation (write_uint32 offset rest) g,
        read_uint32-write_uint32 offset rest o,
      )

  -- A cursor that an open codec encodes is decoded for the same operation to the generation, the
  -- offset and the snapshot that it was made of, if the platform keeps its laws and the tag of
  -- the codec's key has 28 bytes.
  pub decode-encode :
      (codec : Codec) (operation generation offset : ℕ) (snapshot : Bytes) (text : String)
      → PlatformLaws p
      → length codec.key_tag ≡ 28
      → encode p codec operation generation offset snapshot ≡ ok text
      → decode p codec text operation ≡ ok (generation, offset, snapshot)
  unfolding encode decode
  decode-encode codec operation generation offset snapshot text laws tag h =
      let bytes = payload p codec operation generation offset snapshot in
      let mac = p.hmac codec.key bytes in
      let fits : length snapshot ≡ 32 = ground arith in
      let small : generation ≤ 0xffffffff = ground arith in
      let near : offset ≤ 0xffffffff = ground arith in
      let open_codec : codec.closed ≡ false = ground arith in
      let written : p.to_text (bytes ++ mac) ≡ text = ground arith in
      let long = payload-length codec operation generation offset snapshot fits tag in
      let whole : length (bytes ++ mac) ≡ 102 =
        omega (arith, length-append bytes mac, long, laws.hmac_length codec.key bytes) in
      let accepted =
        subst (λ t. p.is_cursor t ≡ true) written (laws.accepts (bytes ++ mac) whole) in
      let read =
        subst (λ t. p.from_text t ≡ bytes ++ mac) written (laws.reads_back (bytes ++ mac)) in
      let taken = ap (take_bytes 70) read ∙ take_bytes-append 70 bytes mac long in
      let dropped = ap (drop_bytes 70) read ∙ drop_bytes-append 70 bytes mac long in
      let opened =
        open_payload-payload codec operation generation offset snapshot small near fits in
      ground (arith, ap length read ∙ whole, accepted, taken, dropped, opened)
