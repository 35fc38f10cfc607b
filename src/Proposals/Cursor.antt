-- ===== src/Proposals/Cursor.antt =====
-- proposals/cursor.ts: `ProposalCursorCodec`. A buffer is the list of its bytes.
pub mod Roundtrip
use ha_mcp.Prelude.{
  ℕ, zero, suc, ◌+◌, ◌*◌, ◌/◌, ◌%◌, String, Bool, true, false, not, ◌&&◌, List, [], ◌∷◌, ◌++◌,
  length, leb, nat_beq, if◌then◌else◌,
}
use ha_mcp.Prelude.Results.{Result, ok, err, ◌>>=◌, ◌>>◌, guard}

abbrev pub Bytes : Type 0
Bytes = List ℕ

-- The platform: HMAC and SHA-256, base64url, and the schema of a cursor's text.
pub record Platform : Type 0 where
  pub hmac : Bytes → Bytes → Bytes
  pub sha256 : Bytes → Bytes
  pub to_text : Bytes → String
  pub from_text : String → Bytes
  pub is_cursor : String → Bool

-- The fields of `ProposalCursorCodec`.
pub record Codec : Type 0 where
  pub key : Bytes
  pub key_tag : Bytes
  pub closed : Bool

abbrev pub payload_bytes : ℕ
payload_bytes = 70

abbrev pub cursor_bytes : ℕ
cursor_bytes = 102

unfoldable pub take_bytes : ℕ → Bytes → Bytes
take_bytes zero bs = []
take_bytes (suc n) [] = []
take_bytes (suc n) (b ∷ bs) = b ∷ take_bytes n bs

unfoldable pub drop_bytes : ℕ → Bytes → Bytes
drop_bytes zero bs = bs
drop_bytes (suc n) [] = []
drop_bytes (suc n) (b ∷ bs) = drop_bytes n bs

-- `timingSafeEqual`.
abbrev pub bytes_beq : Bytes → Bytes → Bool
bytes_beq [] [] = true
bytes_beq (b ∷ bs) (c ∷ cs) = nat_beq b c && bytes_beq bs cs
bytes_beq _ _ = false

-- `writeUInt32BE`, and `readUInt32BE` of the first four bytes.
unfoldable pub write_uint32 : ℕ → Bytes → Bytes
write_uint32 n rest = n / 16777216 % 256 ∷ n / 65536 % 256 ∷ n / 256 % 256 ∷ n % 256 ∷ rest

unfoldable pub read_uint32 : Bytes → ℕ
read_uint32 (a ∷ b ∷ c ∷ d ∷ rest) = ((a * 256 + b) * 256 + c) * 256 + d
read_uint32 _ = 0

abbrev pub first_is : ℕ → Bytes → Bool
first_is n [] = false
first_is n (b ∷ bs) = nat_beq b n

module _ (p : Platform) where
  -- The constructor; `label` is the bytes of its label.
  unfoldable pub new_codec : Bytes → Bytes → Bytes → Result String Codec
  new_codec label key nonce = do
    guard (leb 32 (length key)) "Proposal cursor key must contain at least 32 bytes"
    guard (nat_beq (length nonce) 32) "Proposal cursor session nonce must contain exactly 32 bytes"
    let session_key = p.hmac key (label ++ nonce)
    ok (record {
      key = session_key;
      key_tag = take_bytes 28 (p.sha256 session_key);
      closed = false;
    })

  -- The payload of a cursor.
  unfoldable pub payload : Codec → ℕ → ℕ → ℕ → Bytes → Bytes
  payload codec operation generation offset snapshot =
      1 ∷ operation ∷ write_uint32 generation (write_uint32 offset (snapshot ++ codec.key_tag))

  -- `encode`.
  unfoldable pub encode : Codec → ℕ → ℕ → ℕ → Bytes → Result String String
  encode codec operation generation offset snapshot = do
    guard (not codec.closed) "Proposal cursor session is closed"
    guard
        (leb 1 operation
          && leb operation 255
          && leb generation 0xffffffff
          && leb offset 0xffffffff
          && nat_beq (length snapshot) 32)
        "Proposal cursor fields are invalid"
    let bytes = payload codec operation generation offset snapshot
    ok (p.to_text (bytes ++ p.hmac codec.key bytes))

  -- `decode`, from the bytes of the payload and of the code on.
  unfoldable pub open_payload : Codec → ℕ → Bytes → Bytes → Result String (ℕ × ℕ × Bytes)
  open_payload codec operation bytes mac = do
    guard
        (bytes_beq mac (p.hmac codec.key bytes)
          && first_is 1 bytes
          && first_is operation (drop_bytes 1 bytes)
          && bytes_beq (drop_bytes 42 bytes) codec.key_tag)
        "Proposal cursor is invalid for this operation or key"
    ok (
      read_uint32 (drop_bytes 2 bytes),
      read_uint32 (drop_bytes 6 bytes),
      take_bytes 32 (drop_bytes 10 bytes),
    )

  -- `decode`.
  unfoldable pub decode : Codec → String → ℕ → Result String (ℕ × ℕ × Bytes)
  decode codec value operation = do
    guard (not codec.closed) "Proposal cursor session is closed"
    guard (p.is_cursor value) "Proposal cursor is malformed"
    let bytes = p.from_text value
    guard (nat_beq (length bytes) cursor_bytes) "Proposal cursor is malformed"
    open_payload codec operation (take_bytes payload_bytes bytes) (drop_bytes payload_bytes bytes)

-- `fill(0)`.
abbrev pub zeros : Bytes → Bytes
zeros [] = []
zeros (b ∷ bs) = 0 ∷ zeros bs

-- `close`.
unfoldable pub close : Codec → Codec
close codec =
    let wiped = record codec {
      closed = true;
      key = zeros codec.key;
      key_tag = zeros codec.key_tag;
    } in
    if codec.closed then codec else wiped
