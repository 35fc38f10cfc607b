-- ===== src/Proposals/Tests/Cursor.antt =====
-- Cursors on concrete bytes, with texts in which a byte `n` is written as `n` times "a", then "b".
use Prim.Native.Char.{code}
use ha_mcp.Prelude.{
  ℕ, zero, suc, ◌+◌, String, true, false, [], ◌∷◌, ◌++◌, ◌≡◌, refl, ap, ◌∙◌, nat_beq, arith,
  if◌then◌else◌,
}
use ha_mcp.Prelude.Results.{ok}
use ha_mcp.Proposals.Cursor.{Bytes, Platform, Codec, payload, encode, decode}
use ha_mcp.Proposals.Cursor.Roundtrip.{PlatformLaws, decode-encode}

abbrev write_unary : ℕ → String → String
write_unary zero rest = String.◌∷◌ "b" rest
write_unary (suc n) rest = String.◌∷◌ "a" (write_unary n rest)

abbrev to_unary : Bytes → String
to_unary [] = ""
to_unary (b ∷ bs) = write_unary b (to_unary bs)

abbrev from_unary : ℕ → String → Bytes
from_unary n String.[] = []
from_unary n (String.◌∷◌ c s) =
    if nat_beq (code c) 98 then n ∷ from_unary 0 s else from_unary (suc n) s

from_unary-write_unary :
    (n b : ℕ) (rest : String) → from_unary n (write_unary b rest) ≡ (n + b) ∷ from_unary 0 rest
from_unary-write_unary n zero rest = ap (λ k. k ∷ from_unary 0 rest) (omega arith)
from_unary-write_unary n (suc b) rest =
    from_unary-write_unary (suc n) b rest ∙ ap (λ k. k ∷ from_unary 0 rest) (omega arith)

from_unary-to_unary : (bs : Bytes) → from_unary 0 (to_unary bs) ≡ bs
from_unary-to_unary [] = refl
from_unary-to_unary (b ∷ bs) =
    from_unary-write_unary 0 b (to_unary bs)
    ∙ ap (λ k. k ∷ from_unary 0 (to_unary bs)) (omega arith)
    ∙ ap (λ cs. b ∷ cs) (from_unary-to_unary bs)

abbrev times_byte : ℕ → ℕ → Bytes
times_byte zero b = []
times_byte (suc n) b = b ∷ times_byte n b

abbrev platform : Platform
platform = record {
  hmac = λ key bytes. times_byte 32 7;
  sha256 = λ bytes. times_byte 32 5;
  to_text = to_unary;
  from_text = from_unary 0;
  is_cursor = λ text. true;
}

platform_laws : PlatformLaws platform
platform_laws = record {
  reads_back = from_unary-to_unary;
  hmac_length = λ key bytes. refl;
  accepts = λ bytes h. refl;
}

abbrev codec : Codec
codec = record { key = times_byte 32 7; key_tag = times_byte 28 5; closed = false }

abbrev snapshot : Bytes
snapshot = times_byte 32 3

abbrev text : String
text = to_unary (payload platform codec 1 2 3 snapshot ++ times_byte 32 7)

encode_run : encode platform codec 1 2 3 snapshot ≡ ok text
unfolding encode
encode_run = refl

decode-encode_example : decode platform codec text 1 ≡ ok (2, 3, snapshot)
decode-encode_example =
    decode-encode platform codec 1 2 3 snapshot text platform_laws refl encode_run
