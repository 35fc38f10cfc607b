-- ===== src/Phase3/Paths.antt =====
-- phase3/contracts.ts: `sha256Schema` and `phase3CanonicalRelativePathSchema`. A text is walked by
-- its UTF-16 code units, as `length` counts them; texts with lone surrogates are left out.
pub mod Segments
use Prim.Native.Char.{code}
use Prim.Native.String
use ha_mcp.Prelude.{
  ℕ, ◌+◌, ◌-◌, ◌/◌, ◌%◌, String, Bool, true, false, not, ◌&&◌, ◌||◌, List, [], ◌∷◌, ◌++◌, Option,
  none, some, ltb, leb, nat_beq, ◌==◌, string_eq, length, every, if◌then◌else◌,
}

-- The units of one code point: two for a code point above U+FFFF.
abbrev pub units_of : ℕ → List ℕ
units_of c =
    if ltb c 65536 then c ∷ [] else (55296 + (c - 65536) / 1024) ∷ (56320 + (c - 65536) % 1024) ∷ []

abbrev pub units : String → List ℕ
units String.[] = []
units (String.◌∷◌ c s) = units_of (code c) ++ units s

is_hex : ℕ → Bool
is_hex c = (leb b'a' c && leb c b'f') || (leb b'0' c && leb c b'9')

-- `/^[a-f0-9]{64}$/u`.
unfoldable pub is_sha256 : String → Bool
unfolding is_hex
is_sha256 value = nat_beq (length (units value)) 64 && every is_hex (units value)

-- `split("/")`: the segment read so far is `cur`.
unfoldable pub split_from : List ℕ → List ℕ → List (List ℕ)
split_from cur [] = cur ∷ []
split_from cur (c ∷ cs) =
    let closed = cur ∷ split_from [] cs in
    let longer = split_from (cur ++ c ∷ []) cs in if nat_beq c b'/' then closed else longer

unfoldable pub split : List ℕ → List (List ℕ)
unfolding split_from
split cs = split_from [] cs

-- `segment !== "" && segment !== "." && segment !== ".."`.
unfoldable pub segment_ok : List ℕ → Bool
segment_ok [] = false
segment_ok (a ∷ []) = not (nat_beq a b'.')
segment_ok (a ∷ b ∷ []) = not (nat_beq a b'.' && nat_beq b b'.')
segment_ok (a ∷ b ∷ c ∷ cs) = true

unfoldable pub unit_ok : ℕ → Bool
unit_ok c = not (nat_beq c b'\\') && not (nat_beq c b':') && not (leb c 0x1f || nat_beq c 0x7f)

unfoldable pub starts_with_slash : List ℕ → Bool
starts_with_slash [] = false
starts_with_slash (c ∷ cs) = nat_beq c b'/'

-- `normalize("NFC")` is the JavaScript library's, and is an argument.
unfoldable pub is_canonical_path : (String → String) → String → Bool
unfolding split segment_ok unit_ok starts_with_slash
is_canonical_path nfc value =
    leb 1 (length (units value))
    && leb (length (units value)) 512
    && value == nfc value
    && not (starts_with_slash (units value))
    && every unit_ok (units value)
    && every segment_ok (split (units value))
