-- ===== src/Phase3/Names.antt =====
-- phase3/journal.ts: `lowercaseUuid`, `finalNamePattern`, `pendingNamePattern` and `finalPath`. A
-- name is the list of its UTF-16 code units.
pub mod Roundtrip
use ha_mcp.Prelude.{
  ℕ, zero, suc, ◌+◌, ◌-◌, ◌*◌, ◌/◌, ◌%◌, String, Bool, true, false, ◌&&◌, ◌||◌, Option, none, some,
  List, [], ◌∷◌, ◌++◌, leb, nat_beq, if◌then◌else◌,
}
use ha_mcp.Phase3.Paths.{units}

-- What one place of a pattern takes: `[0-9a-f]`, `[0-9]`, `[1-8]`, `[89ab]`, or the unit itself.
pub data Place : Type 0 where
  hex digit version variant : Place
  unit : ℕ → Place

unfoldable pub fits : Place → ℕ → Bool
fits hex c = (leb b'0' c && leb c b'9') || (leb b'a' c && leb c b'f')
fits digit c = leb b'0' c && leb c b'9'
fits version c = leb b'1' c && leb c b'8'
fits variant c = nat_beq c b'8' || nat_beq c b'9' || nat_beq c b'a' || nat_beq c b'b'
fits (unit d) c = nat_beq c d

abbrev pub prepend : ℕ → Option (List ℕ × List ℕ) → Option (List ℕ × List ℕ)
prepend c none = none
prepend c (some (taken, rest)) = some (c ∷ taken, rest)

-- The pattern at the start of the name: what it takes, and the rest.
unfoldable pub take_match : List Place → List ℕ → Option (List ℕ × List ℕ)
take_match [] cs = some ([], cs)
take_match (p ∷ ps) [] = none
take_match (p ∷ ps) (c ∷ cs) = if fits p c then prepend c (take_match ps cs) else none

-- What follows a match, or no match at all.
abbrev pub after_match {ℓ} :
    {A : Type ℓ} → Option (List ℕ × List ℕ) → (List ℕ → List ℕ → Option A) → Option A
after_match none f = none
after_match (some (taken, rest)) f = f taken rest

abbrev pub times : ℕ → Place → List Place → List Place
times zero p ps = ps
times (suc n) p ps = p ∷ times n p ps

-- The units of a text that a pattern names.
abbrev pub literal : List ℕ → List Place
literal [] = []
literal (c ∷ cs) = unit c ∷ literal cs

abbrev pub uuid : List Place
uuid = times 8 hex (
    unit b'-'
    ∷ times 4 hex (
        unit b'-'
        ∷ version
        ∷ times 3 hex (unit b'-' ∷ variant ∷ times 3 hex (unit b'-' ∷ times 12 hex []))))

abbrev pub is_all_taken : Option (List ℕ × List ℕ) → Bool
is_all_taken (some (taken, [])) = true
is_all_taken _ = false

-- `lowercaseUuid.test`.
unfoldable pub is_lowercase_uuid : List ℕ → Bool
is_lowercase_uuid cs = is_all_taken (take_match uuid cs)

-- `pendingNamePattern.test`.
abbrev pub pending_prefix : List ℕ
pending_prefix = units ".pending-"

unfoldable pub is_pending_name : List ℕ → Bool
is_pending_name cs = elim (take_match (literal pending_prefix) cs) [
  | none ↦ false
  | some (taken, rest) ↦ is_lowercase_uuid rest
]

abbrev pub version_width : ℕ
version_width = 12

abbrev pub entry_suffix : List ℕ
entry_suffix = units ".entry"

abbrev pub dot : List ℕ
dot = b'.' ∷ []

-- `Number(versionText)` of a text of digits.
unfoldable pub value_from : ℕ → List ℕ → ℕ
value_from n [] = n
value_from n (c ∷ cs) = value_from (n * 10 + (c - b'0')) cs

-- `finalNamePattern.exec`: the two groups, the second as a number.
unfoldable pub parse_final_name : List ℕ → Option (List ℕ × ℕ)
parse_final_name cs = after_match (take_match uuid cs) λ id cs'.
    after_match (take_match (literal dot) cs') λ _ cs''.
      after_match (take_match (times version_width digit []) cs'') λ version_text rest.
        if is_all_taken (take_match (literal entry_suffix) rest)
        then some (id, value_from 0 version_text)
        else none

-- `String(version).padStart(width, "0")`, of a version with at most `width` digits.
unfoldable pub pad : ℕ → ℕ → List ℕ
pad zero v = []
pad (suc width) v = pad width (v / 10) ++ (b'0' + v % 10) ∷ []

-- The last part of `finalPath`.
unfoldable pub final_name : List ℕ → ℕ → List ℕ
final_name id v = id ++ (dot ++ (pad version_width v ++ entry_suffix))
