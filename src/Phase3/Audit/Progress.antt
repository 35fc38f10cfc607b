-- ===== src/Phase3/Audit/Progress.antt =====
-- phase3/operatorAudit.ts: that `append` returns.
use ha_mcp.Prelude.{
  ℕ, zero, suc, ◌+◌, ◌≤◌, ◌≡◌, refl, ap, sym, ◌∙◌, Bool, true, false, Option, none, some, List, [],
  ◌∷◌, ◌++◌, length, every, arith, nat_eq,
}
use mathlib.Core.List.{append-nil}
use ha_mcp.Prelude.Results.{ok}
use ha_mcp.Phase3.Audit.{
  Json, committed, audit_bytes, scan_audit, Calls, drop_bytes, write_pending, admit_line, is_cut,
  write_line, append,
}
use ha_mcp.Phase3.Audit.Lines.{write_pending-IsStart}

-- A write that takes at least one byte.
abbrev pub is_written : Option ℕ → Bool
is_written (some (suc n)) = true
is_written _ = false

length-drop_bytes : (n : ℕ) (cs : List ℕ) → length (drop_bytes n cs) ≤ length cs
unfolding drop_bytes
length-drop_bytes zero cs = omega arith
length-drop_bytes (suc n) [] = omega arith
length-drop_bytes (suc n) (c ∷ cs) = omega (arith, length-drop_bytes n cs)

-- The loop ends after at most a write for each byte.
write_pending-ends :
    (line : List ℕ) (ws : List (Option ℕ))
    → every is_written ws ≡ true
    → length line ≤ length ws
    → (write_pending line ws).1 ≡ some (ok tt)
unfolding write_pending
write_pending-ends [] ws good enough = refl
write_pending-ends (p ∷ ps) [] good enough = ground (arith, enough)
write_pending-ends (p ∷ ps) (none ∷ ws) good enough = ground (arith, good)
write_pending-ends (p ∷ ps) (some zero ∷ ws) good enough = ground (arith, good)
write_pending-ends (p ∷ ps) (some (suc n) ∷ ws) good enough =
    write_pending-ends (drop_bytes n ps) ws (ground (arith, good))
      (omega (arith, length-drop_bytes n ps, enough))

write_pending-whole :
    (line : List ℕ) (ws : List (Option ℕ))
    → every is_written ws ≡ true
    → length line ≤ length ws
    → write_pending line ws ≡ (line, some (ok tt))
write_pending-whole line ws good enough =
    let start = write_pending-IsStart line ws in
    let ended = write_pending-ends line ws good enough in
    let all : (write_pending line ws).0 ≡ line =
      sym (append-nil (write_pending line ws).0)
      ∙ ap (λ t. (write_pending line ws).0 ++ t) (sym (start.all ended))
      ∙ start.whole in
    λ i. (all i, ended i)

-- No call fails, and each write takes at least one byte.
pub record IsQuiet (calls : Calls) (line : List ℕ) : Type 0 where
  pub lease_first : calls.lease_first ≡ true
  pub opened : calls.opened ≡ true
  pub looks : calls.looks ≡ true
  pub lease_second : calls.lease_second ≡ true
  pub truncated : calls.truncated ≡ true
  pub truncate_synced : calls.truncate_synced ≡ true
  pub written : every is_written calls.writes ≡ true
  pub enough : length line ≤ length calls.writes
  pub synced : calls.synced ≡ true
  pub directory_synced : calls.directory_synced ≡ true

write_line-quiet :
    (calls : Calls) (line bytes : List ℕ)
    → IsQuiet calls line
    → write_line calls line bytes ≡ (committed bytes ++ line, some (ok tt))
unfolding write_line is_cut
write_line-quiet calls line bytes quiet =
    rw
      (
        write_pending-whole line calls.writes quiet.written quiet.enough,
        quiet.truncated,
        quiet.truncate_synced,
        quiet.synced,
        quiet.directory_synced,
      )
      (ground arith)

module _ (json : Json) (is_utf8 : List ℕ → Bool) where
  admit_line-quiet :
      (calls : Calls) (line bytes : List ℕ)
      → IsQuiet calls line
      → scan_audit json is_utf8 true bytes ≡ ok (committed bytes)
      → length (committed bytes) + length line ≤ audit_bytes
      → admit_line json is_utf8 calls line bytes ≡ ok tt
  unfolding admit_line
  admit_line-quiet calls line bytes quiet scans room =
      rw (quiet.lease_first, quiet.opened, quiet.looks, scans, quiet.lease_second)
        (ground (arith, room))

-- On a file that `scanAudit` accepts, with room for the line, `append` returns if no call fails and
-- each write takes at least one byte: the file is the complete rows and the line.
pub append-quiet :
    (json : Json) (is_utf8 : List ℕ → Bool) (calls : Calls) (line bytes : List ℕ)
    → IsQuiet calls line
    → scan_audit json is_utf8 true bytes ≡ ok (committed bytes)
    → length (committed bytes) + length line ≤ audit_bytes
    → append json is_utf8 calls line bytes ≡ (committed bytes ++ line, some (ok tt))
unfolding append
append-quiet json is_utf8 calls line bytes quiet scans room =
    rw (admit_line-quiet json is_utf8 calls line bytes quiet scans room)
      (write_line-quiet calls line bytes quiet)
