-- ===== src/Phase3/Audit/Survives.antt =====
-- phase3/operatorAudit.ts: the file after `append`, wherever its calls fail or the process dies.
use ha_mcp.Prelude.{
  suc, ℕ, ◌+◌, ◌≤◌, ◌≡◌, ◌≢◌, refl, ap, sym, ◌∙◌, subst, ◌⊎◌, inl, inr, Bool, true, false, Option,
  none, some, List, [], ◌∷◌, ◌++◌, length, length-append, includes, nat_eq, arith, Bool-cases,
}
use mathlib.Core.List.{append-nil}
use ha_mcp.Prelude.Results.{ok, err, Result-cases}
use ha_mcp.Phase3.Audit.{
  Json, newline, committed, torn_tail, rows, audit_bytes, scan_audit, validate_audit, Calls,
  write_pending, and_sync, admit_line, is_cut, write_line, append_if, append, R,
}
use ha_mcp.Phase3.Audit.Lines.{committed-line, rows-line, write_pending-IsStart}
use ha_mcp.Phase3.Audit.Keeps.{
  IsRow, Scans, scan_audit-Scans, Keeps, torn-Keeps, written-Keeps, same-Keeps,
}

module _ (json : Json) (is_utf8 : List ℕ → Bool) where
  admit_line-room :
      (calls : Calls) (line bytes : List ℕ)
      → admit_line json is_utf8 calls line bytes ≡ ok tt
      → length (committed bytes) + length line ≤ audit_bytes
  unfolding admit_line scan_audit
  admit_line-room calls line bytes h = ground (arith, h)

  write_line-Keeps :
      (calls : Calls) (row bytes : List ℕ)
      → IsRow json is_utf8 row
      → Scans json is_utf8 bytes
      → length (committed bytes) + length (row ++ newline ∷ []) ≤ audit_bytes
      → Keeps json is_utf8 row bytes (write_line calls (row ++ newline ∷ []) bytes).0
  unfolding write_line
  write_line-Keeps calls row bytes good h room =
      let start = write_pending-IsStart (row ++ newline ∷ []) calls.writes in
      let written =
        written-Keeps json is_utf8 row bytes (write_pending (row ++ newline ∷ []) calls.writes).0
          start.rest good h start.whole room in
      let cut : Keeps json is_utf8 row bytes (committed bytes) =
        subst (λ t. Keeps json is_utf8 row bytes t) (append-nil (committed bytes))
          (torn-Keeps json is_utf8 row bytes [] row good h refl
            (omega (arith, length-append (committed bytes) [], room))) in
      elim (Bool-cases (is_cut calls bytes)) [
        | inl clean ↦ rw clean written
        | inr dirty ↦ rw dirty (elim (Bool-cases calls.truncated) [
          | inl shorter ↦ rw shorter cut
          | inr longer ↦ rw longer (same-Keeps json is_utf8 row bytes h)
        ])
      ]

  appended-Keeps :
      (calls : Calls) (row bytes : List ℕ)
      → IsRow json is_utf8 row
      → Scans json is_utf8 bytes
      → Keeps json is_utf8 row bytes (append json is_utf8 calls (row ++ newline ∷ []) bytes).0
  unfolding append
  appended-Keeps calls row bytes good h =
      elim (Result-cases (admit_line json is_utf8 calls (row ++ newline ∷ []) bytes)) [
        | inr (e, refused) ↦ rw refused (same-Keeps json is_utf8 row bytes h)
        | inl (u, admitted) ↦ rw admitted (
            write_line-Keeps calls row bytes good h
              (admit_line-room calls (row ++ newline ∷ []) bytes admitted))
      ]

  and_sync-ok :
      (calls : Calls) (o : Option (R (Unit {0})))
      → and_sync calls o ≡ some (ok tt)
      → o ≡ some (ok tt)
  and_sync-ok calls none h = h
  and_sync-ok calls (some (ok u)) h = refl
  and_sync-ok calls (some (err e)) h = h

  write_line-ok :
      (calls : Calls) (line bytes : List ℕ)
      → (write_line calls line bytes).1 ≡ some (ok tt)
      → (write_line calls line bytes).0 ≡ committed bytes ++ line
  unfolding write_line
  write_line-ok calls line bytes h =
      let start = write_pending-IsStart line calls.writes in
      elim (Bool-cases (is_cut calls bytes)) [
        | inl clean ↦
            (let ended =
                and_sync-ok calls (write_pending line calls.writes).1 (ground (arith, h, clean)) in
              rw clean (
                ap (λ t. committed bytes ++ t)
                  (sym (append-nil (write_pending line calls.writes).0)
                    ∙ ap (λ t. (write_pending line calls.writes).0 ++ t) (sym (start.all ended))
                    ∙ start.whole)))
        | inr dirty ↦ ground (arith, h, dirty)
      ]

  append-ok :
      (calls : Calls) (line bytes : List ℕ)
      → (append json is_utf8 calls line bytes).1 ≡ some (ok tt)
      → (append json is_utf8 calls line bytes).0 ≡ committed bytes ++ line
  unfolding append
  append-ok calls line bytes h = elim (Result-cases (admit_line json is_utf8 calls line bytes)) [
    | inr (e, refused) ↦ ground (arith, h, refused)
    | inl (u, admitted) ↦ rw admitted (
        write_line-ok calls line bytes
          (subst (λ r. (append_if r calls line bytes).1 ≡ some (ok tt)) admitted h))
  ]

  -- The file with the new row complete, as `validatePhase3OperatorAudit` sees it too: one row more,
  -- and no torn tail.
  pub record IsAdded (row bytes file : List ℕ) : Type 0 where
    pub whole : file ≡ committed bytes ++ (row ++ newline ∷ [])
    pub counted :
        validate_audit json is_utf8 true file ≡ ok (suc (length (rows (committed bytes))), 0)

  line-IsAdded :
      (row bytes file : List ℕ)
      → includes row newline ≡ false
      → scan_audit json is_utf8 true file ≡ ok (committed file)
      → file ≡ committed bytes ++ (row ++ newline ∷ [])
      → IsAdded row bytes file
  unfolding validate_audit
  line-IsAdded row bytes file bare scans whole =
      let (same, tail) = committed-line bytes row in
      let kept : committed file ≡ committed bytes ++ (row ++ newline ∷ []) =
        ap committed whole ∙ same in
      let cut : torn_tail file ≡ [] = ap torn_tail whole ∙ tail in
      let longer : length (rows (committed file)) ≡ suc (length (rows (committed bytes))) =
        ap (λ t. length (rows t)) kept
        ∙ ap length (rows-line bytes row bare)
        ∙ length-append (rows (committed bytes)) (row ∷ [])
        ∙ omega arith in
      record { whole = whole; counted = rw (scans, cut, longer) refl }

returned-cases : (o : Option (R (Unit {0}))) → (o ≡ some (ok tt)) ⊎ (o ≢ some (ok tt))
returned-cases none = inr (λ e. ground (arith, e))
returned-cases (some (ok tt)) = inl refl
returned-cases (some (err e)) = inr (λ h. ground (arith, h))

-- Take a file that `scanAudit` accepts and a row that `append` may write. Wherever a call fails or the
-- process dies, `scanAudit` accepts the file that is left, and its complete rows are those of before,
-- or those and the new one. Either `append` does not return, or the file is those and the new one,
-- and `validatePhase3OperatorAudit` counts one row more and no torn tail.
pub append-Keeps :
    (json : Json) (is_utf8 : List ℕ → Bool) (calls : Calls) (row bytes : List ℕ)
    → IsRow json is_utf8 row
    → scan_audit json is_utf8 true bytes ≡ ok (committed bytes)
    → Keeps json is_utf8 row bytes (append json is_utf8 calls (row ++ newline ∷ []) bytes).0
      × (((append json is_utf8 calls (row ++ newline ∷ []) bytes).1 ≢ some (ok tt))
          ⊎ IsAdded json is_utf8 row bytes
              (append json is_utf8 calls (row ++ newline ∷ []) bytes).0)
append-Keeps json is_utf8 calls row bytes good h =
    let after = append json is_utf8 calls (row ++ newline ∷ []) bytes in
    let keeps =
      appended-Keeps json is_utf8 calls row bytes good (scan_audit-Scans json is_utf8 bytes h) in
    (
      keeps,
      elim (returned-cases after.1) [
        | inr dies ↦ inl dies
        | inl returns ↦ inr (
            line-IsAdded json is_utf8 row bytes after.0 good.bare keeps.scans
              (append-ok json is_utf8 calls (row ++ newline ∷ []) bytes returns))
      ],
    )
