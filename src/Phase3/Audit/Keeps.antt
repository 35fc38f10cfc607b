-- ===== src/Phase3/Audit/Keeps.antt =====
-- phase3/operatorAudit.ts: what a file keeps after a part of a line is written behind its complete rows.
use ha_mcp.Prelude.{
  ℕ, ◌+◌, ◌≤◌, ◌≡◌, refl, ap, sym, subst, ◌⊎◌, inl, inr, Bool, true, false, List, [], ◌∷◌, ◌++◌,
  length, length-append, every, includes, nat_eq, arith,
}
use ha_mcp.Prelude.Results.{ok}
use ha_mcp.Phase3.Audit.{
  Json, newline, committed, torn_tail, rows, starts_with, row_prefix, is_printable,
  is_record_or_torn, maximum_row_bytes, audit_bytes, is_valid_row, is_valid_tail, scan_audit,
}
use ha_mcp.Phase3.Audit.Lines.{
  committed-torn, committed-line, rows-line, start-cases, start-every, start-bare,
  start-starts_with,
}

module _ (json : Json) (is_utf8 : List ℕ → Bool) where
  -- A row that `append` writes: JSON without a newline and in ASCII, that begins with its time, and
  -- whose starts are no JSON or, at its end, the record. ASCII keeps UTF-8.
  pub record IsRow (row : List ℕ) : Type 0 where
    pub bare : includes row newline ≡ false
    pub valid : is_valid_row json is_utf8 row ≡ true
    pub printable : every is_printable row ≡ true
    pub timed : starts_with row row_prefix ≡ true
    pub torn : (out more : List ℕ) → out ++ more ≡ row → is_record_or_torn (json out) ≡ true
    pub encoded :
        (bytes : List ℕ) → is_utf8 bytes ≡ true → is_utf8 (bytes ++ (row ++ newline ∷ [])) ≡ true

  -- The tests of `scanAudit` on the bytes.
  pub record Scans (bytes : List ℕ) : Type 0 where
    pub short : length bytes ≤ audit_bytes
    pub encoded : is_utf8 (committed bytes) ≡ true
    pub complete : every (is_valid_row json is_utf8) (rows (committed bytes)) ≡ true
    pub torn : is_valid_tail json is_utf8 (torn_tail bytes) ≡ true

  pub Scans-scan_audit :
      (bytes : List ℕ) → Scans bytes → scan_audit json is_utf8 true bytes ≡ ok (committed bytes)
  unfolding scan_audit
  Scans-scan_audit bytes h = ground (arith, h)

  pub scan_audit-Scans :
      (bytes : List ℕ) → scan_audit json is_utf8 true bytes ≡ ok (committed bytes) → Scans bytes
  unfolding scan_audit
  scan_audit-Scans bytes h = ground (arith, h)

  start-is_valid_tail :
      (out more row : List ℕ)
      → IsRow row
      → out ++ more ≡ row
      → is_valid_tail json is_utf8 out ≡ true
  unfolding is_valid_tail is_valid_row
  start-is_valid_tail [] more row good start = refl
  start-is_valid_tail (c ∷ cs) more row good start =
      let printable =
        start-every is_printable (c ∷ cs) more
          (subst (λ t. every is_printable t ≡ true) (sym start) good.printable) in
      let timed =
        start-starts_with (c ∷ cs) more row_prefix
          (subst (λ t. starts_with t row_prefix ≡ true) (sym start) good.timed) in
      let short : length (c ∷ cs) ≤ maximum_row_bytes =
        omega (arith, length-append (c ∷ cs) more, ap length start, row_short row good.valid) in
      ground (arith, printable, timed, short, good.torn (c ∷ cs) more start)
    where
      row_short :
          (row : List ℕ) → is_valid_row json is_utf8 row ≡ true → length row ≤ maximum_row_bytes
      row_short row valid = ground (arith, valid)

  every-append :
      (p : List ℕ → Bool) (xs ys : List (List ℕ))
      → every p xs ≡ true
      → every p ys ≡ true
      → every p (xs ++ ys) ≡ true
  every-append p [] ys h k = k
  every-append p (x ∷ xs) ys h k = ground (arith, every-append p xs ys)

  -- What a file keeps: its complete rows, perhaps with one more.
  pub record Keeps (row bytes file : List ℕ) : Type 0 where
    pub scans : scan_audit json is_utf8 true file ≡ ok (committed file)
    pub kept :
        (committed file ≡ committed bytes)
        ⊎ (committed file ≡ committed bytes ++ (row ++ newline ∷ []))

  pub torn-Keeps :
      (row bytes out more : List ℕ)
      → IsRow row
      → Scans bytes
      → out ++ more ≡ row
      → length (committed bytes ++ out) ≤ audit_bytes
      → Keeps row bytes (committed bytes ++ out)
  torn-Keeps row bytes out more good h start short =
      let bare =
        start-bare out more (subst (λ t. includes t newline ≡ false) (sym start) good.bare) in
      let (same, tail) = committed-torn bytes out bare in
      record {
        scans = Scans-scan_audit (committed bytes ++ out) (record {
          short = short;
          encoded = subst (λ t. is_utf8 t ≡ true) (sym same) h.encoded;
          complete =
              subst (λ t. every (is_valid_row json is_utf8) (rows t) ≡ true) (sym same) h.complete;
          torn =
              subst (λ t. is_valid_tail json is_utf8 t ≡ true) (sym tail)
                (start-is_valid_tail out more row good start);
        });
        kept = inl same;
      }

  line-Keeps :
      (row bytes : List ℕ)
      → IsRow row
      → Scans bytes
      → length (committed bytes ++ (row ++ newline ∷ [])) ≤ audit_bytes
      → Keeps row bytes (committed bytes ++ (row ++ newline ∷ []))
  unfolding is_valid_tail
  line-Keeps row bytes good h short =
      let (same, tail) = committed-line bytes row in
      record {
        scans = Scans-scan_audit (committed bytes ++ (row ++ newline ∷ [])) (record {
          short = short;
          encoded =
              subst (λ t. is_utf8 t ≡ true) (sym same) (good.encoded (committed bytes) h.encoded);
          complete =
              subst (λ t. every (is_valid_row json is_utf8) (rows t) ≡ true) (sym same)
                (subst (λ t. every (is_valid_row json is_utf8) t ≡ true)
                  (sym (rows-line bytes row good.bare))
                  (every-append (is_valid_row json is_utf8) (rows (committed bytes)) (row ∷ [])
                    h.complete (ground (arith, good.valid))));
          torn = subst (λ t. is_valid_tail json is_utf8 t ≡ true) (sym tail) refl;
        });
        kept = inr same;
      }

  -- The file after the line is written in part or whole.
  pub written-Keeps :
      (row bytes out rest : List ℕ)
      → IsRow row
      → Scans bytes
      → out ++ rest ≡ row ++ newline ∷ []
      → length (committed bytes) + length (row ++ newline ∷ []) ≤ audit_bytes
      → Keeps row bytes (committed bytes ++ out)
  written-Keeps row bytes out rest good h whole room =
      let fits : length (committed bytes ++ out) ≤ audit_bytes = omega (
        arith,
        length-append (committed bytes) out,
        length-append out rest,
        ap length whole,
        room,
      ) in
      elim (start-cases out rest row whole) [
        | inl (none_left, all) ↦
            subst (λ t. Keeps row bytes (committed bytes ++ t)) (sym all)
              (line-Keeps row bytes good h
                (subst (λ t. length (committed bytes ++ t) ≤ audit_bytes) all fits))
        | inr (more, start) ↦ torn-Keeps row bytes out more good h start fits
      ]

  pub same-Keeps : (row bytes : List ℕ) → Scans bytes → Keeps row bytes bytes
  same-Keeps row bytes h = record { scans = Scans-scan_audit bytes h; kept = inl refl }
