-- ===== src/Phase3/Atomic/Frame/Exact.antt =====
-- phase3/atomicApply.ts: the texts that `parseFrame` accepts.
use ha_mcp.Prelude.{
  ℕ, ◌≡◌, refl, ap, ◌∙◌, sym, subst, ◌⊎◌, inl, inr, String, Bool, true, false, Option, none, some,
  List, [], ◌∷◌, ◌++◌, arith, if◌then◌else◌, Bool-cases, Option-cases,
}
use mathlib.Core.List.{append-nil}
use ha_mcp.Phase3.Paths.{units}
use ha_mcp.Phase3.Records.{CommitStatus, before_commit, committed, commit_unknown}
use ha_mcp.Phase3.Atomic.Frame.{
  HelperError, Frame, error_text, helper_error_codes, status_text, frame_start, error_start,
  newline, strip, same_text, is_word_unit, word_line, some_word, find_error, frame_of, frame_with,
  read_end, read_status, read_frame, parse_frame, or_else, prepend,
}

-- The text of a frame, as the helper prints it.
abbrev pub end_text : Option HelperError → List ℕ
end_text none = newline
end_text (some e) = error_start ++ (error_text e ++ newline)

abbrev pub frame_text : Frame → List ℕ
frame_text f = frame_start ++ (status_text f.status ++ end_text f.error_code)

-- A committed frame has no error code.
abbrev pub IsLegal : CommitStatus → Option HelperError → Type 0
IsLegal status none = Unit
IsLegal committed (some e) = ⊥
IsLegal before_commit (some e) = Unit
IsLegal commit_unknown (some e) = Unit

pub strip-exact : (ps cs rest : List ℕ) → strip ps cs ≡ some rest → cs ≡ ps ++ rest
unfolding strip
strip-exact [] cs rest h = ground arith
strip-exact (p ∷ ps) [] rest h = ground arith
strip-exact (p ∷ ps) (c ∷ cs) rest h = ground (arith, strip-exact ps cs rest)

pub strip-append : (ps rest : List ℕ) → strip ps (ps ++ rest) ≡ some rest
unfolding strip
strip-append [] rest = refl
strip-append (p ∷ ps) rest = ground (arith, strip-append ps rest)

same_text-exact : (name code : List ℕ) → same_text name code ≡ true → code ≡ name
unfolding same_text
same_text-exact name code h = ground (arith, strip-exact name code [], append-nil name)

word-step :
    (b : Bool) (c : ℕ) (o : Option (List ℕ)) (w : List ℕ)
    → (if b then prepend c o else none) ≡ some w
    → (v : List ℕ) × (o ≡ some v) × (w ≡ c ∷ v)
word-step false c o w h = ground arith
word-step true c none w h = ground arith
word-step true c (some v) w h = (v, refl, ground arith)

word_line-exact : (cs w : List ℕ) → word_line cs ≡ some w → cs ≡ w ++ newline
unfolding word_line
word_line-exact [] w h = ground arith
word_line-exact (c ∷ []) w h = ground arith
word_line-exact (c ∷ d ∷ cs) w h =
    let (v, e, q) = word-step (is_word_unit c) c (word_line (d ∷ cs)) w h in
    rw q (ap (λ t. c ∷ t) (word_line-exact (d ∷ cs) v e))

find_error-exact :
    (code : List ℕ) (es : List HelperError) (e : HelperError)
    → find_error code es ≡ some e
    → code ≡ error_text e
unfolding find_error
find_error-exact code [] e h = ground arith
find_error-exact code (x ∷ es) e h =
    ground (arith, same_text-exact (error_text x) code, find_error-exact code es e)

some_word-exact : (o : Option (List ℕ)) (w : List ℕ) → some_word o ≡ some w → o ≡ some w
unfolding some_word
some_word-exact none w h = ground arith
some_word-exact (some []) w h = ground arith
some_word-exact (some (c ∷ cs)) w h = h

-- What a frame says, and the text of its code.
record IsCoded (status : CommitStatus) (o : Option (List ℕ)) (f : Frame) : Type 0 where
  same_status : f.status ≡ status
  error : HelperError
  same_code : f.error_code ≡ some error
  text : o ≡ some (error_text error)
  legal : IsLegal status (some error)

frame_with-IsCoded :
    (status : CommitStatus) (code : List ℕ) (f : Frame)
    → ((e : HelperError) → IsLegal status (some e))
    → frame_with status (find_error code helper_error_codes) ≡ some f
    → IsCoded status (some code) f
frame_with-IsCoded status code f legal h =
    elim (Option-cases (find_error code helper_error_codes)) [
      | inl unknown ↦ ground (arith, unknown)
      | inr (e, found) ↦
          (let same = subst (λ o. frame_with status o ≡ some f) found h in
            record {
              same_status = ground (arith, same);
              error = e;
              same_code = ground (arith, same);
              text = ap some (find_error-exact code helper_error_codes e found);
              legal = legal e;
            })
    ]

frame_of-IsCoded :
    (status : CommitStatus) (o : Option (List ℕ)) (f : Frame)
    → frame_of status o ≡ some f
    → IsCoded status o f
unfolding frame_of
frame_of-IsCoded status none f h = ground arith
frame_of-IsCoded committed (some code) f h = ground arith
frame_of-IsCoded before_commit (some code) f h = frame_with-IsCoded before_commit code f (λ e. tt) h
frame_of-IsCoded commit_unknown (some code) f h =
    frame_with-IsCoded commit_unknown code f (λ e. tt) h

-- What the frame of a status says, and the text that follows the status.
record IsEnd (status : CommitStatus) (cs : List ℕ) (f : Frame) : Type 0 where
  same_status : f.status ≡ status
  text : cs ≡ end_text f.error_code
  legal : IsLegal status f.error_code

read_end-IsEnd :
    (status : CommitStatus) (cs : List ℕ) (f : Frame)
    → read_end status cs ≡ some f
    → IsEnd status cs f
unfolding read_end
read_end-IsEnd status cs f h = elim (Bool-cases (same_text newline cs)) [
  | inl bare ↦
      (let same : some (record { status = status; error_code = none }) ≡ some f =
          ground (arith, bare) in
        let no_code : f.error_code ≡ none = ground (arith, same) in
        record {
          same_status = ground (arith, same);
          text = subst (λ o. cs ≡ end_text o) (sym no_code) (same_text-exact newline cs bare);
          legal = subst (λ o. IsLegal status o) (sym no_code) tt;
        })
  | inr more ↦ elim (Option-cases (strip error_start cs)) [
    | inl other ↦ ground (arith, other, more)
    | inr (rest, found) ↦
        (let coded =
            frame_of-IsCoded status (some_word (word_line rest)) f (ground (arith, more, found)) in
          let word = some_word-exact (word_line rest) (error_text coded.error) coded.text in
          record {
            same_status = coded.same_status;
            text =
                subst (λ o. cs ≡ end_text o) (sym coded.same_code)
                  (strip-exact error_start cs rest found
                    ∙ ap (λ t. error_start ++ t)
                        (word_line-exact rest (error_text coded.error) word));
            legal = subst (λ o. IsLegal status o) (sym coded.same_code) coded.legal;
          })
  ]
]

-- What a frame says, and its text.
record IsPrinted (cs : List ℕ) (f : Frame) : Type 0 where
  text : cs ≡ status_text f.status ++ end_text f.error_code
  legal : IsLegal f.status f.error_code

read_status-IsPrinted :
    (status : CommitStatus) (cs : List ℕ) (f : Frame)
    → read_status status cs ≡ some f
    → IsPrinted cs f
unfolding read_status
read_status-IsPrinted status cs f h = elim (Option-cases (strip (status_text status) cs)) [
  | inl other ↦ ground (arith, other)
  | inr (rest, found) ↦
      (let ended = read_end-IsEnd status rest f (ground (arith, found)) in
        record {
          text =
              subst (λ t. cs ≡ status_text t ++ end_text f.error_code) (sym ended.same_status)
                (strip-exact (status_text status) cs rest found
                  ∙ ap (λ t. status_text status ++ t) ended.text);
          legal = subst (λ t. IsLegal t f.error_code) (sym ended.same_status) ended.legal;
        })
]

or_else-cases :
    (o p : Option Frame) (f : Frame) → or_else o p ≡ some f → (o ≡ some f) ⊎ (p ≡ some f)
or_else-cases none p f h = inr h
or_else-cases (some g) p f h = inl h

read_frame-IsPrinted : (cs : List ℕ) (f : Frame) → read_frame cs ≡ some f → IsPrinted cs f
unfolding read_frame
read_frame-IsPrinted cs f h = elim (or_else-cases (read_status before_commit cs) _ f h) [
  | inl first ↦ read_status-IsPrinted before_commit cs f first
  | inr later ↦ elim (or_else-cases (read_status committed cs) _ f later) [
    | inl second ↦ read_status-IsPrinted committed cs f second
    | inr third ↦ read_status-IsPrinted commit_unknown cs f third
  ]
]

pub parse_frame-exact :
    (stdout : String) (f : Frame)
    → parse_frame stdout false ≡ some f
    → IsLegal f.status f.error_code × (units stdout ≡ frame_text f)
unfolding parse_frame
parse_frame-exact stdout f h = elim (Option-cases (strip frame_start (units stdout))) [
  | inl other ↦ ground (arith, other)
  | inr (rest, found) ↦
      (let printed = read_frame-IsPrinted rest f (ground (arith, found)) in
        (
          printed.legal,
          strip-exact frame_start (units stdout) rest found
              ∙ ap (λ t. frame_start ++ t) printed.text,
        ))
]
