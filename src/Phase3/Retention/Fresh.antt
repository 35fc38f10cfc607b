-- ===== src/Phase3/Retention/Fresh.antt =====
-- phase3/retention.ts: a fresh epoch stays fresh while its stores are made, and ends as a valid one.
use ha_mcp.Prelude.{
  ◌≡◌, refl, sym, subst, inl, inr, String, true, false, ◌&&◌, ◌||◌, some, List, [], ◌∷◌, ◌==◌,
  string_eq, beq→eq, beq_refl, every, includes, map_get, map_set, arith, eq_iff, Bool-cases,
}
use ha_mcp.Phase3.Retention.Epochs.{
  Entry, Epoch, store_names, names_of, is_store_directory, is_valid_epoch, is_fresh_entry, is_fresh,
}

-- A fresh epoch that has the stores `done`.
pub record HasStores (done : List String) (f : Epoch) : Type 0 where
  pub fresh : is_fresh f ≡ true
  pub made : every (λ name. includes (names_of f.entries) name) done ≡ true

map_set-fresh :
    (name : String) (e : Entry) (entries : List (String × Entry))
    → is_fresh_entry (name, e) ≡ true
    → every is_fresh_entry entries ≡ true
    → every is_fresh_entry (map_set name e entries) ≡ true
unfolding map_set
map_set-fresh name e [] one all = rw one refl
map_set-fresh name e ((j, x) ∷ entries) one all = elim (Bool-cases (j == name)) [
  | inl same ↦
      rw (same, subst (λ i. is_fresh_entry (i, e) ≡ true) (sym (beq→eq j name same)) one)
        (ground (arith, all))
  | inr other ↦ rw other (ground (arith, all, map_set-fresh name e entries one))
]

includes-map_set :
    (name j : String) (e : Entry) (entries : List (String × Entry))
    → includes (names_of (map_set name e entries)) j ≡ (name == j || includes (names_of entries) j)
unfolding map_set names_of
includes-map_set name j e [] = refl
includes-map_set name j e ((i, x) ∷ entries) =
    ground (arith, eq_iff name j, eq_iff i name, eq_iff i j, includes-map_set name j e entries)

made-map_set :
    (name : String) (e : Entry) (entries : List (String × Entry)) (done : List String)
    → every (λ j. includes (names_of entries) j) done ≡ true
    → every (λ j. includes (names_of (map_set name e entries)) j) done ≡ true
made-map_set name e entries [] h = refl
made-map_set name e entries (j ∷ done) h =
    ground (arith, includes-map_set name j e entries, made-map_set name e entries done)

-- A new entry of a store.
pub set_store-HasStores :
    (name : String) (e : Entry) (done : List String) (f g : Epoch)
    → g.is_private ≡ f.is_private
    → g.entries ≡ map_set name e f.entries
    → is_fresh_entry (name, e) ≡ true
    → HasStores done f
    → HasStores (name ∷ done) g
unfolding is_fresh
set_store-HasStores name e done f g same_private same_entries one h = record {
  fresh =
      subst (λ p. (p && every is_fresh_entry g.entries) ≡ true) (sym same_private)
        (subst (λ es. (f.is_private && every is_fresh_entry es) ≡ true) (sym same_entries)
          (ground (arith, h.fresh, map_set-fresh name e f.entries one)));
  made =
      subst (λ es. every (λ j. includes (names_of es) j) (name ∷ done) ≡ true) (sym same_entries)
        (ground (
          arith,
          includes-map_set name name e f.entries,
          beq_refl name,
          made-map_set name e f.entries done h.made,
        ));
}

-- The name of an entry of a fresh epoch.
fresh-is_store :
    (name : String) (e : Entry) → is_fresh_entry (name, e) ≡ true → includes store_names name ≡ true
unfolding is_fresh_entry
fresh-is_store name e h = ground (arith, h)

fresh-is_directory :
    (name : String) (e : Entry)
    → is_fresh_entry (name, e) ≡ true
    → is_store_directory (some e) ≡ true
unfolding is_fresh_entry
fresh-is_directory name e h = ground (arith, h)

get-is_directory :
    (name : String) (entries : List (String × Entry))
    → every is_fresh_entry entries ≡ true
    → includes (names_of entries) name ≡ true
    → is_store_directory (map_get name entries) ≡ true
unfolding map_get names_of
get-is_directory name [] all found = ground arith
get-is_directory name ((j, e) ∷ entries) all found = elim (Bool-cases (j == name)) [
  | inl same ↦ rw same (fresh-is_directory j e (ground (arith, all)))
  | inr other ↦
      rw other (get-is_directory name entries (ground (arith, all)) (ground (arith, other, found)))
]

fresh_cons :
    (x : String × Entry) (entries : List (String × Entry))
    → every is_fresh_entry (x ∷ entries) ≡ true
    → (is_fresh_entry x ≡ true) × (every is_fresh_entry entries ≡ true)
fresh_cons x entries all = ground (arith, all)

names-are_stores :
    (entries : List (String × Entry))
    → every is_fresh_entry entries ≡ true
    → every (λ name. includes store_names name || name == "operator.jsonl") (names_of entries)
      ≡ true
unfolding names_of
names-are_stores [] all = refl
names-are_stores ((j, e) ∷ entries) all =
    let (one, rest) = fresh_cons (j, e) entries all in
    ground (arith, fresh-is_store j e one, names-are_stores entries rest)

store_is_no_audit :
    (name : String) → includes store_names name ≡ true → (name == "operator.jsonl") ≡ false
store_is_no_audit name h = elim (Bool-cases (name == "operator.jsonl")) [
  | inr other ↦ other
  | inl same ↦
      absurd (
        no_store (subst (λ n. includes store_names n ≡ true) (beq→eq name "operator.jsonl" same) h))
]
  where
    no_store : false ≡ true → ⊥
    no_store e = ground (arith, e)

names-have_no_audit :
    (entries : List (String × Entry))
    → every is_fresh_entry entries ≡ true
    → includes (names_of entries) "operator.jsonl" ≡ false
unfolding names_of
names-have_no_audit [] all = refl
names-have_no_audit ((j, e) ∷ entries) all =
    let (one, rest) = fresh_cons (j, e) entries all in
    ground (arith, store_is_no_audit j (fresh-is_store j e one), names-have_no_audit entries rest)

made-are_directories :
    (entries : List (String × Entry)) (names : List String)
    → every is_fresh_entry entries ≡ true
    → every (λ name. includes (names_of entries) name) names ≡ true
    → every (λ name. is_store_directory (map_get name entries)) names ≡ true
made-are_directories entries [] all made = refl
made-are_directories entries (name ∷ names) all made =
    ground (arith, get-is_directory name entries all, made-are_directories entries names all)

-- A fresh epoch with its three stores and a header is valid.
pub HasStores-is_valid :
    (f : Epoch)
    → HasStores store_names f
    → f.evidence.has_valid_header ≡ true
    → is_valid_epoch f ≡ true
unfolding is_valid_epoch is_fresh
HasStores-is_valid f h header =
    let all : every is_fresh_entry f.entries ≡ true = ground (arith, h.fresh) in
    let private : f.is_private ≡ true = ground (arith, h.fresh) in
    rw
      (
        private,
        h.made,
        names-are_stores f.entries all,
        made-are_directories f.entries store_names all h.made,
        header,
        names-have_no_audit f.entries all,
      )
      refl
