-- ===== src/Phase3/Retention/Restart.antt =====
-- phase3/retention.ts: the second half of `finish`, in which the new active epoch is made and the
-- marker goes, whichever calls fail.
use ha_mcp.Prelude.{
  ◌≡◌, refl, sym, subst, ◌⊎◌, inl, inr, Bool-cases, every, ◌==◌, map_get, map_set, map_get-map_set,
  map_set-map_set, string_eq, String, Bool, true, false, Option, none, some, List, [], ◌∷◌,
  includes, arith,
}
use ha_mcp.Phase3.Effects.{Outcome, done, thrown, M, ◌>>=◌, ◌>>◌}
use ha_mcp.Phase3.Effects.Triples.{Post, Triple, bind_rule, pure_rule}
use ha_mcp.Phase3.Retention.Epochs.{
  Entry, Epoch, names_of, is_valid_epoch, store_names, is_fresh, is_fresh_entry, is_fresh_store,
}
use ha_mcp.Phase3.Retention.Disk.{
  Marker, whole, Parent, World, look, new_epoch, add_store, map_active, stage_header, link_entry,
  link_header, remove_stage, best_effort, change, staged_entry, linked_entry, set_approvals,
  approvals_of, make_active, make_store, unlink_marker, new_store, header_entry,
}
use ha_mcp.Phase3.Retention.Rotation.{
  active_of, fresh_or_none, lacks_store, make_missing, make_stores, restart, has_header,
  write_header, initialize_found, initialize_stores,
}
use ha_mcp.Phase3.Retention.Rules.{
  At, Broken, call_rule, change_rule, require_rule, look-At_rule, restate_rule,
}
use ha_mcp.Phase3.Retention.Fresh.{HasStores, HasStores-is_valid, set_store-HasStores}
use ha_mcp.Phase3.Retention.Shapes.{
  IsArchived, IsRestart, HasMade, IsOpenable, IsHeaded, IsStaged, IsStagedHeader, IsStuck, IsEnded,
}

-- The stores are there, and the approvals have their header.
abbrev pub HasHeader : Option Epoch → Type 0
HasHeader none = ⊥
HasHeader (some f) = HasStores store_names f × (f.evidence.has_valid_header ≡ true)

HasMade-IsRestart : (made : List String) (o : Option Epoch) → HasMade made o → IsRestart o
HasMade-IsRestart made none h = absurd h
HasMade-IsRestart made (some f) (h, headed) = (h.fresh, headed)

HasHeader-IsRestart : (o : Option Epoch) → HasHeader o → IsRestart o
HasHeader-IsRestart none h = absurd h
HasHeader-IsRestart (some f) (h, header) = (h.fresh, inr header)

HasHeader-IsOpenable : (o : Option Epoch) → HasHeader o → IsOpenable o
HasHeader-IsOpenable none h = absurd h
HasHeader-IsOpenable (some f) (h, header) = (HasStores-is_valid f h header, h.fresh)

new_epoch-HasMade : (device inode : String) → HasMade [] (some (new_epoch device inode))
unfolding is_fresh map_get
new_epoch-HasMade device inode = (record { fresh = refl; made = refl }, inl refl)

IsRestart-HasMade : (o : Option Epoch) (f : Epoch) → o ≡ some f → IsRestart o → HasMade [] o
IsRestart-HasMade none f same h = ground (arith, same)
IsRestart-HasMade (some g) f same (h, headed) = (record { fresh = h; made = refl }, headed)

add_store-IsHeaded : (name : String) (f : Epoch) → IsHeaded f → IsHeaded (add_store name f)
add_store-IsHeaded name f (inr valid) = inr valid
add_store-IsHeaded name f (inl absent) = inl (
    rw (map_get-map_set name "approvals" new_store f.entries)
      (elim (Bool-cases (name == "approvals")) [
        | inl same ↦ rw same refl
        | inr other ↦ rw other absent
      ]))

made_store-HasMade :
    (name : String) (made : List String) (o : Option Epoch)
    → includes store_names name ≡ true
    → HasMade made o
    → HasMade (name ∷ made) (map_active (add_store name) o)
unfolding is_fresh_entry is_fresh_store
made_store-HasMade name made none store h = h
made_store-HasMade name made (some f) store (h, headed) = (
  set_store-HasStores name new_store made f (add_store name f) refl refl (rw store refl) h,
  add_store-IsHeaded name f headed,
)

present-HasMade :
    (name : String) (made : List String) (o : Option Epoch)
    → lacks_store name o ≡ false
    → HasMade made o
    → HasMade (name ∷ made) o
present-HasMade name made none lacks h = h
present-HasMade name made (some f) lacks (h, headed) =
    (record { fresh = h.fresh; made = ground (arith, lacks, h.made) }, headed)

abbrev all_made : List String
all_made = "approvals" ∷ "checkpoints" ∷ "journal" ∷ []

-- The stores of an epoch whose approvals are set, in the order of `storeNames`.
with_header :
    (f : Epoch) → HasStores all_made f → HasStores store_names (set_approvals header_entry f)
unfolding is_fresh_entry is_fresh_store
with_header f h =
    let written : HasStores ("approvals" ∷ all_made) (set_approvals header_entry f) =
      set_store-HasStores "approvals" header_entry all_made f (set_approvals header_entry f) refl
        refl refl h in
    record { fresh = written.fresh; made = ground (arith, written.made) }

approvals-set : (entry : Entry) (f : Epoch) → approvals_of (set_approvals entry f) ≡ entry.children
approvals-set entry f = rw (map_get-map_set "approvals" "approvals" entry f.entries) refl

fresh-evidence :
    (f : Epoch)
    → is_fresh (set_approvals header_entry f) ≡ true
    → is_fresh (
        set_approvals header_entry
          (record f { evidence = record f.evidence { has_valid_header = true } }))
      ≡ true
unfolding is_fresh
fresh-evidence f h = h

stage-IsStaged :
    (o : Option Epoch) → HasMade all_made o → IsStaged (map_active (set_approvals staged_entry) o)
stage-IsStaged none h = h
stage-IsStaged (some f) (h, headed) = record {
  staged = rw (approvals-set staged_entry f) refl;
  without =
      subst (λ es. HasStores store_names (record f { entries = es }))
        (sym (map_set-map_set "approvals" staged_entry header_entry f.entries)) (with_header f h);
}

link-IsStagedHeader : (o : Option Epoch) → IsStaged o → IsStagedHeader (map_active link_entry o)
link-IsStagedHeader none h = h
link-IsStagedHeader (some f) h =
    let stores : HasStores store_names (set_approvals header_entry (link_entry f)) = record {
      fresh =
          subst (λ es. is_fresh (record (link_entry f) { entries = es }) ≡ true) (sym same)
            (fresh-evidence f h.without.fresh);
      made =
          subst (λ es. every (λ name. includes (names_of es) name) store_names ≡ true) (sym same)
            h.without.made;
    } in
    (
      record { staged = rw (approvals-set linked_entry f) refl; without = stores },
      HasStores-is_valid (set_approvals header_entry (link_entry f)) stores refl,
    )
  where
    same :
        map_set "approvals" header_entry (map_set "approvals" linked_entry f.entries)
        ≡ map_set "approvals" header_entry f.entries
    same = map_set-map_set "approvals" linked_entry header_entry f.entries

IsStagedHeader-IsStaged : (o : Option Epoch) → IsStagedHeader o → IsStaged o
IsStagedHeader-IsStaged none h = h
IsStagedHeader-IsStaged (some f) (h, valid) = h

remove-HasHeader :
    (o : Option Epoch) → IsStagedHeader o → HasHeader (map_active (set_approvals header_entry) o)
unfolding is_valid_epoch
remove-HasHeader none h = h
remove-HasHeader (some f) (h, valid) = (h.without, ground (arith, valid))

module _ (quiet : Bool) (Any : Parent → Type 0) (old : List (String × Epoch)) (e : Epoch)
    (m : Marker)
    (any_after : (p : Parent) → IsArchived old e m (some (whole m)) IsRestart p → Any p)
    (any_stuck : (p : Parent) → IsStuck old e m p → Any p)
    (any_ended : (p : Parent) → IsEnded quiet old e m p → Any p) where
  abbrev After : (Option Epoch → Type 0) → Parent → Type 0
  After Q = IsArchived old e m (some (whole m)) Q

  set_active :
      (Q R : Option Epoch → Type 0) (f : Option Epoch → Option Epoch)
      → ((o : Option Epoch) → Q o → R (f o))
      → (p : Parent) → After Q p
      → After R (record p { active = f p.active })
  set_active Q R f step p h = record {
    active = step p.active h.active;
    same_marker = h.same_marker;
    archives = h.archives;
    others = h.others;
  }

  Any-of :
      (Q : Option Epoch → Type 0)
      → ((o : Option Epoch) → Q o → IsRestart o)
      → (p : Parent) → After Q p
      → Any p
  Any-of Q restart p h = any_after p (set_active Q IsRestart (λ o. o) restart p h)

  fresh_rule :
      (ids : String × String) (f : Epoch)
      → is_fresh f ≡ true
      → Triple
          (At quiet (λ p. After IsRestart p × (p.active ≡ some f)))
          (fresh_or_none ids (some f))
          (λ _. At quiet (After (HasMade [])))
          (λ _. Broken quiet Any)
  unfolding fresh_or_none
  fresh_rule ids f fresh = bind_rule (call_rule quiet Any (λ p h. any_after p h.0)) λ _.
      restate_rule quiet Any {T = λ p. After IsRestart p × (p.active ≡ some f)} (λ p h. h)
        (λ p h. record {
          active = IsRestart-HasMade p.active f h.1 h.0.active;
          same_marker = h.0.same_marker;
          archives = h.0.archives;
          others = h.0.others;
        })
        (require_rule quiet Any (is_fresh f) _ fresh)

  fresh_or_none_rule :
      (ids : String × String) (found : Option Epoch)
      → Triple
          (At quiet (λ p. After IsRestart p × (p.active ≡ found)))
          (fresh_or_none ids found)
          (λ _. At quiet (After (HasMade [])))
          (λ _. Broken quiet Any)
  unfolding fresh_or_none
  fresh_or_none_rule (device, inode) none =
      bind_rule (call_rule quiet Any (λ p h. any_after p h.0)) λ _.
        bind_rule
          (change_rule quiet Any {T = After (HasMade [])} (make_active device inode)
            (λ p h. any_after p h.0)
            (λ p h.
              set_active IsRestart (HasMade []) (λ o. some (new_epoch device inode))
                (λ o r. new_epoch-HasMade device inode) p h.0))
          λ _.
            bind_rule (call_rule quiet Any (Any-of (HasMade []) (HasMade-IsRestart [])))
              λ _. call_rule quiet Any (Any-of (HasMade []) (HasMade-IsRestart []))
  fresh_or_none_rule ids (some f) = record {
    run = λ w h. (fresh_rule ids f (subst IsRestart h.holds.1 h.holds.0.active).0).run w h;
  }

  make_missing_rule :
      (name : String) (made : List String) (missing : Bool)
      → includes store_names name ≡ true
      → Triple
          (At quiet (λ p. After (HasMade made) p × (lacks_store name p.active ≡ missing)))
          (make_missing name missing)
          (λ _. At quiet (After (HasMade (name ∷ made))))
          (λ _. Broken quiet Any)
  unfolding make_missing
  make_missing_rule name made false store =
      restate_rule quiet Any {T = λ p. After (HasMade made) p × (lacks_store name p.active ≡ false)}
        (λ p h. h)
        (λ p h. record {
          active = present-HasMade name made p.active h.1 h.0.active;
          same_marker = h.0.same_marker;
          archives = h.0.archives;
          others = h.0.others;
        })
        (pure_rule tt)
  make_missing_rule name made true store =
      bind_rule (call_rule quiet Any (λ p h. Any-of (HasMade made) (HasMade-IsRestart made) p h.0))
        λ _.
          change_rule quiet Any (make_store name)
            (λ p h. Any-of (HasMade made) (HasMade-IsRestart made) p h.0)
            (λ p h.
              set_active (HasMade made) (HasMade (name ∷ made)) (map_active (add_store name))
                (λ o. made_store-HasMade name made o store) p h.0)

  make_store_rule :
      (name : String) (made : List String) (rest : M World (Unit {0}))
      → includes store_names name ≡ true
      → Triple
          (At quiet (After (HasMade (name ∷ made))))
          rest
          (λ _. At quiet (After (HasMade all_made)))
          (λ _. Broken quiet Any)
      → Triple
          (At quiet (After (HasMade made)))
          (look (λ p. lacks_store name p.active) >>= λ missing. (make_missing name missing >> rest))
          (λ _. At quiet (After (HasMade all_made)))
          (λ _. Broken quiet Any)
  make_store_rule name made rest store last =
      bind_rule
        (look-At_rule quiet Any (λ p. lacks_store name p.active)
          (Any-of (HasMade made) (HasMade-IsRestart made)))
        λ missing. bind_rule (make_missing_rule name made missing store) λ _. last

  make_stores_rule :
      Triple
        (At quiet (After (HasMade [])))
        (make_stores store_names)
        (λ _. At quiet (After (HasMade all_made)))
        (λ _. Broken quiet Any)
  unfolding make_stores
  make_stores_rule = make_store_rule "journal" [] _ refl (
      make_store_rule "checkpoints" ("journal" ∷ []) _ refl
        (make_store_rule "approvals" ("checkpoints" ∷ "journal" ∷ []) _ refl (pure_rule tt)))

  -- The header was written or found; the stage stays only if its removal failed.
  abbrev Headed : Parent → Type 0
  Headed p = After HasHeader p ⊎ (After IsStagedHeader p × (quiet ≡ false))

  Any-Headed : (p : Parent) → Headed p → Any p
  Any-Headed p (inl h) = Any-of HasHeader HasHeader-IsRestart p h
  Any-Headed p (inr (h, loud)) =
      any_stuck p (set_active IsStagedHeader IsStaged (λ o. o) IsStagedHeader-IsStaged p h)

  unlink-IsEnded : (p : Parent) → Headed p → IsEnded quiet old e m (unlink_marker p)
  unlink-IsEnded p (inl h) = inl (record {
    active = HasHeader-IsOpenable p.active h.active;
    same_marker = refl;
    archives = h.archives;
    others = h.others;
  })
  unlink-IsEnded p (inr (h, loud)) = inr (
    record { active = h.active; same_marker = refl; archives = h.archives; others = h.others },
    loud,
  )

  removed-Post :
      (r : Outcome (Unit {0}) × World)
      → Post (λ _. At quiet (After HasHeader)) (λ _. Broken quiet (After IsStagedHeader)) r
      → Post (λ _. At quiet Headed) (λ _. Broken quiet Any) (best_effort r)
  removed-Post (done u, w) h = record { holds = inl h.holds; calm = h.calm }
  removed-Post (thrown x, w) h = record {
    holds = inr (h.holds, h.loud);
    calm = λ q. ground (arith, q, h.loud);
  }

  remove_rule :
      Triple
        (At quiet (After IsStagedHeader))
        (λ w. best_effort (change remove_stage w))
        (λ _. At quiet Headed)
        (λ _. Broken quiet Any)
  remove_rule = record {
    run = λ w h. removed-Post (change remove_stage w) (
        (change_rule quiet (After IsStagedHeader) {T = After HasHeader} remove_stage (λ p k. k)
            (set_active IsStagedHeader HasHeader (map_active (set_approvals header_entry))
              remove-HasHeader)).run
          w h);
  }

  write_header_rule :
      Triple
        (At quiet (After (HasMade all_made)))
        write_header
        (λ _. At quiet Headed)
        (λ _. Broken quiet Any)
  unfolding write_header
  write_header_rule =
      let stuck = λ (p : Parent) (h : After IsStagedHeader p).
        any_stuck p (set_active IsStagedHeader IsStaged (λ o. o) IsStagedHeader-IsStaged p h) in
      bind_rule
        (change_rule quiet Any {T = After IsStaged} stage_header
          (Any-of (HasMade all_made) (HasMade-IsRestart all_made))
          (set_active (HasMade all_made) IsStaged (map_active (set_approvals staged_entry))
            stage-IsStaged))
        λ _. bind_rule (call_rule quiet Any any_stuck) λ _.
          bind_rule
            (change_rule quiet Any {T = After IsStagedHeader} link_header any_stuck
              (set_active IsStaged IsStagedHeader (map_active link_entry) link-IsStagedHeader))
            λ _. bind_rule (call_rule quiet Any stuck) λ _. remove_rule

  found-HasHeader :
      (f : Epoch) (p : Parent)
      → f.evidence.has_valid_header ≡ true
      → After (HasMade all_made) p × (p.active ≡ some f)
      → After HasHeader p
  found-HasHeader f p valid (h, same) = record {
    active = subst HasHeader (sym same) (
        let (stores, headed) = subst (HasMade all_made) same h.active in
        (record { fresh = stores.fresh; made = ground (arith, stores.made) }, valid));
    same_marker = h.same_marker;
    archives = h.archives;
    others = h.others;
  }

  initialize_some_rule :
      (f : Epoch)
      → IsHeaded f
      → Triple
          (At quiet (λ p. After (HasMade all_made) p × (p.active ≡ some f)))
          (initialize_found (some f))
          (λ _. At quiet Headed)
          (λ _. Broken quiet Any)
  unfolding initialize_found
  initialize_some_rule f headed = elim (Bool-cases (has_header f)) [
    | inr absent ↦ rw absent (restate_rule quiet Any (λ p h. h.0) (λ p h. h) write_header_rule)
    | inl present ↦
        (let valid : f.evidence.has_valid_header ≡ true = ground (arith, headed, present) in
          rw present (
            restate_rule quiet Any (λ p h. h) (λ p h. inl (found-HasHeader f p valid h))
              (require_rule quiet Any f.evidence.has_valid_header _ valid)))
  ]

  initialize_found_rule :
      (found : Option Epoch)
      → Triple
          (At quiet (λ p. After (HasMade all_made) p × (p.active ≡ found)))
          (initialize_found found)
          (λ _. At quiet Headed)
          (λ _. Broken quiet Any)
  initialize_found_rule none = record {
    run = λ w h. absurd (subst (HasMade all_made) h.holds.1 h.holds.0.active);
  }
  initialize_found_rule (some f) = record {
    run = λ w h.
        (initialize_some_rule f (subst (HasMade all_made) h.holds.1 h.holds.0.active).1).run w h;
  }

  initialize_stores_rule :
      Triple
        (At quiet (After (HasMade all_made)))
        initialize_stores
        (λ _. At quiet Headed)
        (λ _. Broken quiet Any)
  unfolding initialize_stores
  initialize_stores_rule =
      let made = Any-of (HasMade all_made) (HasMade-IsRestart all_made) in
      bind_rule (call_rule quiet Any made) λ _.
        bind_rule (look-At_rule quiet Any active_of made)
          λ found. bind_rule (initialize_found_rule found) λ _. call_rule quiet Any Any-Headed

  -- From the archive that was tested to the end.
  pub restart_rule :
      (ids : String × String)
      → Triple
          (At quiet (After IsRestart))
          (restart ids)
          (λ _. At quiet (IsEnded quiet old e m))
          (λ _. Broken quiet Any)
  unfolding restart
  restart_rule ids =
      let made = Any-of (HasMade all_made) (HasMade-IsRestart all_made) in
      bind_rule (look-At_rule quiet Any active_of any_after) λ found.
        bind_rule (fresh_or_none_rule ids found) λ _. bind_rule make_stores_rule λ _.
          bind_rule (call_rule quiet Any made) λ _. bind_rule initialize_stores_rule λ _.
            bind_rule (call_rule quiet Any Any-Headed) λ _.
              bind_rule (call_rule quiet Any Any-Headed) λ _.
                bind_rule (call_rule quiet Any Any-Headed) λ _.
                  bind_rule (change_rule quiet Any unlink_marker Any-Headed unlink-IsEnded)
                    λ _. call_rule quiet Any any_ended
