-- ===== src/Security/Pairing/Sessions.antt =====
-- security/pairing.ts: the store over a whole session.
use ha_mcp.Prelude.{
  ℕ, ◌*◌, ◌+◌, List, ◌∷◌, if◌then◌else◌, ◌≤◌, ◌<◌, ◌≡◌, refl, String, Bool, false, some, [], inl,
  inr, Bool-cases, Option-cases, length, leb, map_get, map_set, map_get-All, map_set-All, All,
  arith, map_set-length, map_set-length_present,
}
use ha_mcp.Security.Pairing.{
  Credential, is_unset, is_active, Clients, count_active, revoked_of, sort_revoked, delete_client,
  make_room, begin_pair, pair, revoke_found, revoke, rotate, insert_all, import_records,
}
use ha_mcp.Security.Pairing.Bounds.{
  Own, delete_client-active, delete_client-Own, set-active, set-active_revoked, evict-keeps,
  make_room-roomy,
}

-- The clients that the store can hold, where `peak` of them may not be revoked.
pub record IsBounded (max_clients peak : ℕ) (clients : Clients) : Type 0 where
  pub active : count_active clients ≤ peak
  pub least : max_clients ≤ peak
  pub few : length clients ≤ max_clients * 4
  pub own : All Own clients

abbrev pub larger : ℕ → ℕ → ℕ
larger m n = if leb m n then n else m

module _ (is_before : String → String → Bool) (max_clients : ℕ) where
  -- The peak after `importRecords`: an import that is accepted replaces the clients.
  abbrev pub peak_after : List Credential → ℕ → ℕ
  peak_after cs peak =
      if leb (length cs) (max_clients * 4)
      then larger max_clients (count_active (insert_all cs []))
      else peak

  -- A store after any calls on an empty one, each of which runs to its end before the next. The peak
  -- is `maxClients`, or the clients that the last import left active if there are more of them.
  pub data Session : ℕ → Clients → Type 0 where
    empty : Session max_clients []
    paired :
        {peak : ℕ} {clients : Clients} (c : Credential)
        → Session peak clients
        → Session peak (pair is_before max_clients c clients).1
    revoked :
        {peak : ℕ} {clients : Clients} (time id : String)
        → is_unset (some time) ≡ false
        → Session peak clients
        → Session peak (revoke time id clients).1
    rotated :
        {peak : ℕ} {clients : Clients} (time id : String) (c : Credential)
        → is_unset (some time) ≡ false
        → Session peak clients
        → Session peak (rotate is_before max_clients time id c clients).1
    imported :
        {peak : ℕ} {clients : Clients} (cs : List Credential)
        → Session peak clients
        → Session (peak_after cs peak) (import_records max_clients cs clients).1

  make_room-keeps :
      (P : Clients → Type 0) (clients : Clients)
      → ((id : String) (m : Clients) → P m → P (delete_client id m))
      → P clients
      → P (make_room is_before max_clients clients)
  unfolding make_room
  make_room-keeps P clients step h = elim (Bool-cases (leb (max_clients * 4) (length clients))) [
    | inr roomy ↦ rw roomy h
    | inl full ↦ rw full (
        evict-keeps P (max_clients * 4) (sort_revoked is_before [] (revoked_of clients)) clients
          step h)
  ]

  add_credential-IsBounded :
      (peak : ℕ) (c : Credential) (clients : Clients)
      → All Own clients
      → count_active clients < max_clients
      → length clients < max_clients * 4
      → max_clients ≤ peak
      → IsBounded max_clients peak (map_set c.client_id c clients)
  add_credential-IsBounded peak c clients own active few least = record {
    least = least;
    active = omega (arith, least, active, set-active c.client_id c clients);
    few = omega (arith, few, map_set-length c.client_id c clients);
    own = map_set-All Own c.client_id c clients (record { own = refl }) own;
  }

  pair-IsBounded :
      (peak : ℕ) (c : Credential) (clients : Clients)
      → IsBounded max_clients peak clients
      → IsBounded max_clients peak (pair is_before max_clients c clients).1
  unfolding pair begin_pair
  pair-IsBounded peak c clients b = elim (Bool-cases (leb max_clients (count_active clients))) [
    | inl full ↦ rw full b
    | inr free ↦
        (let room : count_active clients < max_clients = ground (arith, free) in
          let kept =
            make_room-keeps (λ m. count_active m ≤ count_active clients) clients
              (λ id m h. omega (arith, h, delete_client-active id m)) (omega arith) in
          rw free (
            add_credential-IsBounded peak c (make_room is_before max_clients clients)
              (make_room-keeps (All Own) clients delete_client-Own b.own)
              (omega (arith, kept, room))
              (make_room-roomy is_before max_clients clients b.own room b.few) b.least))
  ]

  revoke-IsBounded :
      (peak : ℕ) (time id : String) (clients : Clients)
      → is_unset (some time) ≡ false
      → IsBounded max_clients peak clients
      → IsBounded max_clients peak (revoke time id clients).1
  unfolding revoke revoke_found
  revoke-IsBounded peak time id clients set b = elim (Option-cases (map_get id clients)) [
    | inl missing ↦ rw missing b
    | inr (c, found) ↦ rw found (elim (Bool-cases (is_active c)) [
      | inr gone ↦ rw gone b
      | inl active ↦
          (let c' : Credential = record c { revoked_at = some time } in
            let own : Own (id, c) = map_get-All Own id c clients found b.own in
            let own' : Own (id, c') = record { own = own.own } in
            let after : IsBounded max_clients peak (map_set id c' clients) = record {
              least = b.least;
              active = omega (arith, b.active, set-active_revoked id c' c clients found set);
              few = omega (arith, b.few, map_set-length_present id c' c clients found);
              own = map_set-All Own id c' clients own' b.own;
            } in
            rw active after)
    ])
  ]

  rotate-IsBounded :
      (peak : ℕ) (time id : String) (c : Credential) (clients : Clients)
      → is_unset (some time) ≡ false
      → IsBounded max_clients peak clients
      → IsBounded max_clients peak (rotate is_before max_clients time id c clients).1
  unfolding rotate
  rotate-IsBounded peak time id c clients set b =
      let after = revoke-IsBounded peak time id clients set b in
      elim (Bool-cases (revoke time id clients).0) [
        | inl done ↦ rw done (pair-IsBounded peak c (revoke time id clients).1 after)
        | inr refused ↦ rw refused after
      ]

  insert_all-length :
      (cs : List Credential) (clients : Clients)
      → length (insert_all cs clients) ≤ length cs + length clients
  unfolding insert_all
  insert_all-length [] clients = omega arith
  insert_all-length (c ∷ cs) clients = omega (
    arith,
    insert_all-length cs (map_set c.client_id c clients),
    map_set-length c.client_id c clients,
  )

  insert_all-Own :
      (cs : List Credential) (clients : Clients) → All Own clients → All Own (insert_all cs clients)
  unfolding insert_all
  insert_all-Own [] clients own = own
  insert_all-Own (c ∷ cs) clients own =
      insert_all-Own cs (map_set c.client_id c clients)
        (map_set-All Own c.client_id c clients (record { own = refl }) own)

  import_records-IsBounded :
      (peak : ℕ) (cs : List Credential) (clients : Clients)
      → IsBounded max_clients peak clients
      → IsBounded max_clients (peak_after cs peak) (import_records max_clients cs clients).1
  unfolding import_records
  import_records-IsBounded peak cs clients b =
      elim (Bool-cases (leb (length cs) (max_clients * 4))) [
        | inr over ↦ rw over b
        | inl fits ↦ rw fits (record {
          active = ground arith;
          least = ground arith;
          few = ground (arith, fits, insert_all-length cs []);
          own = insert_all-Own cs [] tt;
        })
      ]

  -- Whatever calls are made on an empty store, one after the other: at most `maxClients` of its
  -- clients are not revoked, or as many as the last import left so if these are more; it holds at
  -- most four times `maxClients`, and each stands under its own id.
  pub Session-IsBounded :
      {peak : ℕ} {clients : Clients} → Session peak clients → IsBounded max_clients peak clients
  unfolding count_active
  Session-IsBounded empty = record {
    active = omega arith;
    least = omega arith;
    few = omega arith;
    own = tt;
  }
  Session-IsBounded {peak} (paired {clients = clients} c s) =
      pair-IsBounded peak c clients (Session-IsBounded s)
  Session-IsBounded {peak} (revoked {clients = clients} time id set s) =
      revoke-IsBounded peak time id clients set (Session-IsBounded s)
  Session-IsBounded {peak} (rotated {clients = clients} time id c set s) =
      rotate-IsBounded peak time id c clients set (Session-IsBounded s)
  Session-IsBounded (imported {peak} {clients} cs s) =
      import_records-IsBounded peak cs clients (Session-IsBounded s)
