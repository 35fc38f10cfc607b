-- ===== src/Security/Pairing/Bounds.antt =====
-- security/pairing.ts: how many clients the store holds.
use ha_mcp.Prelude.{
  ℕ, suc, ◌*◌, ◌+◌, ◌≤◌, ◌<◌, ◌≡◌, refl, sym, ap, subst, String, Bool, false, some, List, [], ◌∷◌,
  ◌==◌, string_eq, beq_refl, inl, inr, Bool-cases, length, leb, ltb, map_get, map_set, All-map, All,
  arith,
}
use ha_mcp.Security.Pairing.{
  Credential, is_active, Clients, count_active, revoked_of, delete_client, evict, date_or_empty,
  insert_revoked, sort_revoked, make_room,
}

-- A credential stands under its own id.
pub record Own (entry : String × Credential) : Type 0 where
  pub own : entry.1.client_id ≡ entry.0

record Stored (clients : Clients) (c : Credential) : Type 0 where
  value : Credential
  found : map_get c.client_id clients ≡ some value

count_revoked :
    (clients : Clients) → count_active clients + length (revoked_of clients) ≡ length clients
unfolding count_active revoked_of
count_revoked [] = omega arith
count_revoked ((id, c) ∷ clients) = ground (arith, count_revoked clients)

delete_client-length :
    (id : String) (c : Credential) (clients : Clients)
    → map_get id clients ≡ some c
    → suc (length (delete_client id clients)) ≡ length clients
unfolding delete_client map_get
delete_client-length id c [] h = absurd (ground arith)
delete_client-length id c ((j, d) ∷ clients) h = elim (Bool-cases (j == id)) [
  | inl same ↦ rw same refl
  | inr other ↦ rw other (ap suc (delete_client-length id c clients (rw other at h)))
]

pub delete_client-active :
    (id : String) (clients : Clients)
    → count_active (delete_client id clients) ≤ count_active clients
unfolding delete_client count_active
delete_client-active id [] = omega arith
delete_client-active id ((j, d) ∷ clients) = ground (arith, delete_client-active id clients)

pub delete_client-Own :
    (id : String) (clients : Clients) → All Own clients → All Own (delete_client id clients)
unfolding delete_client
delete_client-Own id [] h = tt
delete_client-Own id ((j, d) ∷ clients) (p, h) = elim (Bool-cases (j == id)) [
  | inl same ↦ rw same h
  | inr other ↦ rw other (p, delete_client-Own id clients h)
]

pub set-active :
    (id : String) (c : Credential) (clients : Clients)
    → count_active (map_set id c clients) ≤ suc (count_active clients)
unfolding map_set count_active
set-active id c [] = ground arith
set-active id c ((j, d) ∷ clients) = ground (arith, set-active id c clients)

pub set-active_revoked :
    (id : String) (c d : Credential) (clients : Clients)
    → map_get id clients ≡ some d
    → is_active c ≡ false
    → count_active (map_set id c clients) ≤ count_active clients
unfolding map_set map_get count_active
set-active_revoked id c d [] h r = absurd (ground arith)
set-active_revoked id c d ((j, e) ∷ clients) h r = elim (Bool-cases (j == id)) [
  | inl same ↦ ground (arith, same)
  | inr other ↦ ground (arith, other, set-active_revoked id c d clients (rw other at h) r)
]

-- What a deletion keeps, the eviction keeps.
pub evict-keeps :
    (P : Clients → Type 0) (limit : ℕ) (cs : List Credential) (clients : Clients)
    → ((id : String) (m : Clients) → P m → P (delete_client id m))
    → P clients
    → P (evict limit cs clients)
unfolding evict
evict-keeps P limit [] clients step h = h
evict-keeps P limit (c ∷ cs) clients step h =
    let after = delete_client c.client_id clients in
    elim (Bool-cases (ltb (length after) limit)) [
      | inl roomy ↦ rw roomy (step c.client_id clients h)
      | inr full ↦ rw full (evict-keeps P limit cs after step (step c.client_id clients h))
    ]

evict-roomy :
    (limit : ℕ) (cs : List Credential) (clients : Clients)
    → All (Stored clients) cs
    → 1 ≤ length cs
    → length clients ≤ limit
    → length (evict limit cs clients) < limit
unfolding evict
evict-roomy limit [] clients h some_there few = absurd (omega (arith, some_there))
evict-roomy limit (c ∷ cs) clients (s, h) some_there few =
    ground (arith, few, delete_client-length c.client_id s.value clients s.found)

Stored-cons :
    (j : String) (d : Credential) (clients : Clients) (c : Credential)
    → Stored clients c
    → Stored ((j, d) ∷ clients) c
unfolding map_get
Stored-cons j d clients c s = elim (Bool-cases (j == c.client_id)) [
  | inl same ↦ record { value = d; found = rw same refl }
  | inr other ↦ record { value = s.value; found = rw other s.found }
]

revoked_of-Stored :
    (clients : Clients) → All Own clients → All (Stored clients) (revoked_of clients)
unfolding revoked_of map_get
revoked_of-Stored [] h = tt
revoked_of-Stored ((j, d) ∷ clients) (p, h) =
    let later =
      All-map (Stored clients) (Stored ((j, d) ∷ clients)) (Stored-cons j d clients)
        (revoked_of clients) (revoked_of-Stored clients h) in
    elim (Bool-cases (is_active d)) [
      | inl active ↦ rw active later
      | inr gone ↦ rw gone (
        record {
          value = d;
          found =
              subst (λ i. map_get i ((j, d) ∷ clients) ≡ some d) (sym p.own) (rw (beq_refl j) refl);
        },
        later,
      )
    ]

module _ (is_before : String → String → Bool) where
  insert_revoked-All :
      (P : Credential → Type 0) (c : Credential) (cs : List Credential)
      → P c
      → All P cs
      → All P (insert_revoked is_before c cs)
  unfolding insert_revoked
  insert_revoked-All P c [] p h = (p, tt)
  insert_revoked-All P c (x ∷ xs) p (q, h) =
      elim (Bool-cases (is_before (date_or_empty x.revoked_at) (date_or_empty c.revoked_at))) [
        | inl after ↦ rw after (q, insert_revoked-All P c xs p h)
        | inr before ↦ rw before (p, (q, h))
      ]

  sort_revoked-All :
      (P : Credential → Type 0) (sorted cs : List Credential)
      → All P sorted
      → All P cs
      → All P (sort_revoked is_before sorted cs)
  unfolding sort_revoked
  sort_revoked-All P sorted [] h k = h
  sort_revoked-All P sorted (c ∷ cs) h (p, k) =
      sort_revoked-All P (insert_revoked is_before c sorted) cs (insert_revoked-All P c sorted p h)
        k

  insert_revoked-length :
      (c : Credential) (cs : List Credential)
      → length (insert_revoked is_before c cs) ≡ suc (length cs)
  unfolding insert_revoked
  insert_revoked-length c [] = refl
  insert_revoked-length c (x ∷ xs) = ground (arith, insert_revoked-length c xs)

  sort_revoked-length :
      (sorted cs : List Credential)
      → length (sort_revoked is_before sorted cs) ≡ length sorted + length cs
  unfolding sort_revoked
  sort_revoked-length sorted [] = omega arith
  sort_revoked-length sorted (c ∷ cs) = omega (
    arith,
    sort_revoked-length (insert_revoked is_before c sorted) cs,
    insert_revoked-length c sorted,
  )

  pub make_room-roomy :
      (max_clients : ℕ) (clients : Clients)
      → All Own clients
      → count_active clients < max_clients
      → length clients ≤ max_clients * 4
      → length (make_room is_before max_clients clients) < max_clients * 4
  unfolding make_room
  make_room-roomy max_clients clients own active few =
      let sorted = sort_revoked is_before [] (revoked_of clients) in
      let counted = sort_revoked-length [] (revoked_of clients) in
      let all = count_revoked clients in
      elim (Bool-cases (leb (max_clients * 4) (length clients))) [
        | inr roomy ↦ ground (arith, roomy)
        | inl full ↦
            (let crowded : max_clients * 4 ≤ length clients = ground (arith, full) in
              let some_there : 1 ≤ length sorted = omega (arith, counted, all, active, crowded) in
              rw full (
                evict-roomy (max_clients * 4) sorted clients
                  (sort_revoked-All (Stored clients) [] (revoked_of clients) tt
                    (revoked_of-Stored clients own))
                  some_there few))
      ]
