-- ===== src/Security/Pairing.antt =====
-- security/pairing.ts: `PairingStore`, its clients by their ids in the order in which they were added.
-- The credential that `createCredential` makes is an argument.
pub mod Bounds
pub mod Sessions
use ha_mcp.Prelude.{
  ℕ, suc, ◌*◌, String, Bool, true, false, not, ◌&&◌, Option, none, some, List, [], ◌∷◌, ◌==◌,
  string_eq, if◌then◌else◌, length, leb, ltb, map_get, map_set,
}
use ha_mcp.Prelude.Results.{Result, ok, err, ◌>>=◌, ◌>>◌, guard}

-- `CredentialRecord`.
pub record Credential : Type 0 where
  pub client_id : String
  pub salt : String
  pub hash : String
  pub created_at : String
  pub revoked_at : Option String

-- `!x.revokedAt`.
unfoldable pub is_unset : Option String → Bool
is_unset none = true
is_unset (some date) = date == ""

abbrev pub is_active : Credential → Bool
is_active c = is_unset c.revoked_at

abbrev pub Clients : Type 0
Clients = List (String × Credential)

unfoldable pub count_active : Clients → ℕ
count_active [] = 0
count_active ((id, c) ∷ clients) =
    let rest = count_active clients in if is_active c then suc rest else rest

-- `filter((x) => x.revokedAt)` of the values.
unfoldable pub revoked_of : Clients → List Credential
revoked_of [] = []
revoked_of ((id, c) ∷ clients) =
    let rest = revoked_of clients in if is_active c then rest else c ∷ rest

-- `Map.delete`.
unfoldable pub delete_client : String → Clients → Clients
delete_client id [] = []
delete_client id ((j, c) ∷ clients) =
    let kept = delete_client id clients in if j == id then clients else (j, c) ∷ kept

abbrev pub date_or_empty : Option String → String
date_or_empty none = ""
date_or_empty (some date) = date

-- The loop that deletes: it stops once there is room.
unfoldable pub evict : ℕ → List Credential → Clients → Clients
evict limit [] clients = clients
evict limit (c ∷ cs) clients =
    let after = delete_client c.client_id clients in
    let more = evict limit cs after in if ltb (length after) limit then after else more

-- The order of `localeCompare` is the platform's: `is_before a b` says that it is not positive.
module _ (is_before : String → String → Bool) where
  unfoldable pub insert_revoked : Credential → List Credential → List Credential
  insert_revoked c [] = c ∷ []
  insert_revoked c (x ∷ xs) =
      let later = x ∷ insert_revoked c xs in
      if is_before (date_or_empty x.revoked_at) (date_or_empty c.revoked_at)
      then later
      else c ∷ x ∷ xs

  unfoldable pub sort_revoked : List Credential → List Credential → List Credential
  sort_revoked sorted [] = sorted
  sort_revoked sorted (c ∷ cs) = sort_revoked (insert_revoked c sorted) cs

  unfoldable pub make_room : ℕ → Clients → Clients
  make_room max_clients clients =
      if leb (max_clients * 4) (length clients)
      then evict (max_clients * 4) (sort_revoked [] (revoked_of clients)) clients
      else clients

  -- `pair` up to `createCredential`.
  unfoldable pub begin_pair : ℕ → Clients → Result String Clients
  begin_pair max_clients clients = do
    guard (not (leb max_clients (count_active clients))) "Maximum paired clients reached"
    ok (make_room max_clients clients)

  abbrev pub add_credential :
      Credential → Clients → Result String Clients → Result String Credential × Clients
  add_credential c clients (err e) = (err e, clients)
  add_credential c clients (ok roomy) = (ok c, map_set c.client_id c roomy)

  -- `pair`.
  unfoldable pub pair : ℕ → Credential → Clients → Result String Credential × Clients
  pair max_clients c clients = add_credential c clients (begin_pair max_clients clients)

-- `revoke` of what is found, without the listeners.
unfoldable pub revoke_found : String → String → Clients → Option Credential → Bool × Clients
revoke_found time id clients none = (false, clients)
revoke_found time id clients (some c) =
    if is_active c
    then (true, map_set id (record c { revoked_at = some time }) clients)
    else (false, clients)

-- `revoke`, at a time of `new Date().toISOString()`.
unfoldable pub revoke : String → String → Clients → Bool × Clients
revoke time id clients = revoke_found time id clients (map_get id clients)

-- `rotate`.
unfoldable pub rotate :
    (String → String → Bool)
    → ℕ
    → String
    → String
    → Credential
    → Clients
    → Result String Credential × Clients
rotate is_before max_clients time id c clients =
    let revoked = revoke time id clients in
    if revoked.0 then pair is_before max_clients c revoked.1 else (err "Unknown client", revoked.1)

-- `list`, without the salts and the hashes: the id, the time of the creation, the time of the
-- revocation if there is one.
unfoldable pub list_clients : Clients → List (String × String × Option String)
list_clients [] = []
list_clients ((id, c) ∷ clients) =
    let rest = list_clients clients in
    if is_active c
    then (c.client_id, c.created_at, none) ∷ rest
    else (c.client_id, c.created_at, c.revoked_at) ∷ rest

unfoldable pub insert_all : List Credential → Clients → Clients
insert_all [] clients = clients
insert_all (c ∷ cs) clients = insert_all cs (map_set c.client_id c clients)

-- `importRecords`.
unfoldable pub import_records : ℕ → List Credential → Clients → Result String (Unit {0}) × Clients
import_records max_clients cs clients =
    if leb (length cs) (max_clients * 4)
    then (ok tt, insert_all cs [])
    else (err "Pairing store exceeds retention limit", clients)

-- `derive secret salt` is the digest of scrypt, as text. The arguments after it are the parts of
-- the bearer between its dots.
module _ (derive : String → String → String) where
  unfoldable pub verify_parts : Credential → List String → Bool
  verify_parts c (id ∷ secret ∷ []) =
      not (id == "") && not (secret == "") && id == c.client_id && derive secret c.salt == c.hash
  verify_parts c (id ∷ secret ∷ extra ∷ rest) =
      not (id == "")
      && not (secret == "")
      && extra == ""
      && id == c.client_id
      && derive secret c.salt == c.hash
  verify_parts c _ = false

  unfoldable pub authenticate_found : String → List String → Option Credential → Option String
  authenticate_found id parts none = none
  authenticate_found id parts (some c) =
      if is_active c && verify_parts c parts then some id else none

  -- `authenticate`.
  unfoldable pub authenticate : List String → Clients → Option String
  authenticate [] clients = none
  authenticate (id ∷ parts) clients =
      if id == "" then none else authenticate_found id (id ∷ parts) (map_get id clients)
