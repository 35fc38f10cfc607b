-- ===== src/Security/Tests/Pairing.antt =====
-- The pairing store on concrete clients.
use ha_mcp.Prelude.{◌≡◌, refl, String, Bool, true, none, some, [], ◌∷◌, map_get, map_set}
use ha_mcp.Security.Pairing.{
  Credential, is_unset, Clients, count_active, revoked_of, delete_client, evict, insert_revoked,
  sort_revoked, make_room, begin_pair, pair, revoke_found, revoke, rotate, insert_all,
  import_records,
}
use ha_mcp.Security.Pairing.Sessions.{
  Session, empty, paired, rotated, imported, IsBounded, Session-IsBounded,
}

abbrev is_before : String → String → Bool
is_before a b = true

abbrev client : String → Credential
client id = record {
  client_id = id;
  salt = "salt";
  hash = "hash";
  created_at = "2026-01-01T00:00:00Z";
  revoked_at = none;
}

abbrev one_client : Clients
one_client = (pair is_before 1 (client "a") []).1

abbrev rotated_client : Clients
rotated_client = (rotate is_before 1 "2026-01-02T00:00:00Z" "a" (client "b") one_client).1

-- Two active clients are imported where one may be paired; nothing more is paired.
abbrev imported_clients : Clients
imported_clients =
    (pair is_before 1 (client "e")
      (import_records 1 (client "c" ∷ client "d" ∷ []) rotated_client).1).1

session : Session is_before 1 2 imported_clients
unfolding is_unset insert_all map_set count_active
session = paired (client "e") (
    imported (client "c" ∷ client "d" ∷ [])
      (rotated "2026-01-02T00:00:00Z" "a" (client "b") refl (paired (client "a") empty)))

-- The store is full, and the rotation makes room.
rotated_run :
    rotated_client
    ≡ ("a", record (client "a") { revoked_at = some "2026-01-02T00:00:00Z" })
      ∷ ("b", client "b")
      ∷ []
unfolding map_get map_set is_unset count_active revoked_of delete_client evict insert_revoked
    sort_revoked make_room begin_pair pair revoke_found revoke rotate
rotated_run = refl

Session-IsBounded_example : IsBounded 1 2 imported_clients
Session-IsBounded_example = Session-IsBounded is_before 1 session
