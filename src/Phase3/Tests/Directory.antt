-- ===== src/Phase3/Tests/Directory.antt =====
-- The names, the files and the writes of the durable journal.
use ha_mcp.Prelude.{◌≡◌, ◌≤◌, refl, String, true, false, some, [], ◌∷◌, arith, map_get, map_set}
use ha_mcp.Prelude.Results.{ok}
use ha_mcp.Phase3.Records.Schema.{
  reload_target_is_bound, reload_context_is_legal, failure_is_valid, transaction_record_is_valid,
}
use ha_mcp.Phase3.Paths.{
  units, is_sha256, split_from, split, segment_ok, unit_ok, starts_with_slash, is_canonical_path,
}
use ha_mcp.Phase3.Names.{
  fits, take_match, value_from, is_lowercase_uuid, is_pending_name, parse_final_name, final_name,
}
use ha_mcp.Phase3.Names.Roundtrip.{parse_final_name-final_name}
use ha_mcp.Phase3.Journal.{starts_at_intent}
use ha_mcp.Phase3.Durable.Limits.{final_entries}
use ha_mcp.Phase3.Durable.Histories.{
  canonical_record_identity, assert_initial, flag_is_kept, is_adjacent, assert_successor,
  assert_place, check_from, insert_version, sort_from, group_from, check_groups, build_histories,
  count_entries,
}
use ha_mcp.Phase3.Durable.Histories.Sound.{IsSound}
use ha_mcp.Phase3.Durable.Scan.{
  Codec, Metadata, Item, assert_directory, assert_file, validate_children, validate_pending,
  validate_pendings, parse_envelope, read_final, read_named, read_finals, scan,
}
use ha_mcp.Phase3.Durable.Scan.Sound.{scan-IsSound}
use ha_mcp.Phase3.Tests.Sim.{formats, new_text}
use ha_mcp.Phase3.Durable.Health.{Health, new_journal, initialize}
use ha_mcp.Phase3.Durable.Health.Life.{Life, born, started, Life-IsSound}
use ha_mcp.Phase3.Tests.Durable.{uuid, intent, one_history}

parse_final_name-final_name_example :
    parse_final_name (final_name (units uuid) 7) ≡ some (units uuid, 7)
unfolding fits take_match is_lowercase_uuid
parse_final_name-final_name_example = parse_final_name-final_name (units uuid) 7 refl (omega arith)

-- A codec for one record.
abbrev codec : Codec
codec = record {
  Bytes = String;
  Json = Unit {0};
  size = λ b. 900;
  encode = λ t. t;
  decode = λ b. some b;
  parse = λ t. some tt;
  is_version_one = λ v. false;
  envelope = λ v. some (intent, new_text);
  core_json = λ r. "core";
  envelope_json = λ r d. "envelope";
  sha256 = λ t. new_text;
}

parses_intent : parse_envelope codec formats "envelope" ≡ ok intent
unfolding is_sha256 split_from split segment_ok unit_ok starts_with_slash is_canonical_path
    reload_target_is_bound reload_context_is_legal failure_is_valid transaction_record_is_valid
    parse_envelope
parses_intent = refl

abbrev a_file : Metadata
a_file = record {
  is_file = true;
  is_directory = false;
  nlink = 1;
  dev = 1;
  ino = 1;
  size = 900;
  is_private = true;
  is_owned = true;
}

abbrev an_item : Item String
an_item = record {
  name = units "aaaaaaaa-aaaa-4aaa-8aaa-aaaaaaaaaaaa.000000000000.entry";
  is_gone = false;
  metadata = a_file;
  children = [];
  child = a_file;
  is_stable = true;
  bytes = "envelope";
}

scan_run : scan codec formats (an_item ∷ []) ≡ ok one_history
unfolding is_sha256 split_from split segment_ok unit_ok starts_with_slash is_canonical_path
    reload_target_is_bound reload_context_is_legal failure_is_valid transaction_record_is_valid
    parse_envelope fits take_match is_lowercase_uuid is_pending_name parse_final_name value_from
    assert_directory assert_file validate_children validate_pending validate_pendings read_final
    read_named read_finals scan map_get map_set canonical_record_identity assert_initial
    flag_is_kept is_adjacent assert_successor assert_place check_from insert_version sort_from
    group_from check_groups build_histories starts_at_intent
scan_run = refl

scan-IsSound_example : IsSound one_history × (count_entries one_history ≤ final_entries)
scan-IsSound_example = scan-IsSound codec formats (an_item ∷ []) one_history scan_run

abbrev running : Health
running = (initialize true (ok tt) (scan codec formats (an_item ∷ [])) new_journal).1

life : Life codec formats running
life = started true (ok tt) (an_item ∷ []) born

Life-IsSound_example : IsSound running.histories
Life-IsSound_example = Life-IsSound life
