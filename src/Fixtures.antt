-- ===== src/Fixtures.antt =====
-- Concrete instances of what the development takes as parameters, and data for the tests.
pub mod SharedRun
pub mod Events
pub mod Start
use mapex_mqttbroker.Common.{
  ℕ, ◌*◌, ◌≡◌, refl, sym, subst, inl, inr, true, false, Option, none, some, [], ◌∷◌, if◌then◌else◌,
  Bool-cases, Bytes, codes, same, same_iff, same_refl,
}
use mapex_mqttbroker.Common.Int.{pos}
use mapex_mqttbroker.Acl.{parse_username}
use mapex_mqttbroker.Auth.{
  compare_local, resolve_username, is_not_found, allow, check_cert, check_password, check_entry,
  check_lookup, authenticate,
}
use mathlib.Core.Option.{some-injective}
use mapex_mqttbroker.AuthStore.{ok}
use mapex_mqttbroker.Config.{Config, minute, second}
use mapex_mqttbroker.Entry.{AuthEntry, authorizes_password, authorizes_cert_serial}
use mapex_mqttbroker.GoText.{contains_rune}
use mapex_mqttbroker.GoText.Fold.{equal_fold}
use mapex_mqttbroker.GoText.Utf8.{coerce_utf8}
use mapex_mqttbroker.HttpAuth.{transport_error, lookup_entry, handle_reply}
use mapex_mqttbroker.Json.{Json, bool, str, obj, field, end, text}
use mapex_mqttbroker.Platform.{Platform, ReadsTime}
use mapex_mqttbroker.Projection.{
  to_auth_entry, key_is, read_string, read_bool, assign_projection, assign_all, read_projection,
  decode_read_model_to_auth_entry,
}
use mapex_mqttbroker.Publisher.{fresh}
use mapex_mqttbroker.Runtime.{PluginRuntime}
use mapex_mqttbroker.Session.{remember_session, lookup_session}
use mapex_mqttbroker.TieredStore.{
  TieredAuthStore, fresh_entry, read_value, read_l1, write_l1, read_object, read_l2, read_l3,
  end_l3, fall_back, after_l2, get, invalidate,
}
use mapex_mqttbroker.TieredStore.Interface.{
  Pebble, PebbleLaws, PebbleFrame, Read, missing, value, World, found_object,
}
use mapex_mqttbroker.TieredStore.PebbleJson.{
  IsText, marshal_auth_entry, marshal_pebble_entry, unmarshal_pebble_entry, read_time, assign_entry,
  assign_entries, read_entry, assign_pebble, assign_pebbles, read_pebble,
}

-- A time is written as one item, and a hash is the password itself.
abbrev pub plain_time : Bytes → Option ℕ
plain_time [] = none
plain_time (t ∷ []) = some t
plain_time (_ ∷ _ ∷ _) = none

abbrev pub platform : Platform
platform = record {
  bcrypt = same;
  unicode_fold = λ _ _. false;
  render_time = λ t. some (t ∷ []);
  parse_time = plain_time;
}

pub platform-ReadsTime : ReadsTime platform
platform-ReadsTime t s e = subst (λ x. plain_time x ≡ some t) (some-injective (t ∷ []) s e) refl

-- A database that never fails, as a function from keys.
abbrev pub database : Pebble
database = record {
  Db = Bytes → Read;
  get = λ db key. db key;
  set = λ db key doc. (true, λ k. if same key k then value (some doc) else db k);
  delete = λ db key. (true, λ k. if same key k then missing else db k);
  close = λ _. true;
}

pub database-laws : PebbleLaws database
database-laws = record {
  get-set = λ db key doc _. rw same_refl;
  get-delete = λ db key _. rw same_refl;
}

pub database-frame : PebbleFrame database
database-frame = record {
  get-set_cases = λ db key doc other. elim (Bool-cases (same key other)) [
    | inl e ↦ inr (sym ((same_iff key other).0 e), rw e)
    | inr e ↦ inl (rw e)
  ];
  get-delete_cases = λ db key other. elim (Bool-cases (same key other)) [
    | inl e ↦ inr (sym ((same_iff key other).0 e), rw e)
    | inr e ↦ inl (rw e)
  ];
}

abbrev pub sensor : Bytes
sensor = codes "sensor7"

abbrev pub sensor_entry : AuthEntry
sensor_entry = record {
  enabled = true;
  asset_uuid = sensor;
  org_id = codes "org1";
  auth_type = codes "password";
  password_hash = codes "secret";
  current_cert_serial = [];
}

abbrev pub sensor_document : Json
sensor_document = obj (
    field (codes "assetUUID") (str sensor) (
      field (codes "orgId") (str (codes "org1")) (
        field (codes "enabled") (bool true) (
          field (codes "authType") (str (codes "password"))
            (field (codes "passwordHash") (str (codes "secret")) end)))))

-- The bucket knows every asset as the sensor; the assets service is down.
abbrev pub world : World
world = record {
  now = 1000;
  object = λ _ _. found_object 100 (some sensor_document);
  http = λ _. transport_error;
}

-- Later, and with the bucket gone.
abbrev pub outage : World
outage = record {
  now = 2000;
  object = λ _ _. found_object 2_000_000 none;
  http = λ _. transport_error;
}

abbrev pub empty_database : Bytes → Read
empty_database _ = missing

abbrev pub cold_store : TieredAuthStore (Bytes → Read)
cold_store = record {
  l2_bucket = codes "mapex-asset-auth";
  l1_ttl = pos (30 * minute);
  l3_client = none;
  pebble_db = some empty_database;
  has_minio = true;
  l1_hits = 0;
  l1_misses = 0;
  l2_hits = 0;
  l2_misses = 0;
  l3_hits = 0;
  l3_misses = 0;
  store_errors = 0;
  invalidations = 0;
}

abbrev pub config : Config
config = record {
  nats_url = codes "nats://nats:4222";
  subject_presence = codes "dev.presence";
  subject_ingress_prefix = codes "dev.data";
  auth_url = codes "http://assets";
  auth_api_key = codes "key";
  auth_timeout = pos (5 * second);
  worker_pool_size = pos 4;
  buffer_size = pos 10;
  cache_l1_path = codes "/var/cache/mqtt";
  cache_l1_ttl = pos (30 * minute);
  cache_l2_endpoint = codes "minio:9000";
  cache_l2_access_key = [];
  cache_l2_secret_key = [];
  cache_l2_bucket = codes "mapex-asset-auth";
  cache_l2_use_ssl = false;
  fanout_invalidate_subject = codes "mapexos.fanout.asset.invalidate";
}

abbrev pub runtime : PluginRuntime (TieredAuthStore (Bytes → Read))
runtime = record {
  config = config;
  async = record (fresh 10 4) { started = true };
  has_auth = true;
  store = some cold_store;
  fanout = none;
  sessions = [];
}

-- What a call of the store computes through.
unfoldable pub store_run : Unit {0}
unfolding fresh_entry read_value read_l1 write_l1 read_object read_l2 read_l3 end_l3 fall_back
    after_l2 get invalidate to_auth_entry key_is read_string read_bool assign_projection assign_all
    read_projection decode_read_model_to_auth_entry equal_fold same marshal_auth_entry
    marshal_pebble_entry unmarshal_pebble_entry read_time assign_entry assign_entries read_entry
    assign_pebble assign_pebbles read_pebble text coerce_utf8 lookup_entry handle_reply
store_run = tt

-- What `authenticate` computes through.
unfoldable pub auth_run : Unit {0}
unfolding store_run parse_username contains_rune compare_local resolve_username is_not_found allow
    check_cert check_password check_entry check_lookup authenticate authorizes_password
    authorizes_cert_serial remember_session lookup_session
auth_run = tt

sensor_found : (get database platform world cold_store sensor).0 ≡ ok sensor_entry
unfolding store_run
sensor_found = refl

pub sensor_entry-IsText : IsText sensor_entry
unfolding coerce_utf8
sensor_entry-IsText = record {
  asset_uuid = refl;
  org_id = refl;
  auth_type = refl;
  password_hash = refl;
  current_cert_serial = refl;
}
