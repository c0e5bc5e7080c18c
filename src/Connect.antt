-- ===== src/Connect.antt =====
-- src/connect.go: the connection to NATS and the hooks that nats.go calls over its life. The dial of
-- nats.go is a parameter; a connection is the URL of the server that it is connected to.
use mapex_mqttbroker.Common.{
  ℕ, ◌*◌, Bool, true, Option, none, some, [], ◌∷◌, if◌then◌else◌, is_empty, Bytes, codes,
}
use mapex_mqttbroker.Common.Int.{ℤ, negsuc}
use mapex_mqttbroker.Config.{second, minute}
use mapex_mqttbroker.Log.{text, Formatter, Logger, or_nop, info, warn, error}
use mapex_mqttbroker.Publisher.{Built, built, refused}

abbrev pub millisecond : ℕ
millisecond = 1_000_000

-- Without end.
abbrev pub nats_max_reconnects : ℤ
nats_max_reconnects = negsuc 0

abbrev pub nats_reconnect_wait : ℕ
nats_reconnect_wait = 1 * second

abbrev pub nats_reconnect_buf_size : ℕ
nats_reconnect_buf_size = 16 * 1024 * 1024

abbrev pub nats_flusher_timeout : ℕ
nats_flusher_timeout = 50 * millisecond

abbrev pub nats_ping_interval : ℕ
nats_ping_interval = 2 * minute

-- The options; the four handlers among them are the hooks below.
pub record NatsOptions : Type 0 where
  pub name : Bytes
  pub max_reconnects : ℤ
  pub reconnect_wait : ℕ
  pub reconnect_buf_size : ℕ
  pub no_echo : Bool
  pub flusher_timeout : ℕ
  pub ping_interval : ℕ

abbrev pub opts : NatsOptions
opts = record {
  name = codes "mapex-broker-plugin";
  max_reconnects = nats_max_reconnects;
  reconnect_wait = nats_reconnect_wait;
  reconnect_buf_size = nats_reconnect_buf_size;
  no_echo = true;
  flusher_timeout = nats_flusher_timeout;
  ping_interval = nats_ping_interval;
}

-- What `nats.Connect` answers: a connection, by its `ConnectedUrl()`, or the text of an error.
pub data Dialed : Type 0 where
  dialed : Bytes → Dialed
  dial_failed : Bytes → Dialed

pub data ConnectError : Type 0 where
  url_required : ConnectError
  nats_failed : Bytes → ConnectError

-- What the plugin meets while it connects.
pub record Dialer : Type 0 where
  pub fmt : Formatter
  pub now : ℕ
  pub connect : Bytes → NatsOptions → Dialed

-- The end of `ConnectNATS`: what the dial answered.
unfoldable pub end_connect : Dialer → Bytes → Logger → Dialed → Built Bytes ConnectError × Logger
end_connect d url log (dial_failed err) = (
  refused (nats_failed err),
  error d.fmt d.now log (codes "NATS initial connect failed url=%s err=%v")
      (text url ∷ text err ∷ []),
)
end_connect d url log (dialed server) = (
  built server,
  info d.fmt d.now log (codes "NATS connected url=%s server=%s") (text url ∷ text server ∷ []),
)

-- With the logger as it is left; one that is nil discards.
unfoldable pub connect_nats : Dialer → Bytes → Option Logger → Built Bytes ConnectError × Logger
unfolding end_connect or_nop
connect_nats d url log =
    if is_empty url
    then (refused url_required, or_nop log)
    else end_connect d url (or_nop log) (d.connect url opts)

module _ (fmt : Formatter) where
  unfoldable pub on_disconnect : ℕ → Logger → Option Bytes → Logger
  on_disconnect now log none = warn fmt now log (codes "NATS disconnected (no error reported)") []
  on_disconnect now log (some err) =
      warn fmt now log (codes "NATS disconnected: err=%v") (text err ∷ [])

  unfoldable pub on_reconnect : ℕ → Logger → Bytes → Logger
  on_reconnect now log connected_url =
      info fmt now log (codes "NATS reconnected url=%s") (text connected_url ∷ [])

  unfoldable pub on_closed : ℕ → Logger → Logger
  on_closed now log = info fmt now log (codes "NATS connection closed") []

  unfoldable pub on_async_error : ℕ → Logger → Bytes → Logger
  on_async_error now log err = warn fmt now log (codes "NATS async error: %v") (text err ∷ [])
