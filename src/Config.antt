-- ===== src/Config.antt =====
-- The configuration of the server: server/internal/config/config.go, database/{mysql,redis}.go. Numbers
-- of the file that Go reads as `int` are integers; a duration is a number of nanoseconds.
use taffy_assistant.Base.{
  ℕ, ◌*◌, String, Option, none, some, ℤ, pos, itoa, ◌==◌, ◌⧺◌, eqb, if◌then◌else◌,
}
use taffy_assistant.Errors.{wrap}
use taffy_assistant.Store.{Result, ok, err}

-- `MySQLConfig`.
pub record MysqlConfig : Type 0 where
  pub host : String
  pub port : ℤ
  pub user : String
  pub password : String
  pub db_name : String
  pub max_open_conns : ℤ
  pub max_idle_conns : ℤ
  pub conn_max_lifetime : String

-- `RedisConfig`.
pub record RedisConfig : Type 0 where
  pub addr : String
  pub password : String
  pub db : ℤ

-- `JWTConfig`.
pub record JwtConfig : Type 0 where
  pub secret : String
  pub access_ttl : String
  pub refresh_ttl : String

-- `MQTTConfig`.
pub record MqttConfig : Type 0 where
  pub broker : String
  pub client_id : String
  pub username : String
  pub password : String
  pub qos : ℕ

-- `AppConfig`, with the one field of `WorkerConfig`.
pub record AppConfig : Type 0 where
  pub worker_ws_url : String
  pub mysql : MysqlConfig
  pub redis : RedisConfig
  pub jwt : JwtConfig
  pub mqtt : MqttConfig

-- `DSN`.
unfoldable pub dsn : MysqlConfig → String
dsn c =
    c.user
    ⧺ ":"
    ⧺ c.password
    ⧺ "@tcp("
    ⧺ c.host
    ⧺ ":"
    ⧺ itoa c.port
    ⧺ ")/"
    ⧺ c.db_name
    ⧺ "?parseTime=true&loc=Local"

abbrev pub minutes : ℕ → ℤ
minutes n = pos (n * 60000000000)

-- What `time.ParseDuration` makes of a text, or the default where it returns an error.
abbrev or_default : Option ℤ → ℤ → ℤ
or_default none d = d
or_default (some x) d = x

module _ (parse_duration : String → Option ℤ) where
  -- `ConnMaxLifetimeDuration`.
  unfoldable pub conn_max_lifetime_duration : MysqlConfig → ℤ
  conn_max_lifetime_duration c = or_default (parse_duration c.conn_max_lifetime) (minutes 5)

  -- `AccessTTLDuration`.
  unfoldable pub access_ttl_duration : JwtConfig → ℤ
  access_ttl_duration c = or_default (parse_duration c.access_ttl) (minutes 120)

  -- `RefreshTTLDuration`.
  unfoldable pub refresh_ttl_duration : JwtConfig → ℤ
  refresh_ttl_duration c = or_default (parse_duration c.refresh_ttl) (minutes 10080)

-- `os.Getenv`: the empty text where a variable is not set.
abbrev pub Environment : Type 0
Environment = String → String

-- A value that is empty gets the default.
abbrev or_text : String → String → String
or_text value d = if value == "" then d else value

abbrev or_number : ℤ → ℤ → ℤ
or_number (pos ℕ.zero) d = d
or_number n d = n

-- A variable that is set wins.
abbrev pub or_env : String → String → String
or_env value v = if v == "" then value else v

-- `setDefaults`.
unfoldable pub set_defaults : Environment → AppConfig → AppConfig
set_defaults env c = record {
  worker_ws_url =
      or_env (or_text c.worker_ws_url "ws://127.0.0.1:8090/v1/orchestrate") (env "WORKER_WS_URL");
  mysql = record {
    host = or_env (or_text c.mysql.host "127.0.0.1") (env "MYSQL_HOST");
    port = or_number c.mysql.port (pos 3306);
    user = c.mysql.user;
    password = or_env c.mysql.password (env "MYSQL_PASSWORD");
    db_name = or_text c.mysql.db_name "taffy";
    max_open_conns = or_number c.mysql.max_open_conns (pos 20);
    max_idle_conns = or_number c.mysql.max_idle_conns (pos 10);
    conn_max_lifetime = or_text c.mysql.conn_max_lifetime "5m";
  };
  redis = record {
    addr = or_env (or_text c.redis.addr "127.0.0.1:6379") (env "REDIS_ADDR");
    password = c.redis.password;
    db = c.redis.db;
  };
  jwt = record {
    secret = or_env (or_text c.jwt.secret "change-me-in-production") (env "JWT_SECRET");
    access_ttl = or_text c.jwt.access_ttl "2h";
    refresh_ttl = or_text c.jwt.refresh_ttl "168h";
  };
  mqtt = record {
    broker = or_env c.mqtt.broker (env "MQTT_BROKER");
    client_id = or_text c.mqtt.client_id "taffy-server";
    username = or_env c.mqtt.username (env "MQTT_USERNAME");
    password = or_env c.mqtt.password (env "MQTT_PASSWORD");
    qos = if eqb c.mqtt.qos 0 then 1 else c.mqtt.qos;
  };
}

-- `DefaultConfig`.
unfoldable pub default_config : Environment → AppConfig
unfolding set_defaults
default_config env = set_defaults env (record {
  worker_ws_url = "";
  mysql = record {
    host = "";
    port = pos 0;
    user = "";
    password = "";
    db_name = "";
    max_open_conns = pos 0;
    max_idle_conns = pos 0;
    conn_max_lifetime = "";
  };
  redis = record { addr = ""; password = ""; db = pos 0 };
  jwt = record { secret = ""; access_ttl = ""; refresh_ttl = "" };
  mqtt = record { broker = ""; client_id = ""; username = ""; password = ""; qos = 0 };
})

-- `LoadConfig`: the content of the file or why it cannot be read, and what the YAML library makes of
-- it.
unfoldable pub load_config :
    Environment → (String → Result AppConfig) → Result String → Result AppConfig
unfolding set_defaults
load_config env parse (err e) = err (wrap "read config" e)
load_config env parse (ok text) = elim (parse text) [
  | err e ↦ err (wrap "parse config" e)
  | ok c ↦ ok (set_defaults env c)
]

-- `main`: where the file cannot be used, the defaults.
unfoldable pub config_of : Environment → (String → Result AppConfig) → Result String → AppConfig
unfolding load_config default_config
config_of env parse file = elim (load_config env parse file) [
  | ok c ↦ c
  | err e ↦ default_config env
]
