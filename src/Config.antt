-- ===== src/Config.antt =====
-- internal/config: the settings of a server, their defaults, and the check of a loaded file. Reading
-- the file and its YAML are I/O and a library's: `load` takes what they give, and the settings that
-- the file leaves out are the defaults by then. Durations are in nanoseconds.
pub mod Checked
use rdw.Common.{
  ltb_ℤ, ℤ, pos, Dict, fail_if, ◌>>◌, Result, ok, err, Text, codes, ◌*◌, Bool, true, false, not,
  ◌||◌, Option, none, some, List, [], ◌∷◌,
}
use rdw.Auth.{is_listed}

abbrev default_port : ℤ
default_port = pos 7681

abbrev default_scrollback_cap : ℤ
default_scrollback_cap = pos 10000

-- `DefaultTokenExpiry`, 24 hours.
abbrev pub default_token_expiry : ℤ
default_token_expiry = pos (24 * 3600 * 1000000000)

abbrev default_filter_chain_max : ℤ
default_filter_chain_max = pos 8

abbrev default_reconnect_queue_len : ℤ
default_reconnect_queue_len = pos 1000

pub record UserFormatterConfig : Type 0 where
  pub name : Text
  pub cmd : Text

pub record ServerConfig : Type 0 where
  pub port : ℤ
  pub network_expose : Bool
  pub open_browser : Bool
  pub filter_chain_max : ℤ
  pub scrollback_cap : ℤ
  pub reconnect_queue_len : ℤ

pub record AuthConfig : Type 0 where
  pub no_auth : Bool
  pub admin_local_only : Bool
  pub admin_token : Text

pub record LogConfig : Type 0 where
  pub level : Text
  pub format : Text

-- The field of `KVConfig` stands here itself.
pub record Config : Type 0 where
  pub server : ServerConfig
  pub auth : AuthConfig
  pub persist_path : Text
  pub log : LogConfig
  pub bindings : Option (Dict (List Text))
  pub user_formatters : List UserFormatterConfig

abbrev pub default_config : Config
default_config = record {
  server = record {
    port = default_port;
    network_expose = false;
    open_browser = false;
    filter_chain_max = default_filter_chain_max;
    scrollback_cap = default_scrollback_cap;
    reconnect_queue_len = default_reconnect_queue_len;
  };
  auth = record { no_auth = false; admin_local_only = true; admin_token = [] };
  persist_path = [];
  log = record { level = codes "info"; format = codes "console" };
  bindings = none;
  user_formatters = [];
}

pub data ConfigError : Type 0 where
  bad_port no_filter_stage too_many_stages no_scrollback no_queue bad_level bad_format : ConfigError
  unreadable unparsable : ConfigError

abbrev pub valid_log_levels : List Text
valid_log_levels = codes "debug" ∷ codes "info" ∷ codes "warn" ∷ codes "error" ∷ []

abbrev pub valid_formats : List Text
valid_formats = codes "json" ∷ codes "console" ∷ []

pub validate_config : Config → Result ConfigError Unit
validate_config c =
    fail_if (ltb_ℤ c.server.port (pos 1) || ltb_ℤ (pos 65535) c.server.port) bad_port
    >> (fail_if (ltb_ℤ c.server.filter_chain_max (pos 1)) no_filter_stage
        >> (fail_if (ltb_ℤ (pos 64) c.server.filter_chain_max) too_many_stages
            >> (fail_if (ltb_ℤ c.server.scrollback_cap (pos 1)) no_scrollback
                >> (fail_if (ltb_ℤ c.server.reconnect_queue_len (pos 1)) no_queue
                    >> (fail_if (not (is_listed c.log.level valid_log_levels)) bad_level
                        >> fail_if (not (is_listed c.log.format valid_formats)) bad_format)))))

abbrev pub validated : Config → Result ConfigError Unit → Result ConfigError Config
validated c (ok tt) = ok c
validated c (err e) = err e

-- A file that cannot be read, or whose text is not YAML for a `Config`.
pub data ConfigFile : Type 0 where
  no_file no_yaml : ConfigFile
  parsed : Config → ConfigFile

-- `Load`; the path is empty where there is no file to read.
pub load_config : Option ConfigFile → Result ConfigError Config
load_config none = ok default_config
load_config (some no_file) = err unreadable
load_config (some no_yaml) = err unparsable
load_config (some (parsed c)) = validated c (validate_config c)
