-- ===== src/Config/Checked.antt =====
-- The limits that a loaded configuration is within.

use rdw.Common.{◌≤ℤ◌, pos, Result, ok, err, text_eq, ◌≡◌, refl, ap, ◌↔◌, true, none, some, arith}
use rdw.Auth.{is_listed}
use rdw.Config.{
  Config, default_config, ConfigError, valid_log_levels, valid_formats, validate_config, validated,
  parsed, load_config,
}

-- What `validate` asks of a configuration.
pub record IsChecked (c : Config) : Type 0 where
  pub port_in : (pos 1 ≤ℤ c.server.port) × (c.server.port ≤ℤ pos 65535)
  pub stages_in : (pos 1 ≤ℤ c.server.filter_chain_max) × (c.server.filter_chain_max ≤ℤ pos 64)
  pub scrollback_in : pos 1 ≤ℤ c.server.scrollback_cap
  pub queue_in : pos 1 ≤ℤ c.server.reconnect_queue_len
  pub level_known : is_listed c.log.level valid_log_levels ≡ true
  pub format_known : is_listed c.log.format valid_formats ≡ true

validate_config_sound : (c : Config) → validate_config c ≡ ok tt → IsChecked c
unfolding validate_config
validate_config_sound c h = record {
  port_in = (ground arith, ground arith);
  stages_in = (ground arith, ground arith);
  scrollback_in = ground arith;
  queue_in = ground arith;
  level_known = ground arith;
  format_known = ground arith;
}

validate_config_complete : (c : Config) → IsChecked c → validate_config c ≡ ok tt
unfolding validate_config
validate_config_complete c k =
    let (p, p') = k.port_in in
    let (f, f') = k.stages_in in
    let s = k.scrollback_in in
    let q = k.queue_in in let l = k.level_known in let m = k.format_known in ground arith

validated-ok :
    (c c' : Config) (r : Result ConfigError Unit) → validated c r ≡ ok c' → (r ≡ ok tt) × (c ≡ c')
validated-ok c c' (ok tt) h = (refl, ground arith)
validated-ok c c' (err e) h = absurd (ground arith)

default_config-IsChecked : IsChecked default_config
unfolding text_eq
default_config-IsChecked = validate_config_sound default_config (unfold validate_config in refl)

-- `Load` returns the configuration of a file exactly if it is within the limits; without a file it
-- returns the defaults, which are.
load_config-IsChecked :
    (c : Config)
    → ((load_config (some (parsed c)) ≡ ok c) ↔ IsChecked c)
      × (load_config none ≡ ok default_config)
      × IsChecked default_config
unfolding load_config
load_config-IsChecked c = ((sound, complete), refl, default_config-IsChecked)
  where
    sound : validated c (validate_config c) ≡ ok c → IsChecked c
    sound h = validate_config_sound c (validated-ok c c (validate_config c) h).0

    complete : IsChecked c → validated c (validate_config c) ≡ ok c
    complete k = ap (validated c) (validate_config_complete c k)
