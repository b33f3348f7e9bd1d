-- ===== src/Tool/Config.antt =====
-- crates/vdsm-common/src/config.rs: the configuration and its defaults. Reading the file and decoding
-- TOML are parameters.
use vdsm_rs.Base.{ℕ, Bool, true, ◌++◌, Text, codes, Result, ok, err}

-- `DaemonConfig`
pub record DaemonConfig : Type 0 where
  pub user : Text
  pub group : Text
  pub state_dir : Text
  pub log_level : Text

-- `RpcConfig`
pub record RpcConfig : Type 0 where
  pub bind : Text
  pub port : ℕ
  pub tls_enabled : Bool
  pub tls_cert : Text
  pub tls_key : Text
  pub tls_ca : Text
  pub framing : Text

-- `LibvirtConfig`
pub record LibvirtConfig : Type 0 where
  pub uri : Text

-- `Config`
pub record Config : Type 0 where
  pub daemon : DaemonConfig
  pub rpc : RpcConfig
  pub libvirt : LibvirtConfig

-- `DaemonConfig::default`, `RpcConfig::default` and `LibvirtConfig::default`
abbrev pub default_daemon : DaemonConfig
default_daemon = record {
  user = codes "vdsm";
  group = codes "vdsm";
  state_dir = codes "/var/lib/vdsm";
  log_level = codes "info";
}

abbrev pub default_rpc : RpcConfig
default_rpc = record {
  bind = codes "0.0.0.0";
  port = 54321;
  tls_enabled = true;
  tls_cert = codes "/etc/pki/vdsm/certs/vdsmcert.pem";
  tls_key = codes "/etc/pki/vdsm/keys/vdsmkey.pem";
  tls_ca = codes "/etc/pki/vdsm/certs/cacert.pem";
  framing = codes "line";
}

abbrev pub default_libvirt : LibvirtConfig
default_libvirt = record { uri = codes "qemu:///system" }

-- `Config::default`
abbrev pub default_config : Config
default_config = record { daemon = default_daemon; rpc = default_rpc; libvirt = default_libvirt }

-- `VdsmError`, as far as `load` gives one.
pub data VdsmError : Type 0 where
  config_error toml_error : Text → VdsmError

config_read : (Text → Result Text Config) → Text → Result Text Text → Result VdsmError Config
config_read from_toml path (err e) = err (config_error (path ++ (codes ": " ++ e)))
config_read from_toml path (ok text) = elim (from_toml text) [
  | ok c ↦ ok c
  | err e ↦ err (toml_error e)
]

-- `Config::load`
unfoldable pub load_config :
    (Text → Result Text Text) → (Text → Result Text Config) → Text → Result VdsmError Config
unfolding config_read
load_config read from_toml path = config_read from_toml path (read path)
