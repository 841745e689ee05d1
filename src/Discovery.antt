-- ===== src/Discovery.antt =====
-- internal/discovery/discovery.go: the registry file of running servers. `probe`, `processAlive` and
-- whether the file can be written are answers of the system, and arguments here.
pub mod Registry
use rdw.Common.{
  ◌==◌, if◌then◌else◌, length, ltb_ℤ, leb_ℤ, ℤ, pos, Result, ok, err, Text, Bool, false, not, ◌&&◌,
  Option, none, some, List, [], ◌∷◌, ◌++◌,
}

pub record ServerInfo : Type 0 where
  pub port : ℤ
  pub pid : ℤ
  pub started_at : Text
  pub socket_path : Text

abbrev pub default_port : ℤ
default_port = pos 7681

-- The registry file: `none` where it is missing or malformed.
abbrev pub RegistryFile : Type 0
RegistryFile = Option (List ServerInfo)

pub data RegistryError : Type 0 where
  not_written : RegistryError

pub data ResolveError : Type 0 where
  not_responding : ℤ → ResolveError
  no_server : ResolveError
  -- The servers that the message lists.
  other_servers : List ServerInfo → ResolveError

abbrev pub eqb_ℤ : ℤ → ℤ → Bool
eqb_ℤ a b = leb_ℤ a b && leb_ℤ b a

pub read_registry : RegistryFile → List ServerInfo
read_registry none = []
read_registry (some servers) = servers

pub write_registry :
    Bool → List ServerInfo → RegistryFile → RegistryFile × Result RegistryError Unit
write_registry can_write servers file =
    if can_write then (some servers, ok tt) else (file, err not_written)

-- The entries of other ports.
abbrev pub without_port : ℤ → List ServerInfo → List ServerInfo
without_port port [] = []
without_port port (s ∷ ss) =
    let rest = without_port port ss in if not (eqb_ℤ s.port port) then s ∷ rest else rest

pub register_server : Bool → ServerInfo → RegistryFile → RegistryFile × Result RegistryError Unit
register_server can_write info file =
    write_registry can_write (without_port info.port (read_registry file) ++ info ∷ []) file

pub deregister_server : Bool → ℤ → RegistryFile → RegistryFile × Result RegistryError Unit
deregister_server can_write port file =
    write_registry can_write (without_port port (read_registry file)) file

abbrev kept_alive : (ℤ → Bool) → List ServerInfo → List ServerInfo
kept_alive is_alive [] = []
kept_alive is_alive (s ∷ ss) =
    let rest = kept_alive is_alive ss in if is_alive s.pid then s ∷ rest else rest

-- `processAlive`: `signal` says whether signal 0 reaches the process.
abbrev process_alive : (ℤ → Bool) → ℤ → Bool
process_alive signal pid = if leb_ℤ pid (pos 0) then false else signal pid

unfoldable prune_stale : Bool → (ℤ → Bool) → RegistryFile → RegistryFile × Result RegistryError Unit
prune_stale can_write signal file =
    if length (read_registry file) == 0
    then (file, ok tt)
    else write_registry can_write (kept_alive (process_alive signal) (read_registry file)) file

pub resolve : (ℤ → Bool) → ℤ → RegistryFile → Result ResolveError ℤ
resolve probe port file =
    if ltb_ℤ (pos 0) port
    then (if probe port then ok port else err (not_responding port))
    else if probe default_port
    then ok default_port
    else if length (read_registry file) == 0
    then err no_server
    else err (other_servers (read_registry file))
