-- ===== src/Config.antt =====
-- internal/config: what the server and the agent are started with.
pub mod Values
pub mod Checked
mod Tests
use golectra.Base.{
  none, ◌-◌, nat_eqb, not, ◌||◌, ◌==◌, some, false, trim_space, Bool, ◌^◌, String, Option, ℕ,
  if◌then◌else◌,
}
use text.Mathlib.Text.{starts_with}
use Prim.Native.Char.{code}
use Prim.Native.String.{◌++◌ as text_append}
use golectra.Config.Values.{
  Host, seconds, int64_leb, from_env_or_flag, from_env_or_flag_bool, from_env_or_flag_int,
  from_env_or_flag_duration,
}
use golectra.Domain.{Error, Result, ok, err, other}

-- ServerConfig
pub record ServerConfig : Type 0 where
  pub address : String
  pub file : String
  pub dsn : String
  pub key : String
  pub interval : ℕ
  pub restore : Bool
  pub audit_file : String
  pub audit_url : String

-- the values of the server's flags, with the value that says that a flag was not given
pub record ServerFlags : Type 0 where
  pub addr_opt : String
  pub file_opt : String
  pub dsn_opt : String
  pub key_opt : String
  pub ival_opt : ℕ
  pub restore_opt : Bool
  pub audit_file_opt : String
  pub audit_url_opt : String

-- AgentConfig
pub record AgentConfig : Type 0 where
  pub address : String
  pub key : String
  pub poll_interval : ℕ
  pub report_interval : ℕ
  pub rate_limit : ℕ

pub record AgentFlags : Type 0 where
  pub addr_opt : String
  pub key_opt : String
  pub report_opt : ℕ
  pub poll_opt : ℕ
  pub limit_opt : ℕ

-- -1 as an int64
abbrev pub minus_one : ℕ
minus_one = 2 ^ 64 - 1

-- `strings.Contains(s, ":")`
unfoldable pub has_colon : String → Bool
has_colon String.[] = false
has_colon (String.◌∷◌ c s) = nat_eqb (code c) b':' || has_colon s

abbrev pub is_url : String → Bool
is_url s = starts_with s "http://" || starts_with s "https://"

module _ (host : Host) where
  abbrev with_port : String → String
  with_port s = if has_colon s then s else text_append ":" s

  -- the host of a URL that parses and names one, else the text itself
  abbrev host_or : Option String → String → String
  host_or none s = with_port s
  host_or (some h) s = if h == "" then with_port s else h

  -- normalizeListenAndServeURL
  unfoldable pub normalize_listen_and_serve_url : String → String
  normalize_listen_and_serve_url t =
      let s = trim_space t in
      if s == "" then ":8080" else if is_url s then host_or (host.url_host s) s else with_port s

  -- normalizeAddressURL
  unfoldable pub normalize_address_url : String → String
  normalize_address_url t =
      let s = trim_space t in
      if s == ""
      then "http://localhost:8080"
      else if is_url s
      then s
      else if starts_with s ":"
      then text_append "http://localhost" s
      else text_append "http://" s

  -- `_, port, err := net.SplitHostPort(addr)` gives no error and a port
  abbrev pub names_port : Option (String × String) → Bool
  names_port none = false
  names_port (some (h, p)) = not (p == "")

  -- LoadServerConfig, once fs.Parse has read the flags. The errors leave out the value that the code
  -- appends.
  unfoldable pub server_config : ServerFlags → Result ServerConfig
  server_config f =
      let addr =
        normalize_listen_and_serve_url (from_env_or_flag host "ADDRESS" f.addr_opt ":8080") in
      let interval = (from_env_or_flag_duration host "STORE_INTERVAL" f.ival_opt minus_one 300).0 in
      if names_port (host.split_host_port addr)
      then if int64_leb 0 interval
        then ok (record {
          address = addr;
          file = from_env_or_flag host "FILE_STORAGE_PATH" f.file_opt "metrics-db.json";
          dsn = from_env_or_flag host "DATABASE_DSN" f.dsn_opt "";
          key = from_env_or_flag host "KEY" f.key_opt "";
          interval = interval;
          restore = from_env_or_flag_bool host "RESTORE" f.restore_opt false;
          audit_file = from_env_or_flag host "AUDIT_FILE" f.audit_file_opt "";
          audit_url = from_env_or_flag host "AUDIT_URL" f.audit_url_opt "";
        })
        else err (other "store interval must be >= 0")
      else err (other "invalid listen address")

  -- LoadServerConfig: an error of fs.Parse is returned
  unfoldable pub load_server_config : Result ServerFlags → Result ServerConfig
  load_server_config (err e) = err e
  load_server_config (ok f) = server_config f

  -- LoadAgentConfig, once fs.Parse has read the flags
  unfoldable pub agent_config : AgentFlags → Result AgentConfig
  agent_config f =
      let addr =
        normalize_address_url
          (from_env_or_flag host "ADDRESS" f.addr_opt "http://localhost:8080") in
      let report = (from_env_or_flag_duration host "REPORT_INTERVAL" f.report_opt 0 10).0 in
      let poll = (from_env_or_flag_duration host "POLL_INTERVAL" f.poll_opt 0 2).0 in
      if host.is_request_uri addr
      then if int64_leb report 0
        then err (other "report interval must be > 0")
        else if int64_leb poll 0
        then err (other "poll interval must be > 0")
        else ok (record {
          address = addr;
          key = from_env_or_flag host "KEY" f.key_opt "";
          poll_interval = poll;
          report_interval = report;
          rate_limit = from_env_or_flag_int host "RATE_LIMIT" f.limit_opt 1 1;
        })
      else err (other "invalid server address")

  unfoldable pub load_agent_config : Result AgentFlags → Result AgentConfig
  load_agent_config (err e) = err e
  load_agent_config (ok f) = agent_config f
