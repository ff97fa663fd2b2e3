-- ===== src/Config/Tests.antt =====
-- Configurations on a host without variables, and on one where every variable is set.
use golectra.Base.{
  eq_iff, arith, ◌≢◌, refl, is_space, trim_right, some, true, none, trim_left, false, ◌≡◌, String,
  trim_space, ℕ,
}
use golectra.Config.{
  load_server_config, server_config, load_agent_config, agent_config, ServerFlags, AgentFlags,
  ServerConfig, AgentConfig, normalize_listen_and_serve_url, normalize_address_url, minus_one,
  has_colon,
}
use golectra.Config.Values.{
  Host, int64_leb, seconds, from_env_or_flag, from_env_or_flag_bool, from_env_or_flag_int,
  from_env_or_flag_duration,
}
use golectra.Domain.{ok}

abbrev host_with : String → Host
host_with v = record {
  getenv = λ key. v;
  to_lower = λ s. s;
  parse_duration = λ s. none;
  split_host_port = λ s. some ("", "8080");
  url_host = λ s. none;
  is_request_uri = λ s. true;
}

abbrev bare : Host
bare = host_with ""

abbrev server_flags : ServerFlags
server_flags = record {
  addr_opt = "";
  file_opt = "";
  dsn_opt = "";
  key_opt = "";
  ival_opt = minus_one;
  restore_opt = false;
  audit_file_opt = "";
  audit_url_opt = "";
}

abbrev server_defaults : ServerConfig
server_defaults = record {
  address = ":8080";
  file = "metrics-db.json";
  dsn = "";
  key = "";
  interval = 300000000000;
  restore = false;
  audit_file = "";
  audit_url = "";
}

abbrev agent_flags : ℕ → AgentFlags
agent_flags report = record {
  addr_opt = "";
  key_opt = "";
  report_opt = report;
  poll_opt = 0;
  limit_opt = 0;
}

abbrev agent_defaults : AgentConfig
agent_defaults = record {
  address = "http://localhost:8080";
  key = "";
  poll_interval = 2000000000;
  report_interval = 10000000000;
  rate_limit = 1;
}

server_run : load_server_config bare (ok server_flags) ≡ ok server_defaults
unfolding load_server_config server_config normalize_listen_and_serve_url has_colon int64_leb
    seconds from_env_or_flag from_env_or_flag_bool from_env_or_flag_duration trim_space trim_left
    trim_right is_space
server_run = refl

agent_run : load_agent_config bare (ok (agent_flags 0)) ≡ ok agent_defaults
unfolding load_agent_config agent_config normalize_address_url int64_leb seconds from_env_or_flag
    from_env_or_flag_int from_env_or_flag_duration trim_space trim_left trim_right is_space
agent_run = refl

set_text : trim_space "5" ≢ ""
unfolding trim_space trim_left trim_right is_space
set_text e = ground (arith, eq_iff "5" "")
