-- ===== src/Config/Checked.antt =====
-- What a loaded configuration guarantees to the program that starts with it.
use golectra.Base.{false, arith, refl, true, ◌≢◌, trim_space, ◌≡◌}
use golectra.Config.{load_agent_config, agent_config, AgentFlags, AgentConfig}
use golectra.Config.Values.{Host, int64_leb, from_env_or_flag_int_low, env_wins, env_wins_duration}
use golectra.Domain.{Result, ok, err}

one_leb : int64_leb 1 1 ≡ true
unfolding int64_leb
one_leb = refl

module _ (host : Host) where
  agent_config-ok :
      (f : AgentFlags) (cfg : AgentConfig)
      → agent_config host f ≡ ok cfg
      → (host.is_request_uri cfg.address ≡ true)
        × (int64_leb cfg.report_interval 0 ≡ false)
        × (int64_leb cfg.poll_interval 0 ≡ false)
        × (int64_leb 1 cfg.rate_limit ≡ true)
  unfolding agent_config
  agent_config-ok f cfg h =
      ground (arith, h, from_env_or_flag_int_low host "RATE_LIMIT" f.limit_opt 1 1 one_leb)

  -- An agent configuration that loads has an address that url.ParseRequestURI accepts, a report and a
  -- poll interval above zero, and a rate limit of at least one.
  pub load_agent_config-ok :
      (parsed : Result AgentFlags) (cfg : AgentConfig)
      → load_agent_config host parsed ≡ ok cfg
      → (host.is_request_uri cfg.address ≡ true)
        × (int64_leb cfg.report_interval 0 ≡ false)
        × (int64_leb cfg.poll_interval 0 ≡ false)
        × (int64_leb 1 cfg.rate_limit ≡ true)
  unfolding load_agent_config
  load_agent_config-ok (err e) cfg h = absurd (cc h)
  load_agent_config-ok (ok f) cfg h = agent_config-ok f cfg h

  -- The environment wins: if ADDRESS, KEY, REPORT_INTERVAL and POLL_INTERVAL are set to more than
  -- blanks, then two command lines that parse and agree on the rate limit load the same
  -- configuration, or fail with the same error.
  pub agent_env_wins :
      (f g : AgentFlags)
      → trim_space (host.getenv "ADDRESS") ≢ ""
      → trim_space (host.getenv "KEY") ≢ ""
      → trim_space (host.getenv "REPORT_INTERVAL") ≢ ""
      → trim_space (host.getenv "POLL_INTERVAL") ≢ ""
      → f.limit_opt ≡ g.limit_opt
      → load_agent_config host (ok f) ≡ load_agent_config host (ok g)
  unfolding load_agent_config agent_config
  agent_env_wins f g a k r p l =
      rw
        (
          env_wins host "ADDRESS" f.addr_opt g.addr_opt "http://localhost:8080" a,
          env_wins host "KEY" f.key_opt g.key_opt "" k,
          env_wins_duration host "REPORT_INTERVAL" f.report_opt g.report_opt 0 10 r,
          env_wins_duration host "POLL_INTERVAL" f.poll_opt g.poll_opt 0 2 p,
          l,
        )
        refl
