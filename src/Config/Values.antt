-- ===== src/Config/Values.antt =====
-- internal/misc/env.go and internal/config/helpers.go: one setting, from the environment, a flag or
-- its default. An int and a duration in nanoseconds are bit patterns of int64.
use golectra.Base.{
  [], ◌||◌, eq_iff, ◌+◌, ◌^◌, ◌∷◌, arith, nat_eqb, true, false, ◌≢◌, ◌%◌, leb, ◌==◌, none, some,
  trim_space, ◌*◌, List, Bool, ◌≡◌, if◌then◌else◌, String, Option, ℕ,
}
use golectra.Handler.Numbers.{parse_int64}

-- What lies outside: os.Getenv, which answers the empty text for a variable that is not set,
-- strings.ToLower, time.ParseDuration, net.SplitHostPort, and url.Parse, url.ParseRequestURI.
pub record Host : Type 0 where
  pub getenv : String → String
  pub to_lower : String → String
  pub parse_duration : String → Option ℕ
  pub split_host_port : String → Option (String × String)
  pub url_host : String → Option String
  pub is_request_uri : String → Bool

-- `a <= b` on int64
unfoldable pub int64_leb : ℕ → ℕ → Bool
int64_leb a b = leb ((a + 2 ^ 63) % 2 ^ 64) ((b + 2 ^ 63) % 2 ^ 64)

-- `time.Duration(n) * time.Second`
unfoldable pub seconds : ℕ → ℕ
seconds n = n * 1000000000 % 2 ^ 64

-- GetDuration reads a value that is not positive as 0.
abbrev pub not_below_zero : ℕ → ℕ → ℕ
not_below_zero n d = if int64_leb n 0 then 0 else d

abbrev pub or_else {ℓ} : {A : Type ℓ} → A → Option A → A
or_else d none = d
or_else d (some a) = a

module _ (host : Host) where
  -- Getenv
  unfoldable pub getenv_or : String → String → String
  getenv_or key d = if host.getenv key == "" then d else host.getenv key

  abbrev pub go_duration : ℕ → String → ℕ
  go_duration d v = elim (host.parse_duration v) [ none ↦ d | some n ↦ not_below_zero n n ]

  -- GetDuration
  unfoldable pub get_duration : String → ℕ → ℕ
  get_duration key d =
      let v = host.getenv key in
      if v == ""
      then d
      else elim (parse_int64 v) [ none ↦ go_duration d v | some n ↦ not_below_zero n (seconds n) ]

  abbrev pub one_of : String → List String → Bool
  one_of v [] = false
  one_of v (x ∷ xs) = v == x || one_of v xs

  -- GetBool
  unfoldable pub get_bool : String → Bool → Bool
  get_bool key d =
      let v = trim_space (host.to_lower (host.getenv key)) in
      if v == ""
      then d
      else if one_of v ("1" ∷ "true" ∷ "t" ∷ "yes" ∷ "y" ∷ [])
      then true
      else if one_of v ("0" ∷ "false" ∷ "f" ∷ "no" ∷ "n" ∷ [])
      then false
      else d

  -- FromEnvOrFlag
  unfoldable pub from_env_or_flag : String → String → String → String
  from_env_or_flag key flag d =
      let v = trim_space (host.getenv key) in
      let f = trim_space flag in if v == "" then (if f == "" then d else f) else v

  -- FromEnvOrFlagBool
  unfoldable pub from_env_or_flag_bool : String → Bool → Bool → Bool
  from_env_or_flag_bool key flag d =
      if trim_space (host.getenv key) == "" then (if flag then true else d) else get_bool key d

  -- FromEnvOrFlagInt, after the environment
  abbrev pub from_flag_int : ℕ → ℕ → ℕ → ℕ
  from_flag_int flag d low = if nat_eqb flag 0 then d else if int64_leb low flag then flag else d

  -- FromEnvOrFlagInt
  unfoldable pub from_env_or_flag_int : String → ℕ → ℕ → ℕ → ℕ
  from_env_or_flag_int key flag d low =
      let ev = trim_space (host.getenv key) in
      if ev == "" then from_flag_int flag d low else elim (parse_int64 ev) [
        | none ↦ from_flag_int flag d low
        | some n ↦ if int64_leb low n then n else from_flag_int flag d low
      ]

  -- FromEnvOrFlagDuration, with the report of where the value comes from
  unfoldable pub from_env_or_flag_duration : String → ℕ → ℕ → ℕ → ℕ × Bool
  from_env_or_flag_duration key flag sentinel d =
      let ev = trim_space (host.getenv key) in
      if ev == ""
      then (if nat_eqb flag sentinel then (seconds d, false) else (seconds flag, true))
      else elim (parse_int64 ev) [
        | some n ↦ (seconds n, true)
        | none ↦ (or_else (get_duration key (seconds d)) (host.parse_duration ev), true)
      ]

  -- The value is the default, or not below the least that is allowed.
  pub from_env_or_flag_int_low :
      (key : String) (flag d low : ℕ)
      → int64_leb low d ≡ true
      → int64_leb low (from_env_or_flag_int key flag d low) ≡ true
  unfolding from_env_or_flag_int
  from_env_or_flag_int_low key flag d low h = ground arith

  pub env_wins :
      (key : String) (f g d : String)
      → trim_space (host.getenv key) ≢ ""
      → from_env_or_flag key f d ≡ from_env_or_flag key g d
  unfolding from_env_or_flag
  env_wins key f g d h = ground (arith, eq_iff (trim_space (host.getenv key)) "")

  pub env_wins_bool :
      (key : String) (f g d : Bool)
      → trim_space (host.getenv key) ≢ ""
      → from_env_or_flag_bool key f d ≡ from_env_or_flag_bool key g d
  unfolding from_env_or_flag_bool
  env_wins_bool key f g d h = ground (arith, eq_iff (trim_space (host.getenv key)) "")

  pub env_wins_duration :
      (key : String) (f g sentinel d : ℕ)
      → trim_space (host.getenv key) ≢ ""
      → from_env_or_flag_duration key f sentinel d ≡ from_env_or_flag_duration key g sentinel d
  unfolding from_env_or_flag_duration
  env_wins_duration key f g sentinel d h = ground (arith, eq_iff (trim_space (host.getenv key)) "")
