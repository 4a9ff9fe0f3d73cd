-- ===== src/Throttle/Env.antt =====
-- `envInt` and the three `configFromEnv`.
use russia_tetris.Base.{
  ℕ, ◌≤◌, ℤ, pos, negsuc, List, [], ◌∷◌, ◌&&◌, leb, ltb, if◌then◌else◌, Option, none, some, arith,
}

-- AuthThrottle::Config; times in milliseconds.
pub record AuthConfig : Type 0 where
  pub free_attempts : ℕ
  pub base_delay : ℕ
  pub max_delay : ℕ
  pub entry_ttl : ℕ
  pub max_entries : ℕ

pub record IpConfig : Type 0 where
  pub max_failures : ℕ
  pub window : ℕ
  pub ip_entries : ℕ

pub record RegConfig : Type 0 where
  pub ip_max : ℕ
  pub ip_window : ℕ
  pub global_max : ℕ
  pub global_window : ℕ
  pub reg_entries : ℕ

-- The default values of the members.
abbrev pub default_auth : AuthConfig
default_auth = record {
  free_attempts = 5;
  base_delay = 1000;
  max_delay = 30000;
  entry_ttl = 900000;
  max_entries = 20000;
}

abbrev pub default_ip : IpConfig
default_ip = record { max_failures = 300; window = 300000; ip_entries = 4096 }

abbrev pub default_reg : RegConfig
default_reg = record {
  ip_max = 20;
  ip_window = 300000;
  global_max = 200;
  global_window = 3600000;
  reg_entries = 4096;
}

-- The variables that the three read.
pub data Variable : Type 0 where
  auth_free_attempts auth_base_delay auth_max_delay auth_entry_ttl auth_max_entries : Variable
  ip_max_failures ip_window_ms ip_max_entries : Variable
  reg_ip_max reg_ip_window reg_global_max reg_global_window reg_max_entries : Variable

-- end != '\0' and value < 0.
parsed : ℤ → List ℕ → ℕ → ℕ
parsed (pos value) [] fallback = value
parsed (pos value) (c ∷ cs) fallback = fallback
parsed (negsuc n) rest fallback = fallback

-- The environment, and `strtoll` in base 10: the number and the rest of the text.
module _ (getenv : Variable → Option (List ℕ)) (strtoll : List ℕ → ℤ × List ℕ) where
  -- An absent or empty variable, one that is not a whole number, and a negative one give `fallback`.
  unfoldable pub env_int : Variable → ℕ → ℕ
  unfolding parsed
  env_int name fallback = elim (getenv name) [
    | none ↦ fallback
    | some raw ↦ elim raw [
      | [] ↦ fallback
      | c ∷ cs ↦ let (value, rest) = strtoll (c ∷ cs) in parsed value rest fallback
    ]
  ]

  within : ℕ → ℕ → ℕ → ℕ → ℕ
  within low high value old = if leb low value && leb value high then value else old

  read : Variable → ℕ → ℕ → ℕ → ℕ
  unfolding within env_int
  read name low high old = within low high (env_int name old) old

  unfoldable pub auth_config : AuthConfig
  unfolding read
  auth_config =
      let base = read auth_base_delay 1 3600000 default_auth.base_delay in
      let high = read auth_max_delay 1 86400000 default_auth.max_delay in
      record {
        free_attempts = read auth_free_attempts 0 1000 default_auth.free_attempts;
        base_delay = base;
        max_delay = if ltb high base then base else high;
        entry_ttl = read auth_entry_ttl 1000 86400000 default_auth.entry_ttl;
        max_entries = read auth_max_entries 1 1000000 default_auth.max_entries;
      }

  unfoldable pub ip_config : IpConfig
  unfolding read
  ip_config = record {
    max_failures = read ip_max_failures 1 1000000 default_ip.max_failures;
    window = read ip_window_ms 1000 86400000 default_ip.window;
    ip_entries = read ip_max_entries 1 1000000 default_ip.ip_entries;
  }

  unfoldable pub reg_config : RegConfig
  unfolding read
  reg_config = record {
    ip_max = read reg_ip_max 0 1000000 default_reg.ip_max;
    ip_window = read reg_ip_window 1000 86400000 default_reg.ip_window;
    global_max = read reg_global_max 0 1000000 default_reg.global_max;
    global_window = read reg_global_window 1000 86400000 default_reg.global_window;
    reg_entries = read reg_max_entries 1 1000000 default_reg.reg_entries;
  }

  read_range :
      (name : Variable) (low high old : ℕ)
      → low ≤ old
      → old ≤ high
      → (low ≤ read name low high old) × (read name low high old ≤ high)
  unfolding read within
  read_range name low high old h1 h2 = ground arith

  -- Whatever the environment holds, the configuration of `AuthThrottle` has a base delay of 1 ms to an
  -- hour, a greatest delay not below it, and a time to live of a second at least; and at least one
  -- name is tracked.
  pub auth_config_range :
      (1 ≤ auth_config.base_delay)
      × (auth_config.base_delay ≤ 3600000)
      × (auth_config.base_delay ≤ auth_config.max_delay)
      × (auth_config.max_delay ≤ 86400000)
      × (auth_config.free_attempts ≤ 1000)
      × (1000 ≤ auth_config.entry_ttl)
      × (1 ≤ auth_config.max_entries)
  unfolding auth_config
  auth_config_range = ground (
    arith,
    read_range auth_base_delay 1 3600000 1000 (omega arith) (omega arith),
    read_range auth_max_delay 1 86400000 30000 (omega arith) (omega arith),
    read_range auth_free_attempts 0 1000 5 (omega arith) (omega arith),
    read_range auth_entry_ttl 1000 86400000 900000 (omega arith) (omega arith),
    read_range auth_max_entries 1 1000000 20000 (omega arith) (omega arith),
  )
