-- ===== src/Command/Modes.antt =====
-- The choice of a mode: when the daemon runs, and with what.
use tenpm_uptime_monitor.Prelude.{
  ◌≡◌, ◌≢◌, refl, ◌⊎◌, inl, inr, ◌||◌, true, false, Option, none, some, [], arith, Bool-cases,
  Option-cases,
}
use mathlib.Core.Path.{subst}
use tenpm_uptime_monitor.Prelude.Int.{pos, leb_ℤ, ◌≤ℤ◌}
use tenpm_uptime_monitor.Prelude.Text.{same-true, same-false, Text, bytes, same, trim_space}
use tenpm_uptime_monitor.Egress.{Policy, policy_open, policy_strict, parse_policy}
use tenpm_uptime_monitor.Egress.Rules.{word, parse_policy_iff}
use tenpm_uptime_monitor.Agent.{Config}
use tenpm_uptime_monitor.Command.{Proxy, ProxyUrl, invalid_proxy, parse_proxy_url}
use tenpm_uptime_monitor.Command.Flags.{
  Flags, daemon, proxy_text, config_of, lacks_required, chosen_mode, after_policy, mode_of,
}

chosen_mode-daemon :
    (f : Flags) (policy : Policy) (proxy : Proxy) (cfg : Config)
    → chosen_mode f policy proxy ≡ daemon cfg
    → (lacks_required f ≡ false) × (config_of f policy proxy ≡ cfg)
unfolding chosen_mode
chosen_mode-daemon f policy proxy cfg h = ground (arith, h)

after_policy-daemon :
    (f : Flags) (policy : Policy) (proxy : Proxy) (cfg : Config)
    → after_policy f policy proxy ≡ daemon cfg
    → (proxy ≢ invalid_proxy)
      × (leb_ℤ f.max_concurrent_checks (pos 0) ≡ false)
      × (chosen_mode f policy proxy ≡ daemon cfg)
unfolding after_policy
after_policy-daemon f policy proxy cfg h = ground (arith, h)

mode_of-daemon :
    (quote : Text → Text) (parse : Text → Option ProxyUrl) (f : Flags) (cfg : Config)
    → mode_of quote parse f ≡ daemon cfg
    → (f.show_version ≡ false)
      × ((parse_policy quote f.egress_policy).1 ≡ none)
      × (after_policy f
            (parse_policy quote f.egress_policy).0
            (parse_proxy_url parse f.proxy_url_flag)
          ≡ daemon cfg)
unfolding mode_of
mode_of-daemon quote parse f cfg h = ground (arith, h)

Policy-cases : (p : Policy) → (p ≡ policy_strict) ⊎ (p ≡ policy_open)
Policy-cases policy_strict = inl refl
Policy-cases policy_open = inr refl

-- The proxies that net/http understands.
abbrev pub IsScheme : Text → Type 0
IsScheme s = (s ≡ bytes "http") ⊎ ((s ≡ bytes "https") ⊎ (s ≡ bytes "socks5"))

-- What the flag for the proxy asks for: none if it is blank, and else a URL with a known scheme and a
-- host.
abbrev pub Asked : (Text → Option ProxyUrl) → Text → Option Text → Type 0
Asked parse raw proxy =
    ((trim_space raw ≡ []) × (proxy ≡ none))
    ⊎ ((u : ProxyUrl) × (trim_space raw ≢ [])
        × (parse (trim_space raw) ≡ some u)
        × IsScheme u.scheme
        × (u.host ≢ [])
        × (proxy ≡ some u.text))

IsScheme-of :
    (s : Text)
    → (same s (bytes "http") || (same s (bytes "https") || same s (bytes "socks5"))) ≡ true
    → IsScheme s
IsScheme-of s h = elim (Bool-cases (same s (bytes "http"))) [
  | inl e ↦ inl (same-true s _ e)
  | inr n ↦ elim (Bool-cases (same s (bytes "https"))) [
    | inl e ↦ inr (inl (same-true s _ e))
    | inr n' ↦ inr (inr (same-true s _ (ground (arith, h, n, n'))))
  ]
]

parse_proxy_url-Asked :
    (parse : Text → Option ProxyUrl) (raw : Text)
    → parse_proxy_url parse raw ≢ invalid_proxy
    → Asked parse raw (proxy_text (parse_proxy_url parse raw))
unfolding parse_proxy_url
parse_proxy_url-Asked parse raw h = elim (Bool-cases (same (trim_space raw) [])) [
  | inl blank ↦ inl (same-true _ _ blank, rw blank refl)
  | inr some_text ↦ elim (Option-cases (parse (trim_space raw))) [
    | inl bad ↦ absurd (ground (arith, h, some_text, bad))
    | inr (u, e) ↦
        let known : (same u.scheme (bytes "http")
              || (same u.scheme (bytes "https") || same u.scheme (bytes "socks5")))
            ≡ true =
          ground (arith, h, some_text, e) in
        let host : same u.host [] ≡ false = ground (arith, h, some_text, e, known) in
        inr (
          u,
          same-false _ _ some_text,
          e,
          IsScheme-of u.scheme known,
          same-false _ _ host,
          rw (some_text, e, known, host) refl,
        )
  ]
]

-- ParsePolicy without an error.
parse_policy-Named :
    (quote : Text → Text) (s : Text)
    → (parse_policy quote s).1 ≡ none
    → (((parse_policy quote s).0 ≡ policy_strict) × (word s ≡ bytes "strict"))
      ⊎ (((parse_policy quote s).0 ≡ policy_open) × ((word s ≡ []) ⊎ (word s ≡ bytes "open")))
parse_policy-Named quote s fine =
    let (strict, is_open) = parse_policy_iff quote s in
    elim (Policy-cases (parse_policy quote s).0) [
      | inl e ↦ inl (e, strict.0 e)
      | inr e ↦ inr (e, is_open.0 (e, fine))
    ]

-- The daemon is given what its flags ask for.
pub record AsAsked (parse : Text → Option ProxyUrl) (f : Flags) (cfg : Config) : Type 0 where
  pub policy :
      ((cfg.egress_policy ≡ policy_strict) × (word f.egress_policy ≡ bytes "strict"))
      ⊎ ((cfg.egress_policy ≡ policy_open)
          × ((word f.egress_policy ≡ []) ⊎ (word f.egress_policy ≡ bytes "open")))
  pub proxy : Asked parse f.proxy_url_flag cfg.proxy_url
  pub concurrency : pos 1 ≤ℤ cfg.max_concurrent_checks
  pub same_concurrency : cfg.max_concurrent_checks ≡ f.max_concurrent_checks
  pub server_url : cfg.server_url ≢ []
  pub monitor_name : cfg.monitor_name ≢ []
  pub region : cfg.region ≢ []
  pub country : cfg.country ≢ []
  pub city : cfg.city ≢ []

required :
    (f : Flags)
    → lacks_required f ≡ false
    → (f.server_url ≢ [])
      × (f.monitor_name ≢ [])
      × (f.region ≢ [])
      × (f.country ≢ [])
      × (f.city ≢ [])
unfolding lacks_required
required f h = (
  same-false _ _ (ground (arith, h)),
  same-false _ _ (ground (arith, h)),
  same-false _ _ (ground (arith, h)),
  same-false _ _ (ground (arith, h)),
  same-false _ _ (ground (arith, h)),
)

-- When main comes to start the daemon, the egress policy is the strict one and the word of its flag is
-- "strict", or it is the open one and the flag is blank or its word is "open"; the proxy is none if its flag is blank, and else one with a known scheme and a host; at
-- least one check may run at a time; and no field that the daemon needs is empty. A mistake in a flag
-- never starts a daemon with a weaker setting.
pub mode_of-AsAsked :
    (quote : Text → Text) (parse : Text → Option ProxyUrl) (f : Flags) (cfg : Config)
    → mode_of quote parse f ≡ daemon cfg
    → AsAsked parse f cfg
unfolding config_of
mode_of-AsAsked quote parse f cfg h =
    let policy = (parse_policy quote f.egress_policy).0 in
    let proxy = parse_proxy_url parse f.proxy_url_flag in
    let (shown, no_error, later) = mode_of-daemon quote parse f cfg h in
    let (valid, positive, chosen) = after_policy-daemon f policy proxy cfg later in
    let (complete, same_cfg) = chosen_mode-daemon f policy proxy cfg chosen in
    let (url, name, region, country, city) = required f complete in
    subst (AsAsked parse f) same_cfg (record {
      policy = parse_policy-Named quote f.egress_policy no_error;
      proxy = parse_proxy_url-Asked parse f.proxy_url_flag valid;
      concurrency = ground (arith, positive);
      same_concurrency = refl;
      server_url = url;
      monitor_name = name;
      region = region;
      country = country;
      city = city;
    })
