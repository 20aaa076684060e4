-- ===== src/Protect/OriginLock.antt =====
-- The Cloudflare origin lock of internal/agent/protect_handlers.go, over ufw.
use serverkit_agent.Base.{
  ℕ, suc, ◌==◌, ltb, if◌then◌else◌, Bool, true, false, ◌&&◌, ◌||◌, List, [], ◌∷◌, ◌++◌, Option,
  none, some, Text, codes, text_eq, length, trim_space, trim_right_by, contains, split, fields,
}
use serverkit_agent.Base.Int.{ℤ, pos, negsuc, leb_ℤ}
use serverkit_agent.Base.Decimal.{itoa, atoi}
use serverkit_agent.Base.Results.{Result, success, failure}
use serverkit_agent.Protect.{
  Netip, Error, too_many_ports, invalid_port, ssh_port, firewall_inactive, aborted, panicked,
}
use serverkit_agent.Base.Steps.{pure, ◌>>=◌, ◌>>◌, lift, check_that}
use serverkit_agent.Protect.Tools.{
  Host, M, told, run_tool, require_linux, require_tool, decoded, Answer, origin_locked,
  origin_unlocked, lock_status, ufw_active,
}

abbrev pub origin_lock_tag : Text
origin_lock_tag = codes "serverkit-origin-lock"

abbrev pub cloudflare_fallback_v4 : List Text
cloudflare_fallback_v4 =
    codes "173.245.48.0/20"
    ∷ codes "103.21.244.0/22"
    ∷ codes "103.22.200.0/22"
    ∷ codes "103.31.4.0/22"
    ∷ codes "141.101.64.0/18"
    ∷ codes "108.162.192.0/18"
    ∷ codes "190.93.240.0/20"
    ∷ codes "188.114.96.0/20"
    ∷ codes "197.234.240.0/22"
    ∷ codes "198.41.128.0/17"
    ∷ codes "162.158.0.0/15"
    ∷ codes "104.16.0.0/13"
    ∷ codes "104.24.0.0/14"
    ∷ codes "172.64.0.0/13"
    ∷ codes "131.0.72.0/22"
    ∷ []

abbrev pub cloudflare_fallback_v6 : List Text
cloudflare_fallback_v6 =
    codes "2400:cb00::/32"
    ∷ codes "2606:4700::/32"
    ∷ codes "2803:f800::/32"
    ∷ codes "2405:b500::/32"
    ∷ codes "2405:8100::/32"
    ∷ codes "2a06:98c0::/29"
    ∷ codes "2c0f:f248::/32"
    ∷ []

pub record OriginLockParams : Type 0 where
  pub ports : List ℤ
  pub refresh : Option Bool

-- The two tests of a port.
abbrev pub port_error : ℤ → Option Error
port_error (negsuc n) = some (invalid_port (negsuc n))
port_error (pos n) =
    if ltb n 1 || ltb 65535 n
    then some (invalid_port (pos n))
    else if n == 22
    then some ssh_port
    else none

-- The loop over the ports.
unfoldable pub first_port_error : List ℤ → Option Error
first_port_error [] = none
first_port_error (p ∷ ps) =
    let rest = first_port_error ps in elim (port_error p) [ some e ↦ some e | none ↦ rest ]

abbrev pub as_ports : List ℤ → Option Error → Result Error (List ℤ)
as_ports ps none = success ps
as_ports ps (some e) = failure e

-- originLockPorts.
unfoldable pub origin_lock_ports : List ℤ → Result Error (List ℤ)
unfolding first_port_error
origin_lock_ports [] = success (pos 80 ∷ pos 443 ∷ [])
origin_lock_ports (p ∷ ps) =
    if ltb 8 (length (p ∷ ps))
    then failure too_many_ports
    else as_ports (p ∷ ps) (first_port_error (p ∷ ps))

-- `strings.Trim(t, "'\"")`.
abbrev quote : ℕ → Bool
quote c = (c == 39) || (c == 34)

unfoldable pub unquote_left : Text → Text
unquote_left [] = []
unquote_left (c ∷ s) = let rest = unquote_left s in if quote c then rest else c ∷ s

unfoldable pub unquote : Text → Text
unfolding unquote_left
unquote t = trim_right_by quote (unquote_left t)

-- The words up to `comment`, without quotes.
unfoldable pub until_comment : List Text → List Text
unfolding unquote
until_comment [] = []
until_comment (t ∷ ts) =
    let rest = until_comment ts in if text_eq t (codes "comment") then [] else unquote t ∷ rest

-- Preflight's `ufw status`.
unfoldable pub origin_lock_preflight : Host → M Text
origin_lock_preflight host = do
  require_linux host
  require_tool host (codes "ufw")
  run_tool host (codes "ufw" ∷ codes "status" ∷ [])

abbrev pub delete_words : Text → List Text
delete_words spec = codes "ufw" ∷ codes "--force" ∷ codes "delete" ∷ codes "allow" ∷ spec ∷ []

abbrev pub port_tcp : ℤ → Text
port_tcp port = itoa port ++ codes "/tcp"

unfoldable pub delete_rules : List ℤ → List (List Text)
delete_rules [] = []
delete_rules (p ∷ ps) = delete_words (port_tcp p) ∷ delete_words (itoa p) ∷ delete_rules ps

abbrev pub web_app_profiles : List Text
web_app_profiles =
    codes "Nginx Full"
    ∷ codes "Nginx HTTP"
    ∷ codes "Nginx HTTPS"
    ∷ codes "Apache Full"
    ∷ codes "Apache"
    ∷ codes "Apache Secure"
    ∷ []

unfoldable pub delete_profiles : List Text → List (List Text)
delete_profiles [] = []
delete_profiles (p ∷ ps) = delete_words p ∷ delete_profiles ps

-- Where no ports are asked for the profiles go as well.
abbrev pub closing_rules : List ℤ → List ℤ → List (List Text)
closing_rules [] ports = delete_rules ports ++ delete_profiles web_app_profiles
closing_rules (p ∷ ps) ports = delete_rules ports

-- The commands until the first that fails, whose error is wrapped.
unfoldable pub run_all : Host → (Error → Error) → List (List Text) → M (Unit {0})
run_all host wrap [] log = (success tt, log)
run_all host wrap (c ∷ cs) log =
    let rest = run_all host wrap cs (log ++ c ∷ []) in
    elim (told c (host.run log c)) [
      | success out ↦ rest
      | failure e ↦ (failure (wrap e), log ++ c ∷ [])
    ]

-- Every command, with the number of those that succeed.
unfoldable pub run_each : Host → List (List Text) → ℕ → M ℕ
run_each host [] n log = (success n, log)
run_each host (c ∷ cs) n log = elim (told c (host.run log c)) [
  | success out ↦ run_each host cs (suc n) (log ++ c ∷ [])
  | failure e ↦ run_each host cs n (log ++ c ∷ [])
]

abbrev pub reopen_words : ℤ → List Text
reopen_words port = codes "ufw" ∷ codes "allow" ∷ port_tcp port ∷ []

unfoldable pub reopen_rules : List ℤ → List (List Text)
reopen_rules [] = []
reopen_rules (p ∷ ps) = reopen_words p ∷ reopen_rules ps

abbrev pub wants_refresh : Option Bool → Bool
wants_refresh none = true
wants_refresh (some b) = b

abbrev port_number : Option ℤ → Bool
port_number none = false
port_number (some n) = leb_ℤ (pos 1) n && leb_ℤ n (pos 65535)

unfoldable pub unlock_rules : List (List Text) → List (List Text)
unlock_rules [] = []
unlock_rules (r ∷ rs) = (codes "ufw" ∷ codes "--force" ∷ codes "delete" ∷ r) ∷ unlock_rules rs

abbrev pub unwrapped : Error → Error
unwrapped e = e

-- The port of a rule, which strconv.Atoi reads again; its error is ignored.
abbrev rule_port : List Text → ℤ
rule_port (a ∷ b ∷ c ∷ d ∷ e ∷ f ∷ g ∷ rest) = elim (atoi g) [ some n ↦ n | none ↦ pos 0 ]
rule_port _ = pos 0

abbrev same_port : ℤ → ℤ → Bool
same_port a b = leb_ℤ a b && leb_ℤ b a

unfoldable pub holds_port : ℤ → List ℤ → Bool
holds_port p [] = false
holds_port p (q ∷ qs) = same_port p q || holds_port p qs

-- The ports of the rules, each once; the source's order is that of a Go map.
unfoldable pub locked_ports : List (List Text) → List ℤ
unfolding holds_port
locked_ports [] = []
locked_ports (r ∷ rs) =
    let rest = locked_ports rs in if holds_port (rule_port r) rest then rest else rule_port r ∷ rest

abbrev is_some : List (List Text) → Bool
is_some [] = false
is_some (r ∷ rs) = true

module _ (net : Netip) where
  abbrev masked_range : Option net.Prefix → Option net.Prefix
  masked_range none = none
  masked_range (some p) =
      if leb_ℤ (net.bits p) (pos 0) && leb_ℤ (pos 0) (net.bits p) then none else some (net.masked p)

  abbrev add_range : Option net.Prefix → Option (List net.Prefix) → Option (List net.Prefix)
  add_range none ps = none
  add_range (some p) none = none
  add_range (some p) (some ps) = some (p ∷ ps)

  -- parseCIDRLines; `none` is an error.
  unfoldable pub parse_cidr_lines : List Text → Option (List net.Prefix)
  parse_cidr_lines [] = some []
  parse_cidr_lines (l ∷ ls) =
      let rest = parse_cidr_lines ls in
      let line = trim_space l in
      if text_eq line [] then rest else add_range (masked_range (net.parse_prefix line)) rest

  abbrev live_body : Option Text → Option (List net.Prefix)
  live_body none = none
  live_body (some body) = elim (parse_cidr_lines (split 10 body)) [
    | none ↦ none
    | some [] ↦ none
    | some (p ∷ ps) ↦ some (p ∷ ps)
  ]

  abbrev both : Option (List net.Prefix) → Option (List net.Prefix) → Option (List net.Prefix)
  both none v6 = none
  both (some v4) none = none
  both (some v4) (some v6) = some (v4 ++ v6)

  -- The published ranges, if both lists are there and are well-formed.
  unfoldable pub live_ranges : Host → Option (List net.Prefix)
  unfolding parse_cidr_lines
  live_ranges host =
      both (live_body (host.fetch (codes "https://www.cloudflare.com/ips-v4")))
        (live_body (host.fetch (codes "https://www.cloudflare.com/ips-v6")))

  -- netip.MustParsePrefix of each embedded range; `none` is a panic.
  unfoldable pub must_parse : List Text → Option (List net.Prefix)
  must_parse [] = some []
  must_parse (s ∷ ss) = add_range (net.parse_prefix s) (must_parse ss)

  abbrev embedded : Option (List net.Prefix) → Result Error (List net.Prefix × Text)
  embedded none = failure panicked
  embedded (some ps) = success (ps, codes "embedded")

  abbrev or_embedded : Option (List net.Prefix) → Result Error (List net.Prefix × Text)
  unfolding must_parse
  or_embedded (some live) = success (live, codes "cloudflare.com")
  or_embedded none = embedded (must_parse (cloudflare_fallback_v4 ++ cloudflare_fallback_v6))

  -- cloudflareRanges.
  pub cloudflare_ranges : Host → Bool → Result Error (List net.Prefix × Text)
  unfolding live_ranges
  cloudflare_ranges host refresh = or_embedded (if refresh then live_ranges host else none)

  -- lockRuleArgs after `ufw`.
  abbrev pub lock_rule_args : net.Prefix → ℤ → List Text
  lock_rule_args c port =
      codes "allow"
      ∷ codes "from"
      ∷ net.prefix_string c
      ∷ codes "to"
      ∷ codes "any"
      ∷ codes "port"
      ∷ itoa port
      ∷ codes "proto"
      ∷ codes "tcp"
      ∷ codes "comment"
      ∷ origin_lock_tag
      ∷ []

  unfoldable pub range_rules : net.Prefix → List ℤ → List (List Text)
  range_rules c [] = []
  range_rules c (p ∷ ps) = (codes "ufw" ∷ lock_rule_args c p) ∷ range_rules c ps

  unfoldable pub lock_rules : List net.Prefix → List ℤ → List (List Text)
  unfolding range_rules
  lock_rules [] ports = []
  lock_rules (c ∷ cs) ports = range_rules c ports ++ lock_rules cs ports

  -- handleOriginLockApply.
  unfoldable pub handle_origin_lock_apply : Host → Option OriginLockParams → M Answer
  unfolding run_all run_each delete_rules delete_profiles lock_rules
  handle_origin_lock_apply host params = do
    p ← decoded params
    ports ← lift (origin_lock_ports p.ports)
    status ← origin_lock_preflight host
    check_that (ufw_active host status) firewall_inactive
    found ← lift (cloudflare_ranges host (wants_refresh p.refresh))
    _ ← run_all host aborted (lock_rules found.0 ports)
    removed ← run_each host (closing_rules p.ports ports) 0
    pure (origin_locked ports (length found.0) found.1 removed)

  abbrev known : Option net.Prefix → Bool
  known none = false
  known (some p) = true

  -- A rule of the shape that the lock writes.
  unfoldable pub is_lock_rule : List Text → Bool
  is_lock_rule (a ∷ b ∷ c ∷ d ∷ e ∷ f ∷ g ∷ h ∷ i ∷ []) =
      text_eq a (codes "allow")
      && text_eq b (codes "from")
      && text_eq d (codes "to")
      && text_eq e (codes "any")
      && text_eq f (codes "port")
      && text_eq h (codes "proto")
      && text_eq i (codes "tcp")
      && known (net.parse_prefix c)
      && port_number (atoi g)
  is_lock_rule _ = false

  abbrev from_fields : List Text → List (List Text)
  from_fields (a ∷ b ∷ c ∷ fs) =
      if text_eq a (codes "ufw")
        && text_eq b (codes "allow")
        && is_lock_rule (until_comment (b ∷ c ∷ fs))
      then until_comment (b ∷ c ∷ fs) ∷ []
      else []
  from_fields _ = []

  -- The rule of one line of `ufw show added`, if it is one of the lock's.
  unfoldable pub tagged_rule : Text → List (List Text)
  unfolding is_lock_rule until_comment
  tagged_rule line =
      if contains line origin_lock_tag then from_fields (fields (trim_space line)) else []

  -- taggedLockRules.
  unfoldable pub tagged_lock_rules : List Text → List (List Text)
  unfolding tagged_rule
  tagged_lock_rules [] = []
  tagged_lock_rules (l ∷ ls) = tagged_rule l ++ tagged_lock_rules ls

  -- handleOriginLockRemove.
  unfoldable pub handle_origin_lock_remove : Host → Option OriginLockParams → M Answer
  unfolding run_all run_each reopen_rules unlock_rules tagged_lock_rules
  handle_origin_lock_remove host params = do
    p ← decoded params
    ports ← lift (origin_lock_ports p.ports)
    _ ← origin_lock_preflight host
    _ ← run_all host unwrapped (reopen_rules ports)
    added ← run_tool host (codes "ufw" ∷ codes "show" ∷ codes "added" ∷ [])
    removed ← run_each host (unlock_rules (tagged_lock_rules (split 10 added))) 0
    pure (origin_unlocked ports removed)

  -- handleOriginLockStatus.
  unfoldable pub handle_origin_lock_status : Host → M Answer
  unfolding tagged_lock_rules locked_ports
  handle_origin_lock_status host = do
    status ← origin_lock_preflight host
    added ← run_tool host (codes "ufw" ∷ codes "show" ∷ codes "added" ∷ [])
    let rules = tagged_lock_rules (split 10 added)
    pure (lock_status (ufw_active host status) (is_some rules) (length rules) (locked_ports rules))
