-- ===== src/Protect.antt =====
-- internal/agent/protect_handlers.go: the checks of operator-supplied values, and the commands that the
-- security handlers run.
pub mod Tools
pub mod OriginLock
pub mod Running
pub mod Locking
pub mod Unlocking
pub mod Validation
use serverkit_agent.Base.{
  ℕ, zero, suc, ◌+◌, ◌*◌, ◌==◌, ltb, leb, if◌then◌else◌, Bool, true, false, ◌&&◌, ◌||◌, not, List,
  [], ◌∷◌, ◌++◌, Option, none, some, Text, codes, text_eq, length, trim_space, contains,
}
use serverkit_agent.Base.Int.{ℤ, pos, negsuc, ltb_ℤ, leb_ℤ}
use serverkit_agent.Base.Results.{Result, success, failure, ◌>>=◌, ◌>>◌, require}
use serverkit_agent.Base.Matching.{all_chars, letter, digit, lower}
use serverkit_agent.Base.Decimal.{itoa}

-- What the handlers use of net/netip.
pub record Netip : Type 1 where
  pub Addr : Type 0
  pub Prefix : Type 0
  pub parse_prefix : Text → Option Prefix
  pub parse_addr : Text → Option Addr
  pub prefix_from : Addr → ℤ → Prefix
  pub masked : Prefix → Prefix
  pub addr : Prefix → Addr
  pub bits : Prefix → ℤ
  pub bit_len : Addr → ℤ
  pub unmap : Addr → Addr
  pub zone : Addr → Text
  pub is_unspecified : Addr → Bool
  pub is4 : Addr → Bool
  pub is_loopback : Addr → Bool
  pub is_multicast : Addr → Bool
  pub is_link_local_unicast : Addr → Bool
  pub addr_string : Addr → Text
  pub prefix_string : Prefix → Text

pub data Error : Type 0 where
  invalid_params : Error
  invalid_cidr : Text → Error
  invalid_ip : Text → Error
  zone_not_allowed : Error
  any_address : Text → Error
  too_broad : ℕ → Error
  special_address : Error
  invalid_jail : Text → Error
  invalid_duration : Error
  invalid_port : ℤ → Error
  invalid_protocol : Text → Error
  not_linux : Error
  not_installed : Text → Error
  tool_failed : List Text → Text → Error
  no_firewall : Error
  range_not_banned : Error
  not_json : Error
  too_many_ports : Error
  ssh_port : Error
  firewall_inactive : Error
  aborted : Error → Error
  panicked : Error

abbrev pub max_ban_seconds : ℕ
max_ban_seconds = 30 * 24 * 3600

abbrev pub default_ban_secs : ℕ
default_ban_secs = 3600

-- jailNameRe: one to forty letters, digits, `_` and `-`.
abbrev pub jail_char : ℕ → Bool
jail_char c = letter c || digit c || (c == b'_') || (c == b'-')

unfoldable pub parse_jail : Text → Result Error Text
parse_jail s =
    if ltb 0 (length s) && leb (length s) 40 && all_chars jail_char s
    then success s
    else failure (invalid_jail s)

unfoldable pub parse_duration : ℤ → Result Error ℕ
parse_duration (pos zero) = success default_ban_secs
parse_duration (pos (suc n)) =
    if ltb max_ban_seconds (suc n) then failure invalid_duration else success (suc n)
parse_duration (negsuc n) = failure invalid_duration

abbrev valid_port : ℤ → Bool
valid_port port = leb_ℤ (pos 1) port && leb_ℤ port (pos 65535)

-- An empty protocol is tcp. The argument is strings.ToLower.
abbrev known_proto : Text → Result Error Text
known_proto proto =
    if text_eq proto []
    then success (codes "tcp")
    else if text_eq proto (codes "tcp") || text_eq proto (codes "udp")
    then success proto
    else failure (invalid_protocol proto)

unfoldable pub parse_port_proto : (Text → Text) → ℤ → Text → Result Error Text
parse_port_proto lowered port proto =
    if valid_port port
    then known_proto (lowered (trim_space proto))
    else failure (invalid_port port)

module _ (net : Netip) where
  -- The address or range that a text names, before the checks.
  unfoldable pub read_network : Text → Result Error net.Prefix
  read_network s =
      if contains s (codes "/")
      then elim (net.parse_prefix s) [ some p ↦ success p | none ↦ failure (invalid_cidr s) ]
      else elim (net.parse_addr s) [
        | some a ↦ success (net.prefix_from (net.unmap a) (net.bit_len (net.unmap a)))
        | none ↦ failure (invalid_ip s)
      ]

  abbrev pub min_bits : ℕ → ℕ → net.Prefix → ℕ
  min_bits v4 v6 p = if net.is4 (net.addr p) then v4 else v6

  abbrev pub is_any : net.Prefix → Bool
  is_any p =
      net.is_unspecified (net.addr p) || (leb_ℤ (net.bits p) (pos 0) && leb_ℤ (pos 0) (net.bits p))

  -- parseNetwork.
  unfoldable pub parse_network : Text → ℕ → ℕ → Result Error net.Prefix
  unfolding read_network
  parse_network text v4 v6 =
      let s = trim_space text in
      do
        p ← read_network s
        require (text_eq (net.zone (net.addr p)) []) zone_not_allowed
        let q = net.masked (net.prefix_from (net.unmap (net.addr p)) (net.bits p))
        require (not (is_any q)) (any_address s)
        require (not (ltb_ℤ (net.bits q) (pos (min_bits v4 v6 q)))) (too_broad (min_bits v4 v6 q))
        success q

  abbrev pub is_special : net.Addr → Bool
  is_special a = net.is_loopback a || net.is_multicast a || net.is_link_local_unicast a

  -- parseBanTarget.
  unfoldable pub parse_ban_target : Text → Result Error net.Prefix
  unfolding parse_network
  parse_ban_target s = do
    p ← parse_network s 16 32
    require (not (is_special (net.addr p))) special_address
    success p

  abbrev pub is_single : net.Prefix → Bool
  is_single p =
      leb_ℤ (net.bits p) (net.bit_len (net.addr p)) && leb_ℤ (net.bit_len (net.addr p)) (net.bits p)

  abbrev pub ip_arg : net.Prefix → Text
  ip_arg p = if is_single p then net.addr_string (net.addr p) else net.prefix_string p

  abbrev pub cscli_target : net.Prefix → List Text
  cscli_target p =
      if is_single p
      then codes "--ip" ∷ net.addr_string (net.addr p) ∷ []
      else codes "--range" ∷ net.prefix_string p ∷ []
