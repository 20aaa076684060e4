-- ===== src/Protect/Validation.antt =====
-- The checks of internal/agent/protect_handlers.go that stand before a command.
use serverkit_agent.Base.{
  ℕ, ◌≤◌, ltb, Bool, true, false, not, List, [], ◌∷◌, ◌++◌, Option, none, some, Text, codes,
  text_eq, length, ◌≡◌, ◌≢◌, refl, sym, ◌⊎◌, inl, inr, arith, All, Bool-cases, Option-cases,
  trim_space,
}
use serverkit_agent.Base.Int.{ℤ, pos, negsuc, ◌≤ℤ◌, ltb_ℤ}
use serverkit_agent.Base.Results.{
  Result, success, failure, Ensures, holds, failed, Ensures-bind, Ensures-require, Ensures-success,
  ◌>>◌, require,
}
use serverkit_agent.Protect.{
  Netip, Error, any_address, too_broad, zone_not_allowed, invalid_params, not_linux, not_installed,
  max_ban_seconds, parse_duration, read_network, parse_network, parse_ban_target, is_any, min_bits,
  is_special,
}
use serverkit_agent.Base.Steps.{check_that-follow, follow_lem}
use serverkit_agent.Protect.Tools.{
  Host, Log, told, Answer, banned, CrowdsecParams, handle_crowdsec_ban, ban_words,
}
use serverkit_agent.Protect.OriginLock.{port_error, first_port_error, origin_lock_ports}

-- A port that the origin lock may close.
abbrev pub Lockable : ℤ → Type 0
Lockable (pos n) = (1 ≤ n) × (n ≤ 65535) × (n ≢ 22)
Lockable (negsuc n) = ⊥

port_error-Lockable : (p : ℤ) → port_error p ≡ none → Lockable p
port_error-Lockable (pos n) h = (ground arith, ground arith, λ e. ground arith)
port_error-Lockable (negsuc n) h = ground arith

first_port_error-Lockable : (ps : List ℤ) → first_port_error ps ≡ none → All Lockable ps
unfolding first_port_error
first_port_error-Lockable [] h = tt
first_port_error-Lockable (p ∷ ps) h = elim (Option-cases (port_error p)) [
  | inl e ↦ (port_error-Lockable p e, first_port_error-Lockable ps (rw (e, first_port_error) at h))
  | inr (err, e) ↦ absurd (cc (rw (e, first_port_error) at h))
]

abbrev pub LockablePorts : List ℤ → Type 0
LockablePorts ps = All Lockable ps × (1 ≤ length ps) × (length ps ≤ 8)

origin_lock_ports-Ensures : (ps : List ℤ) → Ensures LockablePorts (origin_lock_ports ps)
unfolding origin_lock_ports
origin_lock_ports-Ensures [] = holds (
  (
    (omega arith, omega arith, λ e. omega arith),
    ((omega arith, omega arith, λ e. omega arith), tt),
  ),
  omega arith,
  omega arith,
)
origin_lock_ports-Ensures (p ∷ ps) = elim (Bool-cases (ltb 8 (length (p ∷ ps)))) [
  | inl e ↦ rw (e, origin_lock_ports) failed
  | inr e ↦ elim (Option-cases (first_port_error (p ∷ ps))) [
    | inl q ↦
        rw (e, q, origin_lock_ports)
          (holds (first_port_error-Lockable (p ∷ ps) q, omega arith, ground arith))
    | inr (err, q) ↦ rw (e, q, origin_lock_ports) failed
  ]
]

-- The ports that an origin lock accepts are one to eight, each between 1 and 65535, and none is the port of SSH.
pub origin_lock_ports-Lockable :
    (ps qs : List ℤ) → origin_lock_ports ps ≡ success qs → LockablePorts qs
origin_lock_ports-Lockable ps qs h =
    Ensures-success (origin_lock_ports ps) qs (origin_lock_ports-Ensures ps) h

-- The durations of a ban are positive and at most 30 days, and no duration is one hour.
pub parse_duration_bounds :
    (d : ℤ) (secs : ℕ) → parse_duration d ≡ success secs → (1 ≤ secs) × (secs ≤ max_ban_seconds)
unfolding parse_duration
parse_duration_bounds d secs h = ground arith

not_any : (b : Bool) → not b ≡ true → b ≡ false
not_any true h = sym h
not_any false h = refl

not_ltb_ℤ : (a b : ℤ) → not (ltb_ℤ a b) ≡ true → b ≤ℤ a
not_ltb_ℤ a b h = ground arith

module _ (net : Netip) where
  -- An address or a range that a ban may name.
  abbrev pub Bannable : net.Prefix → Type 0
  Bannable p =
      (is_any net p ≡ false)
      × (is_special net (net.addr p) ≡ false)
      × (pos (min_bits net 16 32 p) ≤ℤ net.bits p)

  abbrev Bounded : net.Prefix → Type 0
  Bounded p = (is_any net p ≡ false) × (pos (min_bits net 16 32 p) ≤ℤ net.bits p)

  parse_network-Ensures : (s : Text) → Ensures Bounded (parse_network net s 16 32)
  unfolding parse_network
  parse_network-Ensures s = Ensures-bind (read_network net (trim_space s)) _ (λ r e.
      let q = net.masked (net.prefix_from (net.unmap (net.addr r)) (net.bits r)) in
      let broad : Error = too_broad (min_bits net 16 32 q) in
      let last : Result Error net.Prefix =
        require (not (ltb_ℤ (net.bits q) (pos (min_bits net 16 32 q)))) broad >> success q in
      let any : Error = any_address (trim_space s) in
      Ensures-require (text_eq (net.zone (net.addr r)) []) zone_not_allowed
        (require (not (is_any net q)) any >> last)
        (λ z. Ensures-require (not (is_any net q)) any last (λ a.
          Ensures-require (not (ltb_ℤ (net.bits q) (pos (min_bits net 16 32 q)))) broad (success q)
            (λ b.
              holds (
                not_any (is_any net q) a,
                not_ltb_ℤ (net.bits q) (pos (min_bits net 16 32 q)) b,
              )))))

  -- Whatever a ban names is no loopback, multicast, link-local or unspecified address, and no range broader than
  -- sixteen bits of an IPv4 address or thirty-two of an IPv6 one.
  pub parse_ban_target-Bannable :
      (s : Text) (p : net.Prefix) → parse_ban_target net s ≡ success p → Bannable p
  unfolding parse_ban_target
  parse_ban_target-Bannable s p h =
      Ensures-success {P = Bannable} (parse_ban_target net s) p
        (Ensures-bind (parse_network net s 16 32) _ (λ q e.
          Ensures-require (not (is_special net (net.addr q))) _ _ (λ a.
            let (any, wide) =
              Ensures-success {P = Bounded} (parse_network net s 16 32) q (parse_network-Ensures s)
                e in
            holds (any, not_any (is_special net (net.addr q)) a, wide))))
        h

module _ (net : Netip) (host : Host) where
  -- What stops a CrowdSec ban before its command.
  pub data Objection (params : Option CrowdsecParams) : Type 0 where
    no_params : params ≡ none → Objection params
    bad_target :
        (p : CrowdsecParams) (e : Error)
        → params ≡ some p
        → parse_ban_target net p.ip ≡ failure e
        → Objection params
    bad_duration :
        (p : CrowdsecParams) (e : Error)
        → params ≡ some p
        → parse_duration p.duration ≡ failure e
        → Objection params
    not_ready : (host.linux ≡ false) ⊎ (host.has (codes "cscli") ≡ false) → Objection params

  -- The target and the time that a request gives.
  abbrev pub Chosen : Option CrowdsecParams → net.Prefix → ℕ → Type 0
  Chosen params target secs =
      (p : CrowdsecParams) × (params ≡ some p)
      × (parse_ban_target net p.ip ≡ success target)
      × (parse_duration p.duration ≡ success secs)
      × Bannable net target
      × (1 ≤ secs)
      × (secs ≤ max_ban_seconds)

  -- How a CrowdSec ban ends.
  pub data Banning (params : Option CrowdsecParams) (log : Log)
      : Result Error Answer × Log → Type 0 where
    declined : (e : Error) → Objection params → Banning params log (failure e, log)
    unheard :
        (target : net.Prefix) (secs : ℕ) (e : Error)
        → Chosen params target secs
        → told (ban_words net host target secs) (host.run log (ban_words net host target secs))
          ≡ failure e
        → Banning params log (failure e, log ++ ban_words net host target secs ∷ [])
    accepted :
        (target : net.Prefix) (secs : ℕ) (out : Text)
        → Chosen params target secs
        → told (ban_words net host target secs) (host.run log (ban_words net host target secs))
          ≡ success out
        → Banning params log (
          success (banned (net.prefix_string target) secs out),
          log ++ ban_words net host target secs ∷ [],
        )

  -- A CrowdSec ban runs one command, for a target that a ban may name and for 30 days at most, or it runs nothing and
  -- ends with an error for a reason that the request or the host gives.
  pub handle_crowdsec_ban-Banning :
      (params : Option CrowdsecParams) (log : Log)
      → Banning params log (handle_crowdsec_ban net host params log)
  unfolding handle_crowdsec_ban
  handle_crowdsec_ban-Banning none log = declined invalid_params (no_params refl)
  handle_crowdsec_ban-Banning (some p) log =
      follow_lem (Banning (some p) log) (parse_ban_target net p.ip) _ log
        (λ e bad. declined e (bad_target p e refl bad))
        (λ target named.
          follow_lem (Banning (some p) log) (parse_duration p.duration) _ log
            (λ e bad. declined e (bad_duration p e refl bad))
            (λ secs timed.
              check_that-follow (Banning (some p) log) host.linux not_linux _ log
                (λ off. declined not_linux (not_ready (inl off)))
                (λ on.
                  check_that-follow (Banning (some p) log) (host.has (codes "cscli"))
                    (not_installed (codes "cscli")) _ log
                    (λ off. declined (not_installed (codes "cscli")) (not_ready (inr off)))
                    (λ there.
                      let (low, high) = parse_duration_bounds p.duration secs timed in
                      let chosen : Chosen (some p) target secs = (
                        p,
                        refl,
                        named,
                        timed,
                        parse_ban_target-Bannable net p.ip target named,
                        low,
                        high,
                      ) in
                      follow_lem (Banning (some p) log)
                        (told (ban_words net host target secs)
                          (host.run log (ban_words net host target secs)))
                        _ _ (λ e bad. unheard target secs e chosen bad)
                        (λ out good. accepted target secs out chosen good)))))
