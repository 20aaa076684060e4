-- ===== src/Tests/Firewalls.antt =====
-- The origin lock and a ban on a host whose commands all succeed.
use serverkit_agent.Base.{true, false, [], ◌∷◌, Option, none, some, Text, codes}
use serverkit_agent.Base.Int.{ℤ, pos}
use serverkit_agent.Protect.{Netip}
use serverkit_agent.Protect.Tools.{Host, CrowdsecParams, handle_crowdsec_ban}
use serverkit_agent.Protect.OriginLock.{
  OriginLockParams, handle_origin_lock_apply, handle_origin_lock_remove,
}
use serverkit_agent.Protect.Locking.{Applying, handle_origin_lock_apply-Applying}
use serverkit_agent.Protect.Unlocking.{Removing, handle_origin_lock_remove-Removing}
use serverkit_agent.Protect.Validation.{Banning, handle_crowdsec_ban-Banning}

-- Addresses are their texts, and every text is a range of 24 bits.
abbrev net : Netip
net = record {
  Addr = Text;
  Prefix = Text × ℤ;
  parse_prefix = λ t. some (t, pos 24);
  parse_addr = λ t. some t;
  prefix_from = λ a b. (a, b);
  masked = λ p. p;
  addr = λ p. p.0;
  bits = λ p. p.1;
  bit_len = λ a. pos 32;
  unmap = λ a. a;
  zone = λ a. [];
  is_unspecified = λ a. false;
  is4 = λ a. true;
  is_loopback = λ a. false;
  is_multicast = λ a. false;
  is_link_local_unicast = λ a. false;
  addr_string = λ a. a;
  prefix_string = λ p. p.0;
}

abbrev host : Host
host = record {
  linux = true;
  has = λ name. true;
  run = λ log words. (codes "status: active", none);
  fetch = λ url. none;
  lowered = λ t. t;
  valid_json = λ t. true;
}

abbrev web : Option OriginLockParams
web = some record { ports = pos 443 ∷ []; refresh = some false }

handle_origin_lock_apply-Applying_example :
    Applying net host web [] (handle_origin_lock_apply net host web [])
handle_origin_lock_apply-Applying_example = handle_origin_lock_apply-Applying net host web []

handle_origin_lock_remove-Removing_example :
    Removing net host web [] (handle_origin_lock_remove net host web [])
handle_origin_lock_remove-Removing_example = handle_origin_lock_remove-Removing net host web []

abbrev intruder : Option CrowdsecParams
intruder = some record { ip = codes "192.0.2.7"; duration = pos 60 }

handle_crowdsec_ban-Banning_example :
    Banning net host intruder [] (handle_crowdsec_ban net host intruder [])
handle_crowdsec_ban-Banning_example = handle_crowdsec_ban-Banning net host intruder []
