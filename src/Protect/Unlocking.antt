-- ===== src/Protect/Unlocking.antt =====
-- How the origin lock of internal/agent/protect_handlers.go is taken away.
use serverkit_agent.Base.{
  ℕ, ◌≤◌, false, List, [], ◌∷◌, ◌++◌, Option, none, some, Text, codes, text_eq, length, split, ◌≡◌,
  refl, sym, ap, ◌∙◌, ◌⊎◌, arith, append_assoc, append-nil, All, All-append, ltb, Bool-cases, inl,
  inr,
}
use mathlib.Core.Path.{subst}
use serverkit_agent.Base.Int.{ℤ, pos}
use serverkit_agent.Base.Results.{Result, success, failure}
use serverkit_agent.Protect.{Netip, Error, invalid_params}
use serverkit_agent.Base.Steps.{pure, follow, ◌>>=◌, follow_lem}
use serverkit_agent.Protect.Tools.{Host, Log, told, run_tool, Answer, origin_unlocked}
use serverkit_agent.Base.Decimal.{itoa}
use serverkit_agent.Protect.OriginLock.{
  as_ports, first_port_error, reopen_words, OriginLockParams, origin_lock_ports, run_all, run_each,
  reopen_rules, unlock_rules, tagged_lock_rules, handle_origin_lock_remove, unwrapped,
}
use serverkit_agent.Protect.Running.{
  Accepted, Stopping, all_ran, stopped, run_all-Stopping, run_each_lem,
}
use serverkit_agent.Protect.Locking.{
  status_words, status_words-Additive, deletes, Additive, All-front, origin_lock_preflight_lem,
}

abbrev pub added_words : List Text
added_words = codes "ufw" ∷ codes "show" ∷ codes "added" ∷ []

reopen_rules-Additive : (ports : List ℤ) → All Additive (reopen_rules ports)
unfolding reopen_rules deletes text_eq
reopen_rules-Additive [] = tt
reopen_rules-Additive (p ∷ ps) = (refl, reopen_rules-Additive ps)

added_words-Additive : Additive added_words
unfolding deletes text_eq
added_words-Additive = refl

-- The ports that a request is about.
abbrev pub Requested : List ℤ → List ℤ → Type 0
Requested [] ports = ports ≡ pos 80 ∷ pos 443 ∷ []
Requested (p ∷ ps) ports = ports ≡ p ∷ ps

as_ports-success :
    (ps : List ℤ) (e : Option Error) (ports : List ℤ) → as_ports ps e ≡ success ports → ports ≡ ps
as_ports-success ps none ports h = cc h
as_ports-success ps (some e) ports h = absurd (cc h)

origin_lock_ports-Requested :
    (given ports : List ℤ) → origin_lock_ports given ≡ success ports → Requested given ports
unfolding origin_lock_ports
origin_lock_ports-Requested [] ports h = cc h
origin_lock_ports-Requested (p ∷ ps) ports h = elim (Bool-cases (ltb 8 (length (p ∷ ps)))) [
  | inl e ↦ absurd (cc (rw e at h))
  | inr e ↦ as_ports-success (p ∷ ps) (first_port_error (p ∷ ps)) ports (rw e at h)
]

-- The commands that open ports.
abbrev pub openings : List ℤ → List (List Text)
openings [] = []
openings (p ∷ ps) = (codes "ufw" ∷ codes "allow" ∷ (itoa p ++ codes "/tcp") ∷ []) ∷ openings ps

reopen_rules-openings : (ports : List ℤ) → reopen_rules ports ≡ openings ports
unfolding reopen_rules
reopen_rules-openings [] = refl
reopen_rules-openings (p ∷ ps) = ap (λ r. reopen_words p ∷ r) (reopen_rules-openings ps)

module _ (net : Netip) (host : Host) where
  -- What stops a remove.
  pub data Setback (params : Option OriginLockParams) (log : Log) : Type 0 where
    no_params : params ≡ none → Setback params log
    bad_ports :
        (p : OriginLockParams) (e : Error)
        → params ≡ some p
        → origin_lock_ports p.ports ≡ failure e
        → Setback params log
    not_ready : (host.linux ≡ false) ⊎ (host.has (codes "ufw") ≡ false) → Setback params log
    no_status :
        (e : Error) → told status_words (host.run log status_words) ≡ failure e → Setback params log
    refused :
        (p : OriginLockParams) (ports : List ℤ) (done : Log) (c : List Text) (rest : Log)
        (e : Error)
        → params ≡ some p
        → origin_lock_ports p.ports ≡ success ports
        → reopen_rules ports ≡ done ++ c ∷ rest
        → told c (host.run ((log ++ status_words ∷ []) ++ done) c) ≡ failure e
        → Setback params log
    no_rules :
        (p : OriginLockParams) (ports : List ℤ) (e : Error)
        → params ≡ some p
        → origin_lock_ports p.ports ≡ success ports
        → told added_words (host.run ((log ++ status_words ∷ []) ++ reopen_rules ports) added_words)
          ≡ failure e
        → Setback params log

  -- How a remove ends: unlocked, after `ufw allow` was accepted for each port that the request names, or for 80 and 443 if
  -- it names none, and only then the commands that take the rules of the lock away; or an error, before any of these.
  pub data Removing (params : Option OriginLockParams) (log : Log)
      : Result Error Answer × Log → Type 0 where
    unlocked :
        (p : OriginLockParams) (ports : List ℤ) (added : Text) (removed : ℕ) (ran : Log)
        → params ≡ some p
        → origin_lock_ports p.ports ≡ success ports
        → Requested p.ports ports
        → Accepted host (log ++ status_words ∷ []) (openings ports)
        → told added_words (host.run ((log ++ status_words ∷ []) ++ openings ports) added_words)
          ≡ success added
        → removed ≤ length (unlock_rules (tagged_lock_rules net (split 10 added)))
        → ran
          ≡ (((log ++ status_words ∷ []) ++ openings ports) ++ added_words ∷ [])
            ++ unlock_rules (tagged_lock_rules net (split 10 added))
        → Removing params log (success (origin_unlocked ports removed), ran)
    still_locked :
        (e : Error) (ran after : Log)
        → Setback params log
        → All Additive ran
        → after ≡ log ++ ran
        → Removing params log (failure e, after)

  early :
      (params : Option OriginLockParams) (log : Log) (e : Error)
      → Setback params log
      → Removing params log (failure e, log)
  early params log e h = still_locked e [] log h tt (sym (append-nil log))

  -- After the ports are open again, the rules of the lock.
  taking :
      (p : OriginLockParams) (log : Log) (ports : List ℤ)
      → origin_lock_ports p.ports ≡ success ports
      → (r : Result Error (Unit {0}) × Log)
      → Stopping host unwrapped (log ++ status_words ∷ []) (reopen_rules ports) r
      → Removing (some p) log (
          follow r (λ u. run_tool host added_words >>= λ added.
          run_each host (unlock_rules (tagged_lock_rules net (split 10 added))) 0 >>= λ removed.
          pure (origin_unlocked ports removed)))
  taking p log ports ok r (all_ran good) =
      let opened = (log ++ status_words ∷ []) ++ reopen_rules ports in
      let same = reopen_rules-openings ports in
      follow_lem (Removing (some p) log) (told added_words (host.run opened added_words)) _
        (opened ++ added_words ∷ [])
        (λ e bad.
          still_locked e (status_words ∷ (reopen_rules ports ++ added_words ∷ [])) _
            (no_rules p ports e refl ok bad)
            (
              status_words-Additive,
              All-append Additive (reopen_rules ports) (added_words ∷ [])
                  (reopen_rules-Additive ports) (added_words-Additive, tt),
            )
            (ap (λ l. l ++ added_words ∷ [])
                (append_assoc log (status_words ∷ []) (reopen_rules ports))
              ∙ append_assoc log (status_words ∷ reopen_rules ports) (added_words ∷ [])))
        (λ added asked.
          let (m, e, h) =
            run_each_lem host (unlock_rules (tagged_lock_rules net (split 10 added))) 0
              (opened ++ added_words ∷ []) in
          rw e (
            unlocked p ports added m _ refl ok (origin_lock_ports-Requested p.ports ports ok)
              (subst (Accepted host (log ++ status_words ∷ [])) same good)
              (subst
                (λ rs.
                  told added_words (host.run ((log ++ status_words ∷ []) ++ rs) added_words)
                  ≡ success added)
                same asked)
              (omega (arith, h))
              (ap
                (λ rs.
                  (((log ++ status_words ∷ []) ++ rs) ++ added_words ∷ [])
                  ++ unlock_rules (tagged_lock_rules net (split 10 added)))
                same)))
  taking p log ports ok r (stopped done c rest e q bad) =
      let all = subst (All Additive) q (reopen_rules-Additive ports) in
      still_locked e (status_words ∷ (done ++ c ∷ [])) _
        (refused p ports done c rest e refl ok q bad)
        (status_words-Additive, All-front Additive done c rest all)
        (append_assoc log (status_words ∷ []) (done ++ c ∷ []))

  -- A remove opens the ports that the request names, or 80 and 443 if it names none, and `ufw allow` was accepted for each
  -- of them, before the first command that takes a rule away; or it ends with an error and has taken none away. The
  -- only other commands ask for the status and the rules: ports of the lock that the request does not name are not opened.
  pub handle_origin_lock_remove-Removing :
      (params : Option OriginLockParams) (log : Log)
      → Removing params log (handle_origin_lock_remove net host params log)
  unfolding handle_origin_lock_remove
  handle_origin_lock_remove-Removing none log = early none log invalid_params (no_params refl)
  handle_origin_lock_remove-Removing (some p) log =
      follow_lem (Removing (some p) log) (origin_lock_ports p.ports) _ log
        (λ e bad. early (some p) log e (bad_ports p e refl bad))
        (λ ports ok.
          origin_lock_preflight_lem host (Removing (some p) log) _ log
            (λ e off. early (some p) log e (not_ready off))
            (λ e bad.
              still_locked e (status_words ∷ []) (log ++ status_words ∷ []) (no_status e bad)
                (status_words-Additive, tt) refl)
            (λ status asked.
              taking p log ports ok
                (run_all host unwrapped (reopen_rules ports) (log ++ status_words ∷ []))
                (run_all-Stopping host unwrapped (reopen_rules ports) (log ++ status_words ∷ []))))
