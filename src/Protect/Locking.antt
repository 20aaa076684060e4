-- ===== src/Protect/Locking.antt =====
-- What the origin lock of internal/agent/protect_handlers.go runs, and in which order.
use serverkit_agent.Base.{
  ℕ, ◌≤◌, Bool, true, false, List, [], ◌∷◌, ◌++◌, Option, none, some, Text, codes, length, ◌≡◌,
  refl, sym, ap, ◌∙◌, ◌⊎◌, inl, inr, arith, append_assoc, append-nil, All, All-append, text_eq,
}
use mathlib.Core.Path.{subst}
use serverkit_agent.Base.Int.{ℤ}
use serverkit_agent.Base.Results.{Result, success, failure}
use serverkit_agent.Protect.{
  Netip, Error, aborted, firewall_inactive, not_linux, not_installed, invalid_params,
}
use serverkit_agent.Base.Steps.{
  pure, follow, ◌>>=◌, ◌>>◌, check_that, check_that-follow, follow_lem,
}
use serverkit_agent.Protect.Tools.{Host, Log, M, told, run_tool, Answer, origin_locked, ufw_active}
use serverkit_agent.Protect.OriginLock.{
  OriginLockParams, origin_lock_ports, origin_lock_preflight, closing_rules, run_all, run_each,
  cloudflare_ranges, wants_refresh, range_rules, lock_rules, handle_origin_lock_apply,
}
use serverkit_agent.Protect.Running.{
  Accepted, Stopping, all_ran, stopped, run_all-Stopping, run_each_lem,
}

abbrev pub status_words : List Text
status_words = codes "ufw" ∷ codes "status" ∷ []

module _ {A : Type 0} (host : Host) (P : Result Error A × Log → Type 0) where
  pub origin_lock_preflight_lem :
      (k : Text → M A) (log : Log)
      → ((e : Error) → (host.linux ≡ false) ⊎ (host.has (codes "ufw") ≡ false) → P (failure e, log))
      → ((e : Error)
          → told status_words (host.run log status_words) ≡ failure e
          → P (failure e, log ++ status_words ∷ []))
      → ((out : Text)
          → told status_words (host.run log status_words) ≡ success out
          → P (k out (log ++ status_words ∷ [])))
      → P (follow (origin_lock_preflight host log) k)
  unfolding origin_lock_preflight
  origin_lock_preflight_lem k log early failed good =
      let after = λ (r : Result Error Text × Log). P (follow r k) in
      let ufw : Text = codes "ufw" in
      let status : M Text = run_tool host status_words in
      check_that-follow after host.linux not_linux
        (check_that (host.has ufw) (not_installed ufw) >> status) log (λ q. early not_linux (inl q))
        (λ q.
          check_that-follow after (host.has ufw) (not_installed ufw) status log
            (λ r. early (not_installed ufw) (inr r))
            (λ r.
              follow_lem P (told status_words (host.run log status_words)) k
                (log ++ status_words ∷ []) failed good))

-- The handlers delete a rule by `ufw --force delete`, and by nothing else.
unfoldable pub deletes : List Text → Bool
deletes (a ∷ b ∷ c) = text_eq b (codes "--force")
deletes _ = false

abbrev pub Additive : List Text → Type 0
Additive c = deletes c ≡ false

-- The commands up to one of a sequence.
pub All-front :
    (P : List Text → Type 0) (done : Log) (c : List Text) (rest : Log)
    → All P (done ++ c ∷ rest)
    → All P (done ++ c ∷ [])
All-front P [] c rest (h, hs) = (h, tt)
All-front P (d ∷ done) c rest (h, hs) = (h, All-front P done c rest hs)

pub status_words-Additive : Additive status_words
unfolding deletes text_eq
status_words-Additive = refl

module _ (net : Netip) (host : Host) where
  range_rules-Additive : (r : net.Prefix) (ports : List ℤ) → All Additive (range_rules net r ports)
  unfolding range_rules deletes text_eq
  range_rules-Additive r [] = tt
  range_rules-Additive r (p ∷ ps) = (refl, range_rules-Additive r ps)

  lock_rules-Additive :
      (rs : List net.Prefix) (ports : List ℤ) → All Additive (lock_rules net rs ports)
  unfolding lock_rules
  lock_rules-Additive [] ports = tt
  lock_rules-Additive (r ∷ rs) ports =
      All-append Additive (range_rules net r ports) (lock_rules net rs ports)
        (range_rules-Additive r ports) (lock_rules-Additive rs ports)

  -- What stops an apply.
  pub data Hurdle (params : Option OriginLockParams) (log : Log) : Type 0 where
    no_params : params ≡ none → Hurdle params log
    bad_ports :
        (p : OriginLockParams) (e : Error)
        → params ≡ some p
        → origin_lock_ports p.ports ≡ failure e
        → Hurdle params log
    not_ready : (host.linux ≡ false) ⊎ (host.has (codes "ufw") ≡ false) → Hurdle params log
    no_status :
        (e : Error) → told status_words (host.run log status_words) ≡ failure e → Hurdle params log
    inactive :
        (status : Text)
        → told status_words (host.run log status_words) ≡ success status
        → ufw_active host status ≡ false
        → Hurdle params log
    no_ranges :
        (p : OriginLockParams) (e : Error)
        → params ≡ some p
        → cloudflare_ranges net host (wants_refresh p.refresh) ≡ failure e
        → Hurdle params log
    refused :
        (p : OriginLockParams) (ports : List ℤ) (ranges : List net.Prefix) (from : Text)
        (done : Log) (c : List Text) (rest : Log) (e : Error)
        → params ≡ some p
        → origin_lock_ports p.ports ≡ success ports
        → cloudflare_ranges net host (wants_refresh p.refresh) ≡ success (ranges, from)
        → lock_rules net ranges ports ≡ done ++ c ∷ rest
        → told c (host.run ((log ++ status_words ∷ []) ++ done) c) ≡ failure e
        → Hurdle params log

  -- How an apply ends: locked, after every rule of the lock was accepted, and only then the commands that close the
  -- ports; or an error, before any command that takes a rule away.
  pub data Applying (params : Option OriginLockParams) (log : Log)
      : Result Error Answer × Log → Type 0 where
    locked :
        (p : OriginLockParams) (ports : List ℤ) (status from : Text) (ranges : List net.Prefix)
        (removed : ℕ) (ran : Log)
        → params ≡ some p
        → origin_lock_ports p.ports ≡ success ports
        → told status_words (host.run log status_words) ≡ success status
        → ufw_active host status ≡ true
        → cloudflare_ranges net host (wants_refresh p.refresh) ≡ success (ranges, from)
        → Accepted host (log ++ status_words ∷ []) (lock_rules net ranges ports)
        → removed ≤ length (closing_rules p.ports ports)
        → ran ≡ log ++ (status_words ∷ (lock_rules net ranges ports ++ closing_rules p.ports ports))
        → Applying params log (success (origin_locked ports (length ranges) from removed), ran)
    unlocked :
        (e : Error) (ran after : Log)
        → Hurdle params log
        → All Additive ran
        → after ≡ log ++ ran
        → Applying params log (failure e, after)

  unlocked_early :
      (params : Option OriginLockParams) (log : Log) (e : Error)
      → Hurdle params log
      → Applying params log (failure e, log)
  unlocked_early params log e h = unlocked e [] log h tt (sym (append-nil log))

  unlocked_asked :
      (params : Option OriginLockParams) (log : Log) (e : Error)
      → Hurdle params log
      → Applying params log (failure e, log ++ status_words ∷ [])
  unlocked_asked params log e h =
      unlocked e (status_words ∷ []) (log ++ status_words ∷ []) h (status_words-Additive, tt) refl

  -- After the rules of the lock, the commands that close the ports.
  closing :
      (p : OriginLockParams) (log : Log) (ports : List ℤ) (status from : Text)
      (ranges : List net.Prefix)
      → origin_lock_ports p.ports ≡ success ports
      → told status_words (host.run log status_words) ≡ success status
      → ufw_active host status ≡ true
      → cloudflare_ranges net host (wants_refresh p.refresh) ≡ success (ranges, from)
      → (r : Result Error (Unit {0}) × Log)
      → Stopping host aborted (log ++ status_words ∷ []) (lock_rules net ranges ports) r
      → Applying (some p) log (
          follow r (λ u. run_each host (closing_rules p.ports ports) 0 >>= λ removed.
          pure (origin_locked ports (length ranges) from removed)))
  closing p log ports status from ranges ok asked active found r (all_ran good) =
      let (m, e, h) =
        run_each_lem host (closing_rules p.ports ports) 0
          ((log ++ status_words ∷ []) ++ lock_rules net ranges ports) in
      rw e (
        locked p ports status from ranges m _ refl ok asked active found good (omega (arith, h)) (
          ap (λ l. l ++ closing_rules p.ports ports)
            (append_assoc log (status_words ∷ []) (lock_rules net ranges ports))
          ∙ append_assoc log (status_words ∷ lock_rules net ranges ports)
              (closing_rules p.ports ports)))
  closing p log ports status from ranges ok asked active found r (stopped done c rest e q bad) =
      let all = subst (All Additive) q (lock_rules-Additive ranges ports) in
      unlocked (aborted e) (status_words ∷ (done ++ c ∷ [])) _
        (refused p ports ranges from done c rest e refl ok found q bad)
        (status_words-Additive, All-front Additive done c rest all)
        (append_assoc log (status_words ∷ []) (done ++ c ∷ []))

  -- An apply locks the origin, with every rule of the lock accepted before the first command that closes a port, or
  -- ends with an error and has taken no rule away.
  pub handle_origin_lock_apply-Applying :
      (params : Option OriginLockParams) (log : Log)
      → Applying params log (handle_origin_lock_apply net host params log)
  unfolding handle_origin_lock_apply
  handle_origin_lock_apply-Applying none log =
      unlocked_early none log invalid_params (no_params refl)
  handle_origin_lock_apply-Applying (some p) log =
      follow_lem (Applying (some p) log) (origin_lock_ports p.ports) _ log
        (λ e bad. unlocked_early (some p) log e (bad_ports p e refl bad))
        (λ ports ok.
          origin_lock_preflight_lem host (Applying (some p) log) _ log
            (λ e off. unlocked_early (some p) log e (not_ready off))
            (λ e bad. unlocked_asked (some p) log e (no_status e bad))
            (λ status asked.
              check_that-follow (Applying (some p) log) (ufw_active host status) firewall_inactive _
                (log ++ status_words ∷ [])
                (λ off. unlocked_asked (some p) log firewall_inactive (inactive status asked off))
                (λ active.
                  follow_lem (Applying (some p) log)
                    (cloudflare_ranges net host (wants_refresh p.refresh)) _
                    (log ++ status_words ∷ [])
                    (λ e bad. unlocked_asked (some p) log e (no_ranges p e refl bad))
                    (λ found live.
                      closing p log ports status found.1 found.0 ok asked active live
                        (run_all host aborted (lock_rules net found.0 ports)
                          (log ++ status_words ∷ []))
                        (run_all-Stopping host aborted (lock_rules net found.0 ports)
                          (log ++ status_words ∷ []))))))
