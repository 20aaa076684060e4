-- ===== src/Protect/Running.antt =====
-- Sequences of the commands that protect_handlers.go runs, and what follows a step of a handler.
use serverkit_agent.Base.{
  ℕ, suc, ◌+◌, ◌≤◌, List, [], ◌∷◌, ◌++◌, Text, length, ◌≡◌, refl, sym, ap, ◌∙◌, arith, append_assoc,
  append-nil, inl, inr,
}
use mathlib.Core.Path.{subst}
use serverkit_agent.Base.Results.{Result, success, failure, Result-cases}
use serverkit_agent.Protect.{Error}
use serverkit_agent.Protect.Tools.{Host, Log, told}
use serverkit_agent.Protect.OriginLock.{run_all, run_each}

-- After the commands of a log, these end without an error, one after another.
abbrev pub Accepted : Host → Log → Log → Type 0
Accepted host log [] = Unit
Accepted host log (c ∷ cs) =
    ((out : Text) × (told c (host.run log c) ≡ success out)) × Accepted host (log ++ c ∷ []) cs

-- What a sequence leaves: all of it ran, or it stopped at the first error.
pub data Stopping (host : Host) (wrap : Error → Error) (log cs : Log)
    : Result Error (Unit {0}) × Log → Type 0 where
  all_ran : Accepted host log cs → Stopping host wrap log cs (success tt, log ++ cs)
  stopped :
      (done : Log) (c : List Text) (rest : Log) (e : Error)
      → cs ≡ done ++ c ∷ rest
      → told c (host.run (log ++ done) c) ≡ failure e
      → Stopping host wrap log cs (failure (wrap e), log ++ (done ++ c ∷ []))

module _ (host : Host) where
  longer :
      {wrap : Error → Error} {log cs : Log} {r : Result Error (Unit {0}) × Log} (c : List Text)
      (out : Text)
      → told c (host.run log c) ≡ success out
      → Stopping host wrap (log ++ c ∷ []) cs r
      → Stopping host wrap log (c ∷ cs) r
  longer {wrap} {log} {cs} c out e (all_ran ok) =
      subst (λ l. Stopping host wrap log (c ∷ cs) (success tt, l))
        (sym (append_assoc log (c ∷ []) cs)) (all_ran ((out, e), ok))
  longer {wrap} {log} {cs} c out e (stopped done d rest err q bad) =
      subst (λ l. Stopping host wrap log (c ∷ cs) (failure (wrap err), l))
        (sym (append_assoc log (c ∷ []) (done ++ d ∷ [])))
        (stopped (c ∷ done) d rest err (ap (λ l. c ∷ l) q)
          (ap (λ l. told d (host.run l d)) (sym (append_assoc log (c ∷ []) done)) ∙ bad))

  pub run_all-Stopping :
      (wrap : Error → Error) (cs log : Log) → Stopping host wrap log cs (run_all host wrap cs log)
  unfolding run_all
  run_all-Stopping wrap [] log =
      subst (λ l. Stopping host wrap log [] (success tt, l)) (append-nil log) (all_ran tt)
  run_all-Stopping wrap (c ∷ cs) log =
      let ih = run_all-Stopping wrap cs (log ++ c ∷ []) in
      elim (Result-cases (told c (host.run log c))) [
        | inl (out, e) ↦ rw (e, run_all) (longer c out e ih)
        | inr (e, q) ↦
            rw (q, run_all)
              (stopped [] c cs e refl (ap (λ l. told c (host.run l c)) (append-nil log) ∙ q))
      ]

  -- A run that goes on after errors runs every command, and counts no more than there are.
  pub run_each_lem :
      (cs : Log) (n : ℕ) (log : Log)
      → (m : ℕ) × (run_each host cs n log ≡ (success m, log ++ cs)) × m ≤ n + length cs
  unfolding run_each
  run_each_lem [] n log = (n, ap (λ l. (success n, l)) (sym (append-nil log)), omega arith)
  run_each_lem (c ∷ cs) n log = elim (Result-cases (told c (host.run log c))) [
    | inl (out, q) ↦
        let (m, e, h) = run_each_lem cs (suc n) (log ++ c ∷ []) in
        (
          m,
          rw (q, run_each) (e ∙ ap (λ l. (success m, l)) (append_assoc log (c ∷ []) cs)),
          omega arith,
        )
    | inr (err, q) ↦
        let (m, e, h) = run_each_lem cs n (log ++ c ∷ []) in
        (
          m,
          rw (q, run_each) (e ∙ ap (λ l. (success m, l)) (append_assoc log (c ∷ []) cs)),
          omega arith,
        )
  ]
