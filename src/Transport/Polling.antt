-- ===== src/Transport/Polling.antt =====
-- internal/transport/poll/client.go: the long-poll loop that authenticates, fetches commands and backs off.
use serverkit_agent.Base.{
  ℕ, zero, suc, ◌*◌, ◌^◌, ◌≤◌, ltb, if◌then◌else◌, Bool, true, false, List, [], ◌∷◌, ◌++◌, Option,
  none, some, Text, text_eq, ◌≡◌, refl, ap, ◌∙◌, arith, inl, inr, Bool-cases, All,
}

-- The client, with the backoff of its loop in seconds.
pub record PollClient : Type 0 where
  pub session : Option Text
  pub connected : Bool
  pub backoff : ℕ

-- What the server does in one round: it answers a poll with commands, or the request fails, as an authentication error
-- or not, and then the connect request that an authentication error causes gives a token or fails.
pub data Reply : Type 0 where
  commands : List Text → Reply
  failed : Bool → Option Text → Reply

abbrev pub backoff_max : ℕ
backoff_max = 30

-- The token of the session, empty without one.
abbrev pub token : Option Text → Text
token none = []
token (some t) = t

-- connect, where the server gives a token.
unfoldable pub connect : Text → PollClient → PollClient
connect t c = record c { session = some t; connected = true }

unfoldable pub doubled : ℕ → ℕ
doubled b = if ltb b backoff_max then b * 2 else b

unfoldable pub after_auth : Option Text → PollClient → PollClient
unfolding connect
after_auth none c = c
after_auth (some t) c = record (connect t c) { backoff = 1 }

unfoldable pub fail_round : Bool → Option Text → PollClient → PollClient
unfolding doubled after_auth
fail_round auth again c =
    let waited = record c { connected = false; backoff = doubled c.backoff } in
    if auth then after_auth again waited else waited

-- One round of the loop of `Run`, pollOnce included, with the commands that reach the handler. Without a token no
-- request is made, and the round fails.
unfoldable pub run_round : PollClient → Reply → PollClient × List Text
unfolding fail_round
run_round c (commands cs) =
    if text_eq (token c.session) []
    then (fail_round false none c, [])
    else (record c { connected = true; backoff = 1 }, cs)
run_round c (failed auth again) =
    if text_eq (token c.session) []
    then (fail_round false none c, [])
    else (fail_round auth again c, [])

-- The client after its first connect.
abbrev pub first_client : Text → PollClient
first_client t = record { session = some t; connected = true; backoff = 1 }

-- The loop, over the rounds that its context lasts, with what reaches the handler.
unfoldable pub run_rounds : PollClient → List Reply → PollClient × List Text
unfolding run_round
run_rounds c [] = (c, [])
run_rounds c (r ∷ rs) =
    let next = run_round c r in let rest = run_rounds next.0 rs in (rest.0, next.1 ++ rest.1)

-- The waits of the loop: one second, doubled up to five times.
abbrev pub IsWait : ℕ → Type 0
IsWait b = (k : ℕ) × (k ≤ 5) × (b ≡ 2 ^ k)

doubled-pow : (k : ℕ) → k ≤ 5 → IsWait (doubled (2 ^ k))
unfolding doubled
doubled-pow zero h = (1, omega arith, refl)
doubled-pow (suc zero) h = (2, omega arith, refl)
doubled-pow (suc (suc zero)) h = (3, omega arith, refl)
doubled-pow (suc (suc (suc zero))) h = (4, omega arith, refl)
doubled-pow (suc (suc (suc (suc zero)))) h = (5, omega arith, refl)
doubled-pow (suc (suc (suc (suc (suc zero))))) h = (5, omega arith, refl)
doubled-pow (suc (suc (suc (suc (suc (suc k)))))) h = absurd (omega arith)

doubled-IsWait : (b : ℕ) → IsWait b → IsWait (doubled b)
doubled-IsWait b (k, h, e) = let (j, g, q) = doubled-pow k h in (j, g, ap doubled e ∙ q)

fail_round-IsWait :
    (auth : Bool) (again : Option Text) (c : PollClient)
    → IsWait c.backoff
    → IsWait (fail_round auth again c).backoff
unfolding fail_round after_auth connect
fail_round-IsWait false again c h = doubled-IsWait c.backoff h
fail_round-IsWait true none c h = doubled-IsWait c.backoff h
fail_round-IsWait true (some t) c h = (0, omega arith, refl)

run_round-IsWait :
    (c : PollClient) (r : Reply) → IsWait c.backoff → IsWait (run_round c r).0.backoff
unfolding run_round
run_round-IsWait c (commands cs) h = elim (Bool-cases (text_eq (token c.session) [])) [
  | inl e ↦ rw e (fail_round-IsWait false none c h)
  | inr e ↦ rw e (0, omega arith, refl)
]
run_round-IsWait c (failed auth again) h = elim (Bool-cases (text_eq (token c.session) [])) [
  | inl e ↦ rw e (fail_round-IsWait false none c h)
  | inr e ↦ rw e (fail_round-IsWait auth again c h)
]

-- Whatever the server does, the loop waits 1, 2, 4, 8, 16 or 32 seconds after a failure.
pub run_rounds-IsWait :
    (c : PollClient) (rs : List Reply) → IsWait c.backoff → IsWait (run_rounds c rs).0.backoff
unfolding run_rounds
run_rounds-IsWait c [] h = h
run_rounds-IsWait c (r ∷ rs) h = run_rounds-IsWait (run_round c r).0 rs (run_round-IsWait c r h)

-- What the server gave in the polls that it answered.
unfoldable pub answered : List Reply → List Text
answered [] = []
answered (commands cs ∷ rs) = cs ++ answered rs
answered (failed auth again ∷ rs) = answered rs

-- Every token that the server gives is a text that is not empty.
abbrev pub HasToken : Reply → Type 0
HasToken (commands cs) = Unit
HasToken (failed auth none) = Unit
HasToken (failed auth (some t)) = text_eq t [] ≡ false

fail_round-token :
    (auth : Bool) (again : Option Text) (c : PollClient)
    → HasToken (failed auth again)
    → text_eq (token c.session) [] ≡ false
    → text_eq (token (fail_round auth again c).session) [] ≡ false
unfolding fail_round after_auth connect
fail_round-token false again c t h = h
fail_round-token true none c t h = h
fail_round-token true (some s) c t h = t

-- Every command of every poll that is answered reaches the handler once and in order, whatever outages and expired
-- sessions stand between, and the client keeps a session.
pub run_rounds-answered :
    (c : PollClient) (rs : List Reply)
    → text_eq (token c.session) [] ≡ false
    → All HasToken rs
    → ((run_rounds c rs).1 ≡ answered rs) × (text_eq (token (run_rounds c rs).0.session) [] ≡ false)
unfolding run_rounds answered run_round
run_rounds-answered c [] h all = (refl, h)
run_rounds-answered c (commands cs ∷ rs) h (t, all) =
    let (e, kept) = run_rounds-answered (record c { connected = true; backoff = 1 }) rs h all in
    (rw h (ap (λ l. cs ++ l) e), rw h kept)
run_rounds-answered c (failed auth again ∷ rs) h (t, all) =
    let (e, kept) =
      run_rounds-answered (fail_round auth again c) rs (fail_round-token auth again c t h) all in
    (rw h e, rw h kept)
