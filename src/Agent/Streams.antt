-- ===== src/Agent/Streams.antt =====
-- The streams that the subscriptions of internal/agent/agent.go keep.
use serverkit_agent.Base.{
  ℕ, ◌<◌, ◌==◌, if◌then◌else◌, Bool, true, false, ◌&&◌, ◌||◌, not, List, [], ◌∷◌, ◌++◌, Option,
  none, some, Text, text_eq, text_eq_iff, Dict, lookup, insert, delete, values, lookup-insert,
  lookup-delete, ◌≡◌, ◌≢◌, ◌↔◌, refl, sym, ap, ◌∙◌, arith, Bool-cases, Option-cases, inl, inr, ◌⊎◌,
  All,
}
use serverkit_agent.Protocol.{channel_metrics, SubscribeMessage, UnsubscribeMessage}
use serverkit_agent.Permissions.{channel_allowed}
use serverkit_agent.Jobs
use serverkit_agent.Jobs.{Streamer, lookup_by_channel, replay, new_job, positive_or}
use mathlib.Core.Path.{subst}
use serverkit_agent.Jobs.Replay.{push_all, replay-push_all}
use serverkit_agent.Base.Int.{ℤ}
use serverkit_agent.Base.Retain.{retain}
use serverkit_agent.Agent.{Agent, Sent, stream}
use serverkit_agent.Agent.Subscriptions.{
  send_all, cancel, cancel_existing, start_stream, handle_subscribe, end_stream, handle_unsubscribe,
  cancel_each, cancel_all, stream_data,
}

-- Whether a stream is running.
unfoldable pub running : ℕ → List ℕ → Bool
running n [] = false
running n (m ∷ ms) = (m == n) || running n ms

-- The stream of the metrics runs exactly while the channel is subscribed, and no other stream runs. Every subscription has
-- a number of its own.
pub record IsSubscribed (a : Agent) : Type 0 where
  pub served : (n : ℕ) → lookup channel_metrics a.subscriptions ≡ some n → running n a.live ≡ true
  pub owned : (n : ℕ) → running n a.live ≡ true → lookup channel_metrics a.subscriptions ≡ some n
  pub single :
      (c d : Text) (n : ℕ)
      → lookup c a.subscriptions ≡ some n
      → lookup d a.subscriptions ≡ some n
      → c ≡ d
  pub fresh : (c : Text) (n : ℕ) → lookup c a.subscriptions ≡ some n → n < a.next_stream

running-cancel : (k n : ℕ) (ms : List ℕ) → running k (cancel n ms) ≡ (running k ms && not (n == k))
unfolding running cancel
running-cancel k n [] = refl
running-cancel k n (m ∷ ms) = ground (arith, running-cancel k n ms)

running-append_one : (k n : ℕ) (ms : List ℕ) → running k (ms ++ n ∷ []) ≡ (running k ms || (n == k))
unfolding running
running-append_one k n [] = ground arith
running-append_one k n (m ∷ ms) = ground (arith, running-append_one k n ms)

running-cancel_each :
    (k : ℕ) (ns ms : List ℕ) → running k (cancel_each ns ms) ≡ (running k ms && not (running k ns))
unfolding running cancel_each
running-cancel_each k [] ms = ground arith
running-cancel_each k (n ∷ ns) ms =
    ground (arith, running-cancel_each k ns (cancel n ms), running-cancel k n ms)

running-values : (c : Text) (n : ℕ) (m : Dict ℕ) → lookup c m ≡ some n → running n (values m) ≡ true
unfolding running lookup
running-values c n [] h = ground arith
running-values c n ((d, k) ∷ m) h = ground (arith, running-values c n m)

none_running : (ms : List ℕ) → ((n : ℕ) → running n ms ≡ false) → ms ≡ []
unfolding running
none_running [] h = refl
none_running (m ∷ ms) h = let e = h m in ground arith

-- The stream that a channel has, if any, ends.
running-cancel_existing :
    (k : ℕ) (o : Option ℕ) (live : List ℕ)
    → (running k (cancel_existing o live) ≡ true) ↔ ((running k live ≡ true) × (o ≢ some k))
running-cancel_existing k none live = ground arith
running-cancel_existing k (some n) live = ground (arith, running-cancel k n live)

-- Taking a channel over keeps the streams in order.
module _ (a : Agent) (send_stream : Streamer) (channel : Text) (s : IsSubscribed a) where
  open s use {served, owned, single, fresh}

  after_insert :
      (c : Text)
      → lookup c (insert channel a.next_stream a.subscriptions)
        ≡ (if text_eq channel c then some a.next_stream else lookup c a.subscriptions)
  after_insert c = lookup-insert channel c a.next_stream a.subscriptions

  -- The stream of a channel that is taken over runs on only if it is that of the metrics.
  running-stream_data :
      (k : ℕ) (live : List ℕ)
      → running k (stream_data channel a.next_stream live)
        ≡ (running k live || (text_eq channel channel_metrics && (a.next_stream == k)))
  running-stream_data k live = elim (Bool-cases (text_eq channel channel_metrics)) [
    | inl e ↦ rw e (running-append_one k a.next_stream live)
    | inr e ↦ rw e (ground arith)
  ]

  started_served :
      (n : ℕ)
      → lookup channel_metrics (start_stream send_stream channel a).subscriptions ≡ some n
      → running n (start_stream send_stream channel a).live ≡ true
  unfolding start_stream
  started_served n h = ground (
    arith,
    after_insert channel_metrics,
    served n,
    single channel channel_metrics n,
    text_eq_iff channel channel_metrics,
    running-stream_data n (cancel_existing (lookup channel a.subscriptions) a.live),
    running-cancel_existing n (lookup channel a.subscriptions) a.live,
  )

  started_owned :
      (n : ℕ)
      → running n (start_stream send_stream channel a).live ≡ true
      → lookup channel_metrics (start_stream send_stream channel a).subscriptions ≡ some n
  unfolding start_stream
  started_owned n h =
      let same : text_eq channel channel_metrics ≡ true
          → lookup channel a.subscriptions ≡ lookup channel_metrics a.subscriptions =
        λ e. ap (λ d. lookup d a.subscriptions) ((text_eq_iff channel channel_metrics).0 e) in
      ground (
        arith,
        after_insert channel_metrics,
        owned n,
        running-stream_data n (cancel_existing (lookup channel a.subscriptions) a.live),
        running-cancel_existing n (lookup channel a.subscriptions) a.live,
      )

  start_stream-IsSubscribed : IsSubscribed (start_stream send_stream channel a)
  unfolding start_stream
  start_stream-IsSubscribed = record {
    served = started_served;
    owned = started_owned;
    single = λ c d n p q. ground (
      arith,
      after_insert c,
      after_insert d,
      single c d n,
      fresh c n,
      fresh d n,
      text_eq_iff channel c,
      text_eq_iff channel d,
    );
    fresh = λ c n p. ground (arith, after_insert c, fresh c n);
  }

-- A deleted channel loses its stream.
module _ (a : Agent) (channel : Text) (k : ℕ) (s : IsSubscribed a)
    (l : lookup channel a.subscriptions ≡ some k) where
  open s use {served, owned, single, fresh}

  after_delete :
      (c : Text)
      → lookup c (delete channel a.subscriptions)
        ≡ (if text_eq channel c then none else lookup c a.subscriptions)
  after_delete c = lookup-delete channel c a.subscriptions

  ended_owned :
      (n : ℕ)
      → running n (cancel k a.live) ≡ true
      → lookup channel_metrics (delete channel a.subscriptions) ≡ some n
  ended_owned n h =
      let was : (running n a.live ≡ true) × (n ≢ k) = ground (arith, running-cancel n k a.live) in
      let q = owned n was.0 in
      let other : text_eq channel channel_metrics ≡ true → ⊥ = λ same.
        let e : some n ≡ some k =
          sym q
          ∙ ap (λ d. lookup d a.subscriptions) (sym ((text_eq_iff channel channel_metrics).0 same))
          ∙ l in
        was.1 (ground arith) in
      ground (arith, after_delete channel_metrics)

  end_stream-IsSubscribed : IsSubscribed (end_stream (some k) channel a)
  end_stream-IsSubscribed = record {
    served = λ n p. ground (
      arith,
      after_delete channel_metrics,
      served n,
      single channel channel_metrics k,
      running-cancel n k a.live,
      text_eq_iff channel channel_metrics,
    );
    owned = ended_owned;
    single = λ c d n p q. ground (arith, after_delete c, after_delete d, single c d n);
    fresh = λ c n p. ground (arith, after_delete c, fresh c n);
  }

-- The messages about subscriptions. `none` is a payload that is no such message.
pub data Request : Type 0 where
  subscribe : Option SubscribeMessage → Request
  unsubscribe : Option UnsubscribeMessage → Request

abbrev pub handle_request : Streamer → Request → Agent → Agent
handle_request send_stream (subscribe sub) a = handle_subscribe send_stream sub a
handle_request send_stream (unsubscribe unsub) a = handle_unsubscribe unsub a

abbrev pub handle_all : Streamer → List Request → Agent → Agent
handle_all send_stream [] a = a
handle_all send_stream (r ∷ rs) a = handle_all send_stream rs (handle_request send_stream r a)

refused-IsSubscribed :
    (a : Agent) (logged : List Text) (sent : List Sent)
    → IsSubscribed a
    → IsSubscribed (record a { logged = logged; sent = sent })
refused-IsSubscribed a logged sent s = record {
  served = s.served;
  owned = s.owned;
  single = s.single;
  fresh = s.fresh;
}

handle_request-IsSubscribed :
    (send_stream : Streamer) (r : Request) (a : Agent)
    → IsSubscribed a
    → IsSubscribed (handle_request send_stream r a)
unfolding handle_subscribe handle_unsubscribe
handle_request-IsSubscribed send_stream (subscribe none) a s = s
handle_request-IsSubscribed send_stream (subscribe (some sub)) a s =
    elim (Bool-cases (channel_allowed a.level sub.channel)) [
      | inl e ↦ rw e (start_stream-IsSubscribed a send_stream sub.channel s)
      | inr e ↦ rw e (refused-IsSubscribed a _ _ s)
    ]
handle_request-IsSubscribed send_stream (unsubscribe none) a s = s
handle_request-IsSubscribed send_stream (unsubscribe (some unsub)) a s =
    elim (Option-cases (lookup unsub.channel a.subscriptions)) [
      | inl e ↦ rw e s
      | inr (k, e) ↦ rw e (end_stream-IsSubscribed a unsub.channel k s e)
    ]

-- Whatever the messages about subscriptions are, from a start with these properties: the stream of the metrics runs exactly
-- while their channel is subscribed, no other stream runs, and every subscription has a number of its own.
pub handle_all-IsSubscribed :
    (send_stream : Streamer) (rs : List Request) (a : Agent)
    → IsSubscribed a
    → IsSubscribed (handle_all send_stream rs a)
handle_all-IsSubscribed send_stream [] a s = s
handle_all-IsSubscribed send_stream (r ∷ rs) a s =
    handle_all-IsSubscribed send_stream rs (handle_request send_stream r a)
      (handle_request-IsSubscribed send_stream r a s)

-- The end of the agent stops every stream.
pub cancel_all-stops : (a : Agent) → IsSubscribed a → (cancel_all a).live ≡ []
unfolding cancel_all
cancel_all-stops a s = none_running _ (λ n. elim (Bool-cases (running n a.live)) [
  | inr e ↦ ground (arith, running-cancel_each n (values a.subscriptions) a.live)
  | inl e ↦
      let l = s.owned n e in
      ground (
        arith,
        running-cancel_each n (values a.subscriptions) a.live,
        running-values channel_metrics n a.subscriptions,
      )
])

abbrev pub all_streams : Text → List Jobs.Event → List Sent
all_streams channel [] = []
all_streams channel (ev ∷ evs) = stream channel ev ∷ all_streams channel evs

-- What a transport takes of a list of events: the events up to the first that it refuses.
abbrev pub Taken : Streamer → Text → List Jobs.Event → List Jobs.Event → Type 0
Taken send_stream channel evs taken =
    (rest : List Jobs.Event) × (evs ≡ taken ++ rest)
    × All (λ ev. send_stream channel ev ≡ none) taken
    × ((rest ≡ [])
        ⊎ ((ev : Jobs.Event) × (evs' : List Jobs.Event) × (err : Text) × (rest ≡ ev ∷ evs')
            × (send_stream channel ev ≡ some err)))

send_all-Taken :
    (send_stream : Streamer) (channel : Text) (evs : List Jobs.Event)
    → (taken : List Jobs.Event) × Taken send_stream channel evs taken
      × (send_all send_stream channel evs ≡ all_streams channel taken)
unfolding send_all
send_all-Taken send_stream channel [] = ([], ([], refl, tt, inl refl), refl)
send_all-Taken send_stream channel (ev ∷ evs) = elim (Option-cases (send_stream channel ev)) [
  | inr (err, e) ↦ ([], (ev ∷ evs, refl, tt, inr (ev, evs, err, refl, e)), rw (send_all, e) refl)
  | inl e ↦
      let (taken, (rest, q, all, why), sent) = send_all-Taken send_stream channel evs in
      (
        ev ∷ taken,
        (rest, ap (λ r. ev ∷ r) q, (e, all), why),
        rw (send_all, e) (ap (λ r. stream channel ev ∷ r) sent),
      )
]

-- A job that was started with room for some events, and to which the events of a history were pushed: a subscriber that
-- the gate admits first gets the last events of the history, as many as there is room for and oldest first, up to the
-- first that the transport refuses.
pub handle_subscribe-replays :
    (send_stream : Streamer) (sub : SubscribeMessage) (a : Agent) (s : Option Streamer) (id : Text)
    (buffer_cap : ℤ) (history : List Jobs.Event)
    → channel_allowed a.level sub.channel ≡ true
    → lookup_by_channel sub.channel a.jobs ≡ some (push_all s (new_job id buffer_cap) history)
    → (taken : List Jobs.Event) × Taken send_stream sub.channel
        (retain (positive_or 200 buffer_cap) history)
        taken
      × ((handle_subscribe send_stream (some sub) a).sent ≡ a.sent ++ all_streams sub.channel taken)
unfolding handle_subscribe start_stream
handle_subscribe-replays send_stream sub a s id buffer_cap history may found =
    let job = push_all s (new_job id buffer_cap) history in
    let (taken, up_to, sent) = send_all-Taken send_stream sub.channel (replay job) in
    let shown : replay job ≡ retain (positive_or 200 buffer_cap) history =
      replay-push_all s id buffer_cap history in
    (
      taken,
      subst (λ evs. Taken send_stream sub.channel evs taken) shown up_to,
      rw (may, found) (ap (λ r. a.sent ++ r) sent),
    )
