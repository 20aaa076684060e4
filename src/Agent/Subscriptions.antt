-- ===== src/Agent/Subscriptions.antt =====
-- handleSubscribe, handleUnsubscribe and the end of the subscriptions, of internal/agent/agent.go.
use serverkit_agent.Base.{
  ℕ, suc, ◌==◌, if◌then◌else◌, not, List, [], ◌∷◌, ◌++◌, Option, none, some, Text, codes, text_eq,
  lookup, insert, delete, values,
}
use serverkit_agent.Protocol.{channel_metrics, SubscribeMessage, UnsubscribeMessage}
use serverkit_agent.Permissions.{channel_allowed}
use serverkit_agent.Jobs
use serverkit_agent.Jobs.{Streamer, lookup_by_channel, replay}
use serverkit_agent.Agent.{Agent, Sent, stream, error, send, reject}

-- `for ... { if err := SendStream(...); err != nil { break } }`: the events the transport took.
unfoldable pub send_all : Streamer → Text → List Jobs.Event → List Sent
send_all send_stream channel [] = []
send_all send_stream channel (ev ∷ evs) =
    let rest = send_all send_stream channel evs in
    elim (send_stream channel ev) [ some err ↦ [] | none ↦ stream channel ev ∷ rest ]

abbrev pub buffered : Option Jobs.Job → List Jobs.Event
buffered none = []
buffered (some job) = replay job

-- The call of a cancel function.
unfoldable pub cancel : ℕ → List ℕ → List ℕ
cancel n [] = []
cancel n (m ∷ ms) = let rest = cancel n ms in if m == n then rest else m ∷ rest

abbrev pub cancel_existing : Option ℕ → List ℕ → List ℕ
cancel_existing none live = live
cancel_existing (some n) live = cancel n live

abbrev pub permission_text : Text → Text → Text
permission_text channel level =
    codes "subscription "
    ++ channel
    ++ codes " requires permission level full; this agent is configured as "
    ++ level

-- streamData: the stream of the metrics runs until its context is cancelled, any other returns at once.
abbrev pub stream_data : Text → ℕ → List ℕ → List ℕ
stream_data channel n live = if text_eq channel channel_metrics then live ++ n ∷ [] else live

-- The replay, and then the subscription that takes the channel over, with its stream.
unfoldable pub start_stream : Streamer → Text → Agent → Agent
unfolding send_all cancel lookup_by_channel
start_stream send_stream channel a = record a {
  sent = a.sent ++ send_all send_stream channel (buffered (lookup_by_channel channel a.jobs));
  live =
      stream_data channel a.next_stream (cancel_existing (lookup channel a.subscriptions) a.live);
  subscriptions = insert channel a.next_stream a.subscriptions;
  next_stream = suc a.next_stream;
}

-- handleSubscribe. `none` is a payload that is no such message.
unfoldable pub handle_subscribe : Streamer → Option SubscribeMessage → Agent → Agent
unfolding start_stream
handle_subscribe send_stream none a = a
handle_subscribe send_stream (some sub) a =
    if not (channel_allowed a.level sub.channel)
    then send (error (codes "permission_denied") (permission_text sub.channel a.level))
        (reject (permission_text sub.channel a.level) a)
    else start_stream send_stream sub.channel a

abbrev pub end_stream : Option ℕ → Text → Agent → Agent
end_stream none channel a = a
end_stream (some n) channel a = record a {
  live = cancel n a.live;
  subscriptions = delete channel a.subscriptions;
}

-- handleUnsubscribe.
unfoldable pub handle_unsubscribe : Option UnsubscribeMessage → Agent → Agent
unfolding cancel
handle_unsubscribe none a = a
handle_unsubscribe (some unsub) a =
    end_stream (lookup unsub.channel a.subscriptions) unsub.channel a

unfoldable pub cancel_each : List ℕ → List ℕ → List ℕ
unfolding cancel
cancel_each [] live = live
cancel_each (n ∷ ns) live = cancel_each ns (cancel n live)

-- `Cancel all subscriptions` of cleanup.
unfoldable pub cancel_all : Agent → Agent
unfolding cancel_each
cancel_all a = record a { live = cancel_each (values a.subscriptions) a.live; subscriptions = [] }
