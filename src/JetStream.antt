-- ===== src/JetStream.antt =====
-- The primary broker's publisher: class JetStreamPublisher of
-- src/dnp3_gateway/messaging/jetstream_publisher.py. nats-py and its event loop are outside: what they
-- do with one message is an argument, and what the server has stored is kept for the proofs.
pub mod Storage
use horstmann_dnp3_gateway.Base.{
  ℕ, ◌+◌, String, Bool, true, false, not, ◌||◌, Option, none, some, List, [], ◌∷◌, ◌++◌,
  if◌then◌else◌, ◌==◌, nat_eq, text_eq, pair_eq, Dict, insert,
}
use horstmann_dnp3_gateway.Base.Json.{Json, Fields, end, field, JsonText, dumps, null, text}
use horstmann_dnp3_gateway.Exception.{Result, ok, raise, jetstream_not_ready, jetstream_publish}
use horstmann_dnp3_gateway.Outbox.{Message}

-- What is given to `js.publish`: the subject, the body and the headers.
pub record Wire : Type 0 where
  pub subject : String
  pub body : JsonText Json
  pub headers : Dict String String

-- `ready` is the event; `loop` and `js` tell whether the attribute is not None. `stored` is what
-- the server holds: it is no attribute of the object.
pub record JetStream : Type 0 where
  pub subject : String
  pub ready : Bool
  pub loop : Bool
  pub js : Bool
  pub closed : Bool
  pub publish_failures : ℕ
  pub publish_successes : ℕ
  pub stored : List Wire

-- What becomes of one message: the server stores it and its answer comes in time; it is refused;
-- or it is stored and the answer does not come in time.
pub data Ack : Type 0 where
  acked : Ack
  refused : String → Ack
  lost : String → Ack

-- str(v) of a header value; the poller's header values are texts, and str of any other JSON value
-- is Python's.
abbrev pub text_of : (Json → String) → Json → String
text_of str (text s) = s
text_of str v = str v

-- for k, v in headers.items()
add_headers : (Json → String) → Fields → Dict String String → Dict String String
add_headers str end d = d
add_headers str (field k null rest) d = add_headers str rest d
add_headers str (field k v rest) d = add_headers str rest (insert k (text_of str v) d)

add_optional : (Json → String) → Option Fields → Dict String String → Dict String String
unfolding add_headers
add_optional str none d = d
add_optional str (some fields) d = add_headers str fields d

-- if correlation_id:
add_correlation : Option String → Dict String String → Dict String String
add_correlation none d = d
add_correlation (some c) d = if c == "" then d else insert "X-Correlation-Id" c d

unfoldable pub wire_headers : (Json → String) → Message → Dict String String
unfolding add_optional add_correlation
wire_headers str m =
    add_optional str m.headers
      (add_correlation m.correlation_id (("Nats-Msg-Id", m.message_id) ∷ []))

unfoldable pub wire : (Json → String) → String → Message → Wire
unfolding wire_headers
wire str subject m = record {
  subject = subject;
  body = dumps m.payload;
  headers = wire_headers str m;
}

abbrev pub not_ready_text : String
not_ready_text = "publisher not ready (NATS connection unavailable)"

answer : Ack → Wire → JetStream → Result (Unit {0}) × JetStream
answer acked w j =
    (ok tt, record j { publish_successes = j.publish_successes + 1; stored = j.stored ++ w ∷ [] })
answer (refused t) w j =
    (raise (jetstream_publish t), record j { publish_failures = j.publish_failures + 1 })
answer (lost t) w j = (
  raise (jetstream_publish t),
  record j { publish_failures = j.publish_failures + 1; stored = j.stored ++ w ∷ [] },
)

unfoldable pub publish : (Json → String) → Ack → Message → JetStream → Result (Unit {0}) × JetStream
unfolding answer
publish str ack m j =
    if not j.ready || not j.loop || not j.js
    then (
      raise (jetstream_not_ready not_ready_text),
      record j { publish_failures = j.publish_failures + 1 },
    )
    else answer ack (wire str j.subject m) j

-- What nats-py and the life cycle do to the object.
pub data Event : Type 0 where
  starts connects reconnects disconnects connection_closes closes : Event

-- close: a second call changes nothing, and without a loop only the flag is set.
close : JetStream → JetStream
close j =
    if j.closed
    then j
    else if j.loop
    then record j { closed = true; loop = false; js = false; ready = false }
    else record j { closed = true }

unfoldable pub event : Event → JetStream → JetStream
unfolding close
event starts j = record j { loop = true }
event connects j = record j { js = true; ready = true }
event reconnects j = record j { ready = true }
event disconnects j = record j { ready = false }
event connection_closes j = record j { ready = false }
event closes j = close j

-- counters_snapshot
unfoldable pub counters_snapshot : JetStream → ℕ × ℕ
counters_snapshot j = (j.publish_failures, j.publish_successes)
