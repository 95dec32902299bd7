-- ===== src/Delivery.antt =====
-- The gateway's two threads on one queue: the poller calls `publish`, the retrier fetches and
-- visits rows (src/dnp3_gateway/messaging/resilient_publisher.py and outbox.py). The object that both
-- share is guarded by one lock for each method of the queue, so a step is what a thread does
-- between two takings of that lock, and a schedule is any list of steps.
pub mod Rows
pub mod Threads
pub mod AtLeastOnce
pub mod Empties
use horstmann_dnp3_gateway.Base.{
  ℕ, String, Bool, true, false, Option, none, some, List, [], ◌∷◌, take,
}
use horstmann_dnp3_gateway.Base.Json.{Json}
use horstmann_dnp3_gateway.Exception.{Result, ok, raise, Exc}
use horstmann_dnp3_gateway.Outbox.{Outbox, Message, Entry, Fault, fetch_batch}
use horstmann_dnp3_gateway.JetStream.{Event, JetStream}
use horstmann_dnp3_gateway.JetStream
use horstmann_dnp3_gateway.Publisher.{Publisher, Env, publish, publish_outbox_row}
use horstmann_dnp3_gateway.Retrier.{
  Config, Attempt, Visit, sent, poison, broken, crashed, after_publish,
}

-- `batch` is what is left of the rows that the retrier has fetched, and `answer` what
-- `publish_outbox_row` did for the first of them; `alive` is false when an exception has ended the
-- retrier's thread.
pub record System : Type 0 where
  pub publisher : Publisher
  pub outbox : Outbox
  pub batch : List Entry
  pub answer : Option (Result (Unit {0}))
  pub alive : Bool

-- `publishes` is the poller's call; `fetches`, `sends` and `settles` are the retrier's fetch_batch,
-- its publish_outbox_row for the next row, and what it does on the answer; `stops` drops the rest of
-- the batch, as the stop flag does between two rows and the end of the process anywhere; `happens` is
-- an event of the connection.
pub data Step : Type 0 where
  publishes : Env → Message → Step
  fetches : Fault → Step
  sends : Env → Step
  settles : Attempt Env → Step
  stops : Step
  happens : Event → Step

pub after_visit : Visit Publisher → List Entry → System → System
after_visit (sent p o) rest s = record s { publisher = p; outbox = o; batch = rest; answer = none }
after_visit (poison p o) rest s = record s {
  publisher = p;
  outbox = o;
  batch = rest;
  answer = none;
}
after_visit (broken not_ready p o) rest s = record s {
  publisher = p;
  outbox = o;
  batch = [];
  answer = none;
}
after_visit (crashed exc p o) rest s = record s {
  publisher = p;
  outbox = o;
  batch = [];
  answer = none;
  alive = false;
}

pub after_fetch : Result (List Entry) → System → System
after_fetch (ok rows) s = record s { batch = rows; answer = none }
after_fetch (raise exc) s = record s { batch = []; answer = none }

module _ (str : Json → String) (c : Config) where
  -- The retrier calls `publish_outbox_row` for the first row of its batch.
  pub send : Env → List Entry → Option (Result (Unit {0})) → System → System
  send env (e ∷ rest) none s =
      let (r, p) = publish_outbox_row str env e s.publisher in
      record s { publisher = p; answer = some r }
  send env _ _ s = s

  -- It acts on the answer.
  pub settle : Attempt Env → List Entry → Option (Result (Unit {0})) → System → System
  unfolding after_visit
  settle a (e ∷ rest) (some r) s =
      after_visit (after_publish (publish_outbox_row str) c a e s.outbox r s.publisher) rest s
  settle a _ _ s = s

  -- A step that its thread cannot take changes nothing.
  unfoldable pub step : Step → System → System
  unfolding send settle after_fetch
  step (publishes env m) s =
      let (r, p, o) = publish str env m s.publisher s.outbox in
      record s { publisher = p; outbox = o }
  step (fetches fault) s = elim s.alive [
    | true ↦ after_fetch (fetch_batch fault c.batch_size s.outbox) s
    | false ↦ s
  ]
  step (sends env) s = send env s.batch s.answer s
  step (settles a) s = settle a s.batch s.answer s
  step stops s = record s { batch = []; answer = none }
  step (happens ev) s = record s {
    publisher = record s.publisher { broker = JetStream.event ev s.publisher.broker };
  }

  unfoldable pub steps : List Step → System → System
  unfolding step
  steps [] s = s
  steps (a ∷ schedule) s = steps schedule (step a s)
