-- ===== src/Producer/Events.antt =====
-- The events of afkak/producer.py's `Producer`, and the states and effects that they lead to.
use afkak.Prelude.{ℕ, ◌+◌, ◌<◌, ◌≡◌, false, List, [], ◌++◌, ◌==◌}
use afkak.Result.{Result, ok}
use afkak.Wire.Text.{Text}
use afkak.MessageSet.Create.{Compressors, SendRequest}
use afkak.Dictionary.{one_if, sum_of}
use afkak.Producer.{
  handed_error, Failure, Answer, Batch, finding, waiting, delaying, Settings, Producer,
  new_producer, Effect, called_back, failed, send_messages, send_batch, cancel_send_messages,
  cancel_outstanding,
}
use afkak.Producer.Batches.{Placement, send_requests}
use afkak.Producer.Answers.{handle_send_response, do_retry, cancel_retry}

-- `placed` is the end of the search for partitions, with the number of the attempts that the calls of
-- _next_partition have counted, `stopping` the _cancel_outstanding of stop(), and
-- `retry_cancelled` the cancel() of the deferred that waits for a retry.
pub data Event : Type 0 where
  submitting : Text → SendRequest → Event
  cancelling : ℕ → Event
  timer_ends stopping delay_ends : Event
  placed : ℕ → List Placement → Event
  answered : Answer → Event
  retry_cancelled : Failure → Event

module _ (c : Compressors) (s : Settings) where
  -- What brings a batch on; nothing where there is no such batch.
  abbrev pub place_batch : ℕ → List Placement → Batch → Producer → Producer × List Effect
  place_batch n l (finding reqs) st =
      send_requests c s l reqs (record st { attempts = st.attempts + n })
  place_batch n l _ st = (st, [])

  abbrev pub answer_batch : Answer → Batch → Producer → Result (Producer × List Effect)
  answer_batch a (waiting payloads deferreds) st = handle_send_response s payloads deferreds a st
  answer_batch a _ st = ok (st, [])

  abbrev pub retry_batch : Batch → Producer → Producer × List Effect
  retry_batch (delaying payloads deferreds l) st = do_retry payloads deferreds l st
  retry_batch _ st = (st, [])

  abbrev pub cancel_batch : Failure → Batch → Producer → Producer × List Effect
  cancel_batch f (delaying payloads deferreds l) st = cancel_retry s deferreds f st
  cancel_batch f _ st = (st, [])

  unfoldable pub step : Event → Producer → Result (Producer × List Effect)
  unfolding send_messages cancel_send_messages send_requests handle_send_response
  step (submitting topic request) st = ok (send_messages s topic request st)
  step (cancelling d) st = ok (cancel_send_messages d st)
  step timer_ends st = ok (send_batch st)
  step stopping st = ok (cancel_outstanding st)
  step (placed n l) st = ok (place_batch n l st.batch st)
  step (answered a) st = answer_batch a st.batch st
  step delay_ends st = ok (retry_batch st.batch st)
  step (retry_cancelled f) st = ok (cancel_batch f st.batch st)

-- A deferred can be cancelled if it was made and has not fired.
abbrev pub IsPossible : Event → Producer → Type 0
IsPossible (cancelling d) st = (st.called d ≡ false) × (d < st.created)
IsPossible _ st = Unit {0}

pub data Reaches (c : Compressors) (s : Settings) : Producer → List Effect → Type 0 where
  made : Reaches c s new_producer []
  after :
      {st next : Producer} {log out : List Effect} (e : Event)
      → Reaches c s st log
      → IsPossible e st
      → step c s e st ≡ ok (next, out)
      → Reaches c s next (log ++ out)

-- How often a deferred fires in some effects.
abbrev pub fires : ℕ → Effect → ℕ
fires d (called_back e response) = one_if (e == d)
fires d (failed e f) = one_if (e == d)
fires d (handed_error e x) = one_if (e == d)
fires d _ = 0

abbrev pub times_fired : ℕ → List Effect → ℕ
times_fired d log = sum_of (fires d) log
