-- ===== src/Producer.antt =====
-- afkak/producer.py: `Producer`, whose batches of messages are sent by the client.
--
-- A method is a function from the state to the next state and its effects. What the callbacks of a
-- deferred do in turn is another event. `_next_partition`, the client and the delays before a retry
-- are events of other components: they answer `looking_up`, `sending` and `retry_later`.
pub mod Batches
pub mod Answers
pub mod Events
pub mod Firing
pub mod Placing
pub mod Once
pub mod Reached
pub mod Stopping
pub mod Payloads
pub mod Resends
pub mod Counts
pub mod Checks
pub mod Prompt
use afkak.Prelude.{
  ℕ, suc, ◌+◌, Bool, true, false, ◌&&◌, ◌||◌, not, Option, none, some, List, [], ◌∷◌, ◌++◌, ltb,
  ◌==◌, if◌then◌else◌, length,
}
use afkak.Prelude.Int.{ℤ, pos, negsuc, sub_ℕ, ◌+ℤ◌, ltb_ℤ, eqb_ℤ}
use afkak.Wire.Struct.{Bytes}
use afkak.Wire.Text.{Text}
use afkak.MessageSet.Create.{SendRequest}
use afkak.Protocol.Data.{ProduceRequest, ProduceResponse}
use afkak.Protocol.Grouping.{Dict, text_eq}

-- TopicAndPartition
abbrev pub Part : Type 0
Part = Text × ℤ

abbrev pub part_beq : Part → Part → Bool
part_beq (t, p) (u, q) = text_eq.beq t u && eqb_ℤ p q

-- SendRequest; `d` is the number of its deferred.
pub record Submission : Type 0 where
  pub topic : Text
  pub request : SendRequest
  pub d : ℕ

-- Why a request fails: a cancellation with its `request_sent`, a failure that the client gives, with a
-- broker's error, another KafkaError or another exception, or one of the code itself. All are Failures
-- but `raised`, the exception that raise_for_errno raised for a response, as _handle_send_response
-- keeps it.
pub data Failure : Type 0 where
  cancelled : Bool → Failure
  broker_error raised : ℤ → Failure
  kafka_error other_error : ℕ → Failure
  no_response invalid_value : Failure

-- What the client's send_produce_request answers: responses, or nothing, FailedPayloadsError with its
-- responses and failed payloads, or another failure.
pub data Answer : Type 0 where
  responses : List ProduceResponse → Answer
  failed_payloads : List ProduceResponse → List (ProduceRequest × Failure) → Answer
  total_failure : Failure → Answer

-- Where the sending of a batch stands: `_batch_send_d` is None in `idle` only. The dictionaries are
-- payloadsByTopicPart and deferredsByTopicPart.
pub data Batch : Type 0 where
  idle : Batch
  finding : List Submission → Batch
  waiting : Dict Part ProduceRequest → Dict Part (List ℕ) → Batch
  delaying : Dict Part ProduceRequest → Dict Part (List ℕ) → List ProduceRequest → Batch

-- The arguments of the constructor. A threshold of 0 is none.
pub record Settings : Type 0 where
  pub batch_every_n : ℕ
  pub batch_every_b : ℕ
  pub req_acks : ℤ
  pub max_attempts : ℕ
  pub codec : ℤ

-- `called` tells which deferreds have fired, `created` counts the deferreds.
pub record Producer : Type 0 where
  pub batch_reqs : List Submission
  pub msg_count : ℤ
  pub byte_count : ℤ
  pub outstanding : List ℕ
  pub batch : Batch
  pub attempts : ℕ
  pub called : ℕ → Bool
  pub created : ℕ

pub data Effect : Type 0 where
  called_back : ℕ → Option ProduceResponse → Effect
  failed : ℕ → Failure → Effect
  handed_error : ℕ → ℤ → Effect
  looking_up : List Submission → Effect
  sending : List ProduceRequest → Effect
  retry_later : List ProduceRequest → Effect
  reset_topics : List Text → Effect

-- d.callback(f), which fails the deferred with a Failure, and hands it any other exception as a result.
abbrev pub outcome : Failure → ℕ → Effect
outcome (raised e) d = handed_error d e
outcome f d = failed d f

abbrev pub new_producer : Producer
new_producer = record {
  batch_reqs = [];
  msg_count = pos 0;
  byte_count = pos 0;
  outstanding = [];
  batch = idle;
  attempts = 0;
  called = λ d. false;
  created = 0;
}

-- The firing of a deferred, whose first callback is _remove_from_outstanding.
abbrev pub remove : ℕ → List ℕ → List ℕ
remove d [] = []
remove d (e ∷ l) = if e == d then l else e ∷ remove d l

abbrev pub fired : ℕ → Producer → Producer
fired d st = record st {
  called = λ e. if e == d then true else st.called e;
  outstanding = remove d st.outstanding;
}

-- _deliver_result
unfoldable pub deliver_result : (ℕ → Effect) → List ℕ → Producer → Producer × List Effect
deliver_result out [] st = (st, [])
deliver_result out (d ∷ l) st =
    let rest = deliver_result out l (if st.called d then st else fired d st) in
    (rest.0, if st.called d then rest.1 else out d ∷ rest.1)

-- _send_batch
abbrev pub begin_batch : List Submission → Batch → Producer → Producer × List Effect
begin_batch (req ∷ reqs) idle st = (
  record st {
    batch_reqs = [];
    byte_count = pos 0;
    msg_count = pos 0;
    batch = finding (req ∷ reqs);
  },
  looking_up (req ∷ reqs) ∷ [],
)
begin_batch _ _ st = (st, [])

abbrev pub send_batch : Producer → Producer × List Effect
send_batch st = begin_batch st.batch_reqs st.batch st

-- _check_send_batch
abbrev pub reached : ℕ → ℤ → Bool
reached n count = not (n == 0) && not (ltb_ℤ count (pos n))

abbrev pub is_full : Settings → Producer → Bool
is_full s st = reached s.batch_every_n st.msg_count || reached s.batch_every_b st.byte_count

unfoldable pub check_send_batch : Settings → Producer → Producer × List Effect
check_send_batch s st = if is_full s st then send_batch st else (st, [])

abbrev pub byte_size : List (Option Bytes) → ℕ
byte_size [] = 0
byte_size (none ∷ msgs) = byte_size msgs
byte_size (some m ∷ msgs) = length m + byte_size msgs

-- send_messages. The first branch is the deferred of fail(), which has fired.
abbrev pub is_refused : Text → List (Option Bytes) → Bool
is_refused topic msgs = ltb (length topic) 1 || ltb 249 (length topic) || length msgs == 0

abbrev pub refused : Producer → Producer
refused st = record st {
  called = λ e. if e == st.created then true else st.called e;
  created = suc st.created;
}

abbrev pub submitted : Text → SendRequest → Producer → Producer
submitted topic request st = record st {
  batch_reqs = st.batch_reqs ++ record { topic = topic; request = request; d = st.created } ∷ [];
  msg_count = st.msg_count +ℤ pos (length request.messages);
  byte_count = st.byte_count +ℤ pos (byte_size request.messages);
  outstanding = st.outstanding ++ st.created ∷ [];
  created = suc st.created;
}

unfoldable pub send_messages : Settings → Text → SendRequest → Producer → Producer × List Effect
unfolding check_send_batch
send_messages s topic request st =
    if is_refused topic request.messages
    then (refused st, failed st.created invalid_value ∷ [])
    else check_send_batch s (submitted topic request st)

-- _cancel_send_messages
abbrev pub less : ℤ → ℕ → ℤ
less (pos a) n = sub_ℕ a n
less (negsuc a) n = negsuc (a + n)

abbrev pub put_back :
    Submission → Option (Submission × List Submission) → Option (Submission × List Submission)
put_back req none = none
put_back req (some (taken, left)) = some (taken, req ∷ left)

abbrev pub take_request : ℕ → List Submission → Option (Submission × List Submission)
take_request d [] = none
take_request d (req ∷ reqs) =
    let rest = take_request d reqs in if req.d == d then some (req, reqs) else put_back req rest

abbrev pub is_busy : Batch → Bool
is_busy idle = false
is_busy _ = true

abbrev pub withdraw : ℕ → Option (Submission × List Submission) → Producer → Producer × List Effect
withdraw d (some (req, left)) st = (
  fired d (record st {
    msg_count = less st.msg_count (length req.request.messages);
    byte_count = less st.byte_count (byte_size req.request.messages);
    batch_reqs = left;
  }),
  failed d (cancelled false) ∷ [],
)
withdraw d none st = (fired d st, failed d (cancelled (is_busy st.batch)) ∷ [])

unfoldable pub cancel_send_messages : ℕ → Producer → Producer × List Effect
cancel_send_messages d st = withdraw d (take_request d st.batch_reqs) st

-- _cancel_outstanding, over a copy of the list. A deferred that has fired ignores its cancel().
unfoldable pub cancel_all : List ℕ → Producer → Producer × List Effect
unfolding cancel_send_messages
cancel_all [] st = (st, [])
cancel_all (d ∷ l) st =
    let next = (if st.called d then (st, []) else cancel_send_messages d st) in
    let rest = cancel_all l next.0 in (rest.0, next.1 ++ rest.1)

abbrev pub cancel_outstanding : Producer → Producer × List Effect
cancel_outstanding st = cancel_all st.outstanding st

-- _complete_batch_send, and the _check_send_batch behind it.
unfoldable pub complete_batch_send : Settings → Producer → Producer × List Effect
unfolding check_send_batch
complete_batch_send s st = check_send_batch s (record st { batch = idle; attempts = 0 })
