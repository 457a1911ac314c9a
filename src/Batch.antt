-- ===== src/Batch.antt =====
-- internal/consensus/batch.go: the batch writer. Raft is a parameter: `propose` is `Apply` and its future.
pub mod Answers
use on_cloud_kv.Prelude.{
  ℕ, ◌+◌, ◌≤◌, ◌<◌, Bool, true, false, Option, none, some, List, [], ◌∷◌, ◌++◌, leb, length,
  if◌then◌else◌,
}
use on_cloud_kv.Bytes.{Bytes}
use on_cloud_kv.Fsm.{Command, Response, no_response, failed, apply_result}

abbrev pub batch_max_size : ℕ
batch_max_size = 256

-- A future: the error of the proposal, or what the state machine answered.
pub data Future : Type 0 where
  raft_error : Future
  response : Response → Future

-- A request and its own result channel, which is a number.
pub record BatchRequest : Type 0 where
  pub cmd : Command
  pub result : ℕ

pub record BatchResult : Type 0 where
  pub version : ℕ
  pub has_error : Bool

-- A result that is sent on a result channel.
abbrev pub Sent : Type 0
Sent = ℕ × BatchResult

-- What the loop waits for.
pub data Signal : Type 0 where
  request : BatchRequest → Signal
  tick stop : Signal

-- The tail of a round of `flush`: a response of another type is answered with the error of the future,
-- and that is nil here.
unfoldable pub result_of : Future → BatchResult
result_of raft_error = record { version = 0; has_error = true }
result_of (response (apply_result v)) = record { version = v; has_error = false }
result_of (response no_response) = record { version = 0; has_error = false }
result_of (response failed) = record { version = 0; has_error = false }

module _ (Raft : Type 0) (propose : Raft → Bytes → Raft × Future)
    (marshal : Command → Option Bytes) where
  unfoldable pub flush_one : Raft → Option Bytes → Raft × BatchResult
  flush_one r none = (r, record { version = 0; has_error = true })
  flush_one r (some payload) = let (r1, f) = propose r payload in (r1, result_of f)

  -- `flush`: every pending request is proposed by itself.
  unfoldable pub flush : Raft → List BatchRequest → Raft × List Sent
  flush r [] = (r, [])
  flush r (req ∷ pending) =
      let (r1, res) = flush_one r (marshal req.cmd) in
      let (r2, sent) = flush r1 pending in (r2, (req.result, res) ∷ sent)

  -- A round of the loop: the pending requests and what was sent, and whether it returns.
  pub record Round : Type 0 where
    pub raft : Raft
    pub pending : List BatchRequest
    pub sent : List Sent
    pub done : Bool

  unfoldable pub flushed_round : Bool → Raft × List Sent → Round
  flushed_round done (r, sent) = record { raft = r; pending = []; sent = sent; done = done }

  unfoldable pub step : Raft → List BatchRequest → Signal → Round
  step r pending (request req) =
      if leb batch_max_size (length (pending ++ req ∷ []))
      then flushed_round false (flush r (pending ++ req ∷ []))
      else record { raft = r; pending = pending ++ req ∷ []; sent = []; done = false }
  step r pending tick = flushed_round false (flush r pending)
  step r pending stop = flushed_round true (flush r pending)

  -- `loop`, on the signals in the order in which it takes them: what is pending at the end, and all that
  -- was sent.
  unfoldable pub loop : Raft → List BatchRequest → List Signal → List BatchRequest × List Sent
  loop r pending [] = (pending, [])
  loop r pending (s ∷ signals) =
      let round = step r pending s in
      let rest = loop round.raft round.pending signals in
      if round.done then (round.pending, round.sent) else (rest.0, round.sent ++ rest.1)
