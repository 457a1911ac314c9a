-- ===== src/Batch/Answers.antt =====
-- internal/consensus/batch.go: which requests are answered.
use on_cloud_kv.Prelude.{
  ℕ, ◌≡◌, ◌<◌, refl, sym, ap, ◌∙◌, Option, List, [], ◌∷◌, ◌++◌, map, append_assoc, append-nil, leb,
  length, arith, Bool-cases, inl, inr,
}
use on_cloud_kv.Bytes.{Bytes}
use on_cloud_kv.Fsm.{Command}
use on_cloud_kv.Batch.{
  batch_max_size, Future, BatchRequest, Sent, Signal, request, tick, stop, flush_one, flush,
  flushed_round, step, loop,
}

-- The result channels of requests, and of what was sent.
abbrev pub channels : List BatchRequest → List ℕ
channels = map (λ req. req.result)

abbrev pub answered : List Sent → List ℕ
answered = map (λ s. s.0)

-- The requests among some signals, up to the first stop.
abbrev pub requested : List Signal → List ℕ
requested [] = []
requested (request req ∷ signals) = req.result ∷ requested signals
requested (tick ∷ signals) = requested signals
requested (stop ∷ signals) = []

map_append : {A B : Type 0} (f : A → B) (xs ys : List A) → map f (xs ++ ys) ≡ map f xs ++ map f ys
map_append f [] ys = refl
map_append f (x ∷ xs) ys = ap (λ zs. f x ∷ zs) (map_append f xs ys)

module _ (Raft : Type 0) (propose : Raft → Bytes → Raft × Future)
    (marshal : Command → Option Bytes) where
  flush-channels :
      (r : Raft) (pending : List BatchRequest)
      → answered (flush Raft propose marshal r pending).1 ≡ channels pending
  unfolding flush
  flush-channels r [] = refl
  flush-channels r (req ∷ pending) =
      ap (λ zs. req.result ∷ zs)
        (flush-channels (flush_one Raft propose marshal r (marshal req.cmd)).0 pending)

  flushed_rest :
      (r : Raft) (pending : List BatchRequest) (sent : List Sent) (open_ : List BatchRequest)
      (more : List ℕ)
      → answered sent ++ channels open_ ≡ more
      → answered ((flush Raft propose marshal r pending).1 ++ sent) ++ channels open_
        ≡ channels pending ++ more
  flushed_rest r pending sent open_ more h = rw (
    map_append (λ (s : Sent). s.0) (flush Raft propose marshal r pending).1 sent,
    flush-channels r pending,
    append_assoc,
    h,
  )

  -- Every request that is taken before a stop is answered exactly once, on its own channel and in
  -- the order of arrival, or is still pending when the signals end: whatever Raft answers, wherever
  -- the ticks fall and whenever a batch is full.
  pub loop-channels :
      (r : Raft) (pending : List BatchRequest) (signals : List Signal)
      → answered (loop Raft propose marshal r pending signals).1
          ++ channels (loop Raft propose marshal r pending signals).0
        ≡ channels pending ++ requested signals
  unfolding loop step flushed_round
  loop-channels r pending [] = sym (append-nil (channels pending))
  loop-channels r pending (request req ∷ signals) =
      elim (Bool-cases (leb batch_max_size (length (pending ++ req ∷ [])))) [
        | inl full ↦ rw full (
            let r1 = (flush Raft propose marshal r (pending ++ req ∷ [])).0 in
            flushed_rest r (pending ++ req ∷ []) (loop Raft propose marshal r1 [] signals).1
              (loop Raft propose marshal r1 [] signals).0 (requested signals)
              (loop-channels r1 [] signals)
            ∙ one_more pending req (requested signals))
        | inr room ↦ rw room (
            loop-channels r (pending ++ req ∷ []) signals
            ∙ one_more pending req (requested signals))
      ]
    where
      one_more :
          (pending : List BatchRequest) (req : BatchRequest) (rest : List ℕ)
          → channels (pending ++ req ∷ []) ++ rest ≡ channels pending ++ req.result ∷ rest
      one_more pending req rest =
          rw (map_append (λ (req : BatchRequest). req.result) pending (req ∷ []), append_assoc)
  loop-channels r pending (tick ∷ signals) =
      let r1 = (flush Raft propose marshal r pending).0 in
      flushed_rest r pending (loop Raft propose marshal r1 [] signals).1
        (loop Raft propose marshal r1 [] signals).0 (requested signals)
        (loop-channels r1 [] signals)
  loop-channels r pending (stop ∷ signals) = rw (flush-channels r pending)

  -- Fewer requests than the largest batch are pending after every round that started with fewer.
  pub step-length :
      (r : Raft) (pending : List BatchRequest) (s : Signal)
      → length pending < batch_max_size
      → length (step Raft propose marshal r pending s).pending < batch_max_size
  unfolding step flushed_round
  step-length r pending (request req) h =
      elim (Bool-cases (leb batch_max_size (length (pending ++ req ∷ [])))) [
        | inl full ↦ rw full (omega arith)
        | inr room ↦ rw room (ground (arith))
      ]
  step-length r pending tick h = omega arith
  step-length r pending stop h = omega arith
