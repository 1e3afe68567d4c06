-- ===== src/Queue.antt =====
-- internal/infrastructure/queue/queue.go: jobs and the queue in memory. Its mutex makes each method
-- one step. `encode` and `decode` are encoding/json on a job; B is the type of bytes, and the payload
-- is bytes too.
pub mod Fifo
mod Examples
use stair_platform.Prelude.{
  ℕ, String, Bool, true, false, ◌||◌, Option, none, some, List, [], ◌∷◌, ◌++◌, str_eq,
  if◌then◌else◌, ℤ, pos, ltb_ℤ,
}

pub record Job (B : Type 0) : Type 0 where
  pub id : String
  pub type : String
  pub payload : B
  pub attempts : ℤ
  pub max_attempts : ℤ
  pub created_at : ℕ

-- `DefaultMaxAttempts`
abbrev pub default_max_attempts : ℤ
default_max_attempts = pos 3

pub data JobError : Type 0 where
  empty_type marshal_payload random_failed unmarshal_failed missing_id_or_type : JobError

pub data JobResult (B : Type 0) : Type 0 where
  job : Job B → JobResult B
  fails : JobError → JobResult B

-- `NewJob`, with what the encoding of the payload and the random generator return.
unfoldable pub new_job : {B : Type 0} → String → Option B → Option String → ℕ → JobResult B
new_job typ payload random_id now = if str_eq typ "" then fails empty_type else elim payload [
  | none ↦ fails marshal_payload
  | some raw ↦ elim random_id [
    | none ↦ fails random_failed
    | some id ↦ job (record {
      id = id;
      type = typ;
      payload = raw;
      attempts = pos 0;
      max_attempts = default_max_attempts;
      created_at = now;
    })
  ]
]

-- What UnmarshalJob makes of a job that is decoded.
unfoldable pub checked : {B : Type 0} → Job B → JobResult B
checked j =
    if str_eq j.id "" || str_eq j.type ""
    then fails missing_id_or_type
    else if ltb_ℤ (pos 0) j.max_attempts
    then job j
    else job (record j { max_attempts = default_max_attempts })

-- What Dequeue returns.
pub data Dequeued (B : Type 0) : Type 0 where
  empty : Dequeued B
  got : Job B → Dequeued B
  failed : JobError → Dequeued B

abbrev pub dequeued : {B : Type 0} → JobResult B → Dequeued B
dequeued (job j) = got j
dequeued (fails e) = failed e

module _ {B : Type 0} (encode : Job B → Option B) (decode : B → Option (Job B)) where
  unfoldable pub unmarshal_job : B → JobResult B
  unfolding checked
  unmarshal_job b = elim (decode b) [ none ↦ fails unmarshal_failed | some j ↦ checked j ]

  -- The queue, and whether the job was put into it.
  unfoldable pub enqueue : Job B → List B → List B × Bool
  enqueue j q = elim (encode j) [ none ↦ (q, false) | some b ↦ (q ++ b ∷ [], true) ]

  -- A job that cannot be read has left the queue all the same.
  unfoldable pub dequeue : List B → List B × Dequeued B
  unfolding unmarshal_job
  dequeue [] = ([], empty)
  dequeue (b ∷ q) = (q, dequeued (unmarshal_job b))
