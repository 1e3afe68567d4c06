-- ===== src/Queue/Fifo.antt =====
-- The queue in memory against a list of jobs: first in, first out.
use stair_platform.Prelude.{
  ◌≡◌, refl, ap, inl, inr, Bool, true, false, Option, none, some, List, [], ◌∷◌, ◌++◌, arith,
  Option-cases,
}
use stair_platform.Queue.{Job, Dequeued, empty, dequeued, checked, unmarshal_job, enqueue, dequeue}

-- A call of the queue.
pub data Call (B : Type 0) : Type 0 where
  enqueuing : Job B → Call B
  dequeuing : Call B

-- What a call returns.
pub data Output (B : Type 0) : Type 0 where
  enqueued : Bool → Output B
  taken : Dequeued B → Output B

module _ {B : Type 0} (encode : Job B → Option B) (decode : B → Option (Job B)) where
  -- The outputs of the calls, in order.
  unfoldable pub outputs : List (Call B) → List B → List (Output B)
  outputs [] q = []
  outputs (enqueuing j ∷ calls) q =
      let (after, done) = enqueue encode decode j q in enqueued done ∷ outputs calls after
  outputs (dequeuing ∷ calls) q =
      let (after, result) = dequeue encode decode q in taken result ∷ outputs calls after

  -- The contract: jobs that can be encoded leave in the order in which they came, as JSON keeps
  -- them and with the checks of UnmarshalJob.
  module _ (canonical : Job B → Job B) where
    unfoldable pub spec : List (Call B) → List (Job B) → List (Output B)
    spec [] js = []
    spec (enqueuing j ∷ calls) js =
        let rest = spec calls js in
        let longer = spec calls (js ++ j ∷ []) in
        elim (encode j) [ none ↦ enqueued false ∷ rest | some b ↦ enqueued true ∷ longer ]
    spec (dequeuing ∷ calls) [] = taken empty ∷ spec calls []
    spec (dequeuing ∷ calls) (j ∷ js) = taken (dequeued (checked (canonical j))) ∷ spec calls js

    -- The bytes are those of the jobs.
    unfoldable pub Holds : List B → List (Job B) → Type 0
    Holds [] [] = Unit
    Holds (b ∷ q) (j ∷ js) = (encode j ≡ some b) × Holds q js
    Holds _ _ = ⊥

    abbrev pub IsCodec : Type 0
    IsCodec = (j : Job B) (b : B) → encode j ≡ some b → decode b ≡ some (canonical j)

    Holds-snoc :
        (q : List B) (js : List (Job B)) (b : B) (j : Job B)
        → Holds q js
        → encode j ≡ some b
        → Holds (q ++ b ∷ []) (js ++ j ∷ [])
    unfolding Holds
    Holds-snoc [] [] b j h e = (e, tt)
    Holds-snoc (c ∷ q) (i ∷ js) b j h e = (h.0, Holds-snoc q js b j h.1 e)
    Holds-snoc [] (i ∷ js) b j h e = absurd h
    Holds-snoc (c ∷ q) [] b j h e = absurd h

    outputs-Holds :
        (calls : List (Call B)) (q : List B) (js : List (Job B))
        → IsCodec
        → Holds q js
        → outputs calls q ≡ spec calls js
    unfolding outputs spec enqueue dequeue unmarshal_job Holds
    outputs-Holds [] q js codec h = refl
    outputs-Holds (enqueuing j ∷ calls) q js codec h = elim (Option-cases (encode j)) [
      | inl refused ↦ ground (arith, refused, outputs-Holds calls q js codec h)
      | inr (b, e) ↦ ground (
        arith,
        e,
        outputs-Holds calls (q ++ b ∷ []) (js ++ j ∷ []) codec (Holds-snoc q js b j h e),
      )
    ]
    outputs-Holds (dequeuing ∷ calls) [] [] codec h =
        ap (λ r. taken empty ∷ r) (outputs-Holds calls [] [] codec tt)
    outputs-Holds (dequeuing ∷ calls) (b ∷ q) (j ∷ js) codec h =
        ground (arith, codec j b h.0, outputs-Holds calls q js codec h.1)
    outputs-Holds (dequeuing ∷ calls) [] (j ∷ js) codec h = absurd h
    outputs-Holds (dequeuing ∷ calls) (b ∷ q) [] codec h = absurd h

    -- Where the decoding of an encoded job gives its canonical form, any calls on a new queue return
    -- what a list of jobs returns: the jobs that can be encoded leave in the order of their arrival,
    -- each once. One without an id or a type leaves with the error of `UnmarshalJob` in its place.
    pub outputs-spec : (calls : List (Call B)) → IsCodec → outputs calls [] ≡ spec calls []
    unfolding Holds
    outputs-spec calls codec = outputs-Holds calls [] [] codec tt
