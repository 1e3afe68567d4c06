-- ===== src/Queue/Examples.antt =====
-- Jobs whose bytes are their types.
use stair_platform.Prelude.{String, ◌≡◌, some, List, [], ◌∷◌, arith, pos}
use stair_platform.Queue.{Job}
use stair_platform.Queue.Fifo.{Call, enqueuing, dequeuing, outputs, spec, outputs-spec}

abbrev sample : String → Job String
sample typ = record {
  id = typ;
  type = typ;
  payload = "";
  attempts = pos 0;
  max_attempts = pos 0;
  created_at = 0;
}

abbrev calls : List (Call String)
calls = enqueuing (sample "a") ∷ enqueuing (sample "b") ∷ dequeuing ∷ dequeuing ∷ dequeuing ∷ []

outputs-spec_example :
    outputs (λ j. some j.type) (λ b. some (sample b)) calls []
    ≡ spec (λ j. some j.type) (λ b. some (sample b)) (λ j. sample j.type) calls []
outputs-spec_example =
    outputs-spec (λ j. some j.type) (λ b. some (sample b)) (λ j. sample j.type) calls
      (λ j b e. ground arith)
