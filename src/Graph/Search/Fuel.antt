-- ===== src/Graph/Search/Fuel.antt =====
-- How many members of a universe of ids a search has not seen: the measure of its recursion.
use stair_platform.Prelude.{
  ℕ, suc, ◌≤◌, ◌<◌, String, ◌≡◌, inl, inr, true, false, List, [], ◌∷◌, arith, str_eq, eq_iff,
  if◌then◌else◌, Bool-cases, length, contains,
}

pub unseen : List String → List String → ℕ
unseen [] seen = 0
unseen (u ∷ us) seen = if contains seen u then unseen us seen else suc (unseen us seen)

abbrev pub Subset : List String → List String → Type 0
Subset s t = (y : String) → contains s y ≡ true → contains t y ≡ true

pub unseen_mono : (us s t : List String) → Subset s t → unseen us t ≤ unseen us s
unfolding unseen
unseen_mono [] s t h = omega arith
unseen_mono (u ∷ us) s t h = ground (arith, unseen_mono us s t h, h u)

pub unseen-cons :
    (us s : List String) (x : String)
    → contains us x ≡ true
    → contains s x ≡ false
    → unseen us (x ∷ s) < unseen us s
unfolding unseen contains
unseen-cons [] s x h n = cc
unseen-cons (u ∷ us) s x h n = elim (Bool-cases (str_eq u x)) [
  | inl e ↦
      ground (arith, eq_iff u x, eq_iff x u, unseen_mono us s (x ∷ s) (λ y m. ground (arith, m)))
  | inr ne ↦ ground (arith, eq_iff u x, eq_iff x u, unseen-cons us s x)
]

pub unseen-le : (us s : List String) → unseen us s ≤ length us
unfolding unseen
unseen-le [] s = omega arith
unseen-le (u ∷ us) s = ground (arith, unseen-le us s)
