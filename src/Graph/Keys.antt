-- ===== src/Graph/Keys.antt =====
-- The key of an edge, `from + "->" + to`, and its ends.
use stair_platform.Prelude.{
  String, ◌≡◌, refl, sym, ap, ◌∙◌, Bool, true, false, ◌==◌, arith, str_eq, eq_iff, if◌then◌else◌,
  Bool-cases, inl, inr,
}
use stair_platform.Graph.{edge_key}
use Prim.Native.String.{◌++◌ as concat}
use Prim.Native.String.append
use Prim.Native.Char.{Char, code}

-- Whether a text has no dash.
unfoldable pub is_plain : String → Bool
is_plain String.[] = true
is_plain (String.◌∷◌ c s) = let rest = is_plain s in if code c == b'-' then false else rest

concat_nil : (t : String) → concat "" t ≡ t
concat_nil t = λ i. append.nil t i

concat_cons : (c : Char) (s t : String) → concat (String.◌∷◌ c s) t ≡ String.◌∷◌ c (concat s t)
concat_cons c s t = λ i. append.cons c s t i

tail_of : String → String
tail_of String.[] = String.[]
tail_of (String.◌∷◌ c s) = s

first_of : String → Char
first_of String.[] = "-"
first_of (String.◌∷◌ c s) = c

dash_of : Char → Bool
dash_of c = code c == b'-'

-- The first character and the rest of a key.
edge_key_nil : (b : String) → edge_key "" b ≡ String.◌∷◌ "-" (String.◌∷◌ ">" b)
edge_key_nil b =
    concat_nil (concat "->" b)
    ∙ concat_cons "-" ">" b
    ∙ ap (String.◌∷◌ "-") (concat_cons ">" "" b ∙ ap (String.◌∷◌ ">") (concat_nil b))

edge_key_cons :
    (c : Char) (a b : String) → edge_key (String.◌∷◌ c a) b ≡ String.◌∷◌ c (edge_key a b)
edge_key_cons c a b = concat_cons c a (concat "->" b)

dash_first :
    (y : Char) (c b d : String)
    → is_plain (String.◌∷◌ y c) ≡ true
    → edge_key "" b ≡ edge_key (String.◌∷◌ y c) d
    → ⊥
unfolding is_plain first_of dash_of
dash_first y c b d q e =
    let same : code "-" ≡ code y =
      ap (λ s. code (first_of s)) (sym (edge_key_nil b) ∙ e ∙ edge_key_cons y c d) in
    ground arith

pub edge_key_ends :
    (a b c d : String)
    → is_plain a ≡ true
    → is_plain c ≡ true
    → edge_key a b ≡ edge_key c d
    → (a ≡ c) × (b ≡ d)
unfolding is_plain first_of tail_of
edge_key_ends String.[] b String.[] d p q e =
    (refl, ap (λ s. tail_of (tail_of s)) (sym (edge_key_nil b) ∙ e ∙ edge_key_nil d))
edge_key_ends String.[] b (String.◌∷◌ y c) d p q e = absurd (dash_first y c b d q e)
edge_key_ends (String.◌∷◌ x a) b String.[] d p q e = absurd (dash_first x a d b p (sym e))
edge_key_ends (String.◌∷◌ x a) b (String.◌∷◌ y c) d p q e =
    let whole = sym (edge_key_cons x a b) ∙ e ∙ edge_key_cons y c d in
    let (i, j) = edge_key_ends a b c d (ground arith) (ground arith) (ap tail_of whole) in
    (rw (ap first_of whole, i) refl, j)

has_first : String → Bool
has_first String.[] = false
has_first (String.◌∷◌ c s) = true

has_first-edge_key : (a b : String) → has_first (edge_key a b) ≡ true
unfolding has_first
has_first-edge_key String.[] b = rw (edge_key_nil b) refl
has_first-edge_key (String.◌∷◌ c a) b = rw (edge_key_cons c a b) refl

pub edge_key-ne-empty : (a b : String) → str_eq (edge_key a b) "" ≡ false
unfolding has_first
edge_key-ne-empty a b = elim (Bool-cases (str_eq (edge_key a b) "")) [
  | inl e ↦
      let same = (eq_iff (edge_key a b) "").0 e in
      absurd (ground (arith, has_first-edge_key a b, ap has_first same))
  | inr e ↦ e
]
