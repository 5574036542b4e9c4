-- ===== src/Prelude/Results.antt =====
-- `Result` of the source: `?` is the bind of a `do` block.
use mathlib.Core.Path.{◌≡◌, refl}
use mathlib.Core.Logic.{◌⊎◌, inl, inr}

pub data Result {ℓ} (Failure Value : Type ℓ) : Type ℓ where
  err : Failure → Result Failure Value
  ok : Value → Result Failure Value

module _ {ℓ} {F V W : Type ℓ} where
  infixl 5 ◌>>=◌
  abbrev pub ◌>>=◌ : Result F V → (V → Result F W) → Result F W
  err failure >>= next = err failure
  ok value >>= next = next value

  -- A chain that succeeds: its first step does, and then the rest.
  pub >>=_ok :
      (first : Result F V) (next : V → Result F W) {w : W}
      → (first >>= next) ≡ ok w
      → (v : V) × (first ≡ ok v) × (next v ≡ ok w)
  >>=_ok (err failure) next chain = absurd (cc)
  >>=_ok (ok value) next chain = (value, refl, chain)

module _ {ℓ} {F V : Type ℓ} where
  -- `map_err`, and the conversion of the error that `?` makes.
  abbrev pub map_err : {G : Type ℓ} → (F → G) → Result F V → Result G V
  map_err convert (err failure) = err (convert failure)
  map_err convert (ok value) = ok value

  pub Result-cases : (r : Result F V) → ((v : V) × (r ≡ ok v)) ⊎ ((f : F) × (r ≡ err f))
  Result-cases (ok value) = inl (value, refl)
  Result-cases (err failure) = inr (failure, refl)
