-- ===== src/Base/Chains.antt =====
-- Chains of steps that may fail.
use mycore.Base.{Bool, true, false, ◌≡◌, refl, ◌⊎◌, inl, inr}
use mycore.Base.Results.{Variant, value, error}

module _ {E : Type 0} where
  infixl 5 ◌>>=◌ ◌>>◌
  abbrev pub ◌>>=◌ : {A B : Type 0} → Variant E A → (A → Variant E B) → Variant E B
  value a >>= f = f a
  error e >>= f = error e

  abbrev pub ◌>>◌ : {B : Type 0} → Variant E (Unit {0}) → Variant E B → Variant E B
  value a >> k = k
  error e >> k = error e

  -- `if (test) { return e; }`.
  abbrev pub refuse : Bool → E → Variant E (Unit {0})
  refuse true e = error e
  refuse false e = value tt

  -- What a chain that has succeeded has passed.
  pub bind-value :
      {A B : Type 0} (m : Variant E A) (f : A → Variant E B) (b : B)
      → (m >>= f) ≡ value b
      → (a : A) × (m ≡ value a) × (f a ≡ value b)
  bind-value (value a) f b h = (a, refl, h)
  bind-value (error e) f b h = absurd (cc h)

  pub then-value :
      {B : Type 0} (m : Variant E (Unit {0})) (k : Variant E B) (b : B)
      → (m >> k) ≡ value b
      → (m ≡ value tt) × (k ≡ value b)
  then-value (value tt) k b h = (refl, h)
  then-value (error e) k b h = absurd (cc h)

  pub refuse-value : (test : Bool) (e : E) → refuse test e ≡ value tt → test ≡ false
  refuse-value true e h = absurd (cc h)
  refuse-value false e h = refl

-- To split on a computed result and keep the equation.
pub Variant-cases :
    {E A : Type 0} (r : Variant E A) → ((a : A) × (r ≡ value a)) ⊎ ((e : E) × (r ≡ error e))
Variant-cases (value a) = inl (a, refl)
Variant-cases (error e) = inr (e, refl)
