-- ===== src/Base/Options.antt =====
-- What a successful map or bind over an option says of its parts.
use mathlib.Core.Path.{◌≡◌, refl}
use mathlib.Core.Option
use mathlib.Core.Option.{Option, none, some}

pub some_inj {ℓ} : {A : Type ℓ} {a b : A} → some a ≡ some b → a ≡ b
some_inj h = cc

module _ {ℓ κ} {A : Type ℓ} {B : Type κ} where
  pub map-eq_some :
      (f : A → B) (o : Option A) (b : B)
      → Option.map f o ≡ some b
      → (a : A) × (o ≡ some a) × (f a ≡ b)
  map-eq_some f none b h = absurd (cc)
  map-eq_some f (some a) b h = (a, refl, cc)

  pub bind-eq_some :
      (f : A → Option B) (o : Option A) (b : B)
      → Option.bind o f ≡ some b
      → (a : A) × (o ≡ some a) × (f a ≡ some b)
  unfolding Option.bind
  bind-eq_some f none b h = absurd (cc)
  bind-eq_some f (some a) b h = (a, refl, h)
