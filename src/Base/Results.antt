-- ===== src/Base/Results.antt =====
-- A property of the result of a computation that may fail.
use mathlib.Core.Option
use gewodsys.Base.Tests.{if◌then◌else◌}
use mathlib.Core.Bool.{Bool, true, false}
use mathlib.Core.Logic.{◌⊎◌, inl, inr}
use mathlib.Core.Path.{◌≡◌, refl}
use mathlib.Core.Option.{Option, none, some}

-- The result has the property, if there is one.
abbrev pub Then : {A : Type 0} → (A → Type 0) → Option A → Type 0
Then Q none = Unit
Then Q (some x) = Q x

pub Option-cases : {A : Type 0} → (o : Option A) → (o ≡ none) ⊎ ((x : A) × (o ≡ some x))
Option-cases none = inl refl
Option-cases (some x) = inr (x, refl)

module _ {A : Type 0} (Q : A → Type 0) where
  pub if-Then : (c : Bool) (o o' : Option A) → Then Q o → Then Q o' → Then Q (if c then o else o')
  if-Then true o o' h h' = h
  if-Then false o o' h h' = h'

  pub Then_some : (o : Option A) (x : A) → o ≡ some x → Then Q o → Q x
  Then_some o x e h = rw e at h

  pub weaken-Then : (S : A → Type 0) (o : Option A) → ((x : A) → Q x → S x) → Then Q o → Then S o
  weaken-Then S none all h = tt
  weaken-Then S (some x) all h = all x h

module _ {A B : Type 0} (Q : A → Type 0) (S : B → Type 0) where
  pub map-Then :
      (f : A → B) (o : Option A) → ((x : A) → Q x → S (f x)) → Then Q o → Then S (Option.map f o)
  map-Then f none all h = tt
  map-Then f (some x) all h = all x h

  pub bind-Then :
      (f : A → Option B) (o : Option A)
      → ((x : A) → Q x → Then S (f x))
      → Then Q o
      → Then S (Option.bind o f)
  unfolding Option.bind
  bind-Then f none all h = tt
  bind-Then f (some x) all h = all x h

module _ {A B : Type 0} (S : B → Type 0) where
  pub map_all : (f : A → B) (o : Option A) → ((x : A) → S (f x)) → Then S (Option.map f o)
  map_all f none all = tt
  map_all f (some x) all = all x

  pub bind_all :
      (f : A → Option B) (o : Option A) → ((x : A) → Then S (f x)) → Then S (Option.bind o f)
  unfolding Option.bind
  bind_all f none all = tt
  bind_all f (some x) all = all x
