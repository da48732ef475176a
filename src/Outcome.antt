-- ===== src/Outcome.antt =====
-- How a member function ends: it returns, it throws, or its behaviour is undefined (a null or raw
-- read, or a loop that never ends). State is passed on in the first two cases.
use cpp_unordered_map.Prelude.{Option, none, some, ◌≡◌, refl, ap, ◌∙◌}

pub data Outcome {ℓ κ} (S : Type ℓ) (A : Type κ) : Type (ℓ ⊔ κ) where
  returned : A → S → Outcome S A
  threw : S → Outcome S A
  undefined : Outcome S A

abbrev pub Action {ℓ κ} : Type ℓ → Type κ → Type (ℓ ⊔ κ)
Action S A = S → Outcome S A

abbrev pub pure {ℓ κ} : {S : Type ℓ} {A : Type κ} → A → Action S A
pure a s = returned a s

-- What is left to do after an action has ended.
abbrev pub resume {ℓ κ μ} :
    {S : Type ℓ} {A : Type κ} {B : Type μ} → Outcome S A → (A → Action S B) → Outcome S B
resume (returned a s) f = f a s
resume (threw s) f = threw s
resume undefined f = undefined

infixl 5 ◌>>=◌ ◌>>◌
abbrev pub ◌>>=◌ {ℓ κ μ} :
    {S : Type ℓ} {A : Type κ} {B : Type μ} → Action S A → (A → Action S B) → Action S B
◌>>=◌ m f s = resume (m s) f

abbrev pub ◌>>◌ {ℓ μ} : {S : Type ℓ} {B : Type μ} → Action S (Unit {0}) → Action S B → Action S B
m >> k = m >>= λ _. k

-- `catch (...) { handler; throw; }`
abbrev pub rethrow_after {ℓ κ} : {S : Type ℓ} {A : Type κ} → Outcome S (Unit {0}) → Outcome S A
rethrow_after (returned _ s) = threw s
rethrow_after (threw s) = threw s
rethrow_after undefined = undefined

abbrev pub rescue {ℓ κ} :
    {S : Type ℓ} {A : Type κ} → Outcome S A → Action S (Unit {0}) → Outcome S A
rescue (returned a s) handler = returned a s
rescue (threw s) handler = rethrow_after (handler s)
rescue undefined handler = undefined

abbrev pub rethrowing {ℓ κ} :
    {S : Type ℓ} {A : Type κ} → Action S A → Action S (Unit {0}) → Action S A
rethrowing m handler s = rescue (m s) handler

abbrev pub read {ℓ κ} : {S : Type ℓ} {A : Type κ} → (S → A) → Action S A
read f s = returned (f s) s

abbrev pub modify {ℓ} : {S : Type ℓ} → (S → S) → Action S (Unit {0})
modify f s = returned tt (f s)

abbrev pub throw {ℓ κ} : {S : Type ℓ} {A : Type κ} → Action S A
throw s = threw s

-- A value that must be there.
abbrev pub require {ℓ κ} : {S : Type ℓ} {A : Type κ} → Option A → Action S A
require none s = undefined
require (some a) s = returned a s

-- Runs step by step: each equation replaces an action by what it did.
module _ {ℓ κ} {S : Type ℓ} {A : Type κ} where
  pub bind-returned {μ} :
      {B : Type μ} (m : Action S A) (f : A → Action S B) (s : S) {s' : S} {a : A}
      → m s ≡ returned a s'
      → (m >>= f) s ≡ f a s'
  bind-returned m f s e = ap (λ o. resume o f) e

  pub bind-threw {μ} :
      {B : Type μ} (m : Action S A) (f : A → Action S B) (s : S) {s' : S}
      → m s ≡ threw s'
      → (m >>= f) s ≡ threw s'
  bind-threw m f s e = ap (λ o. resume o f) e

  pub rethrowing-returned :
      (m : Action S A) (handler : Action S (Unit {0})) (s : S) {s' : S} {a : A}
      → m s ≡ returned a s'
      → rethrowing m handler s ≡ returned a s'
  rethrowing-returned m handler s e = ap (λ o. rescue o handler) e

  pub rethrowing-threw :
      (m : Action S A) (handler : Action S (Unit {0})) (s : S) {s' s'' : S}
      → m s ≡ threw s'
      → handler s' ≡ returned tt s''
      → rethrowing m handler s ≡ threw s''
  rethrowing-threw m handler s e h = ap (λ o. rescue o handler) e ∙ ap rethrow_after h

pub resume-resume {ℓ κ μ ν} :
    {S : Type ℓ} {A : Type κ} {B : Type μ} {C : Type ν} (o : Outcome S A) (f : A → Action S B)
    (g : B → Action S C)
    → resume (resume o f) g ≡ resume o (λ a s. resume (f a s) g)
resume-resume (returned a s) f g = refl
resume-resume (threw s) f g = refl
resume-resume undefined f g = refl
