-- ===== src/Ratchet/Step.antt =====
-- Asynchronous methods that change a session: they return a value, return early with null or
-- false, or throw, and what was written before stays written.
use messk.Prelude.{◌≡◌, refl, ap, Option, none, some, Bool, true, false}
use messk.Ratchet.Platform.{Session}

pub data Outcome {ℓ} (A : Type ℓ) : Type ℓ where
  done : A → Outcome A
  null : Outcome A
  throws : Outcome A

abbrev pub Step {ℓ} : Type ℓ → Type ℓ
Step A = Session → Outcome A × Session

abbrev pub continue {ℓ κ} :
    {A : Type ℓ} {B : Type κ}
    → Outcome A
    → (A → Session → Outcome B × Session)
    → Session
    → Outcome B × Session
continue (done a) f s = f a s
continue null f s = (null, s)
continue throws f s = (throws, s)

infixl 5 ◌>>=◌ ◌>>◌
abbrev pub ◌>>=◌ : {A B : Type 0} → Step A → (A → Step B) → Step B
◌>>=◌ m f s = continue (m s).0 f (m s).1

abbrev pub ◌>>◌ : {B : Type 0} → Step (Unit {0}) → Step B → Step B
m >> k = m >>= λ _. k

-- A computation that throws where it has no value.
abbrev pub or_throw {ℓ} : {A : Type ℓ} → Option A → Outcome A
or_throw none = throws
or_throw (some a) = done a

-- `if (!b) return null`
abbrev pub or_null : Bool → Outcome (Unit {0})
or_null true = done tt
or_null false = null

infixl 5 ◌>>?◌
-- Chains of calls that may throw.
abbrev pub ◌>>?◌ {ℓ κ} : {A : Type ℓ} {B : Type κ} → Option A → (A → Option B) → Option B
none >>? k = none
some a >>? k = k a

-- A chain that has a value has one at each step.
pub >>?-some :
    {A B : Type 0} (m : Option A) (k : A → Option B) (b : B)
    → (m >>? k) ≡ some b
    → (a : A) × (m ≡ some a) × (k a ≡ some b)
>>?-some none k b e = absurd (cc)
>>?-some (some a) k b e = (a, refl, e)

pub or_throw-done : {A : Type 0} (o : Option A) (a : A) → or_throw o ≡ done a → o ≡ some a
or_throw-done none a e = absurd (cc)
or_throw-done (some b) a e = ap done_or_none e
  where
    done_or_none : {A : Type 0} → Outcome A → Option A
    done_or_none (done a) = some a
    done_or_none _ = none

pub throws-done : {A : Type 0} {a : A} → ¬ (throws ≡ done a)
throws-done e = absurd (cc)
