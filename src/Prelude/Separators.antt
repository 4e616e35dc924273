-- ===== src/Prelude/Separators.antt =====
-- Texts joined by a separator that one of the two does not hold can be taken apart again.
use mathlib.Core.Path.{◌≡◌, refl}
use mathlib.Core.Bool.{true, not}
use mathlib.Core.List.{List, [], ◌∷◌, ◌++◌}
use mathlib.Core.Logic.{◌≢◌}
use native.Mathlib.Omega.{arith}
use Prim.Native.Nat.{ℕ}
use messk.Prelude.Tests.{◌==◌, if◌then◌else◌}
use messk.Prelude.Lists.{all}
use messk.Prelude.Strings.{Text}

abbrev pub Lacks : ℕ → Text → Type 0
Lacks sep s = all (λ c. not (c == sep)) s ≡ true

pub Lacks-append : (sep : ℕ) (s t : Text) → Lacks sep s → Lacks sep t → Lacks sep (s ++ t)
Lacks-append sep [] t h k = k
Lacks-append sep (c ∷ s) t h k = ground (arith, Lacks-append sep s t)

pub not-Lacks-append : (sep : ℕ) (s t : Text) → ¬ Lacks sep (s ++ sep ∷ t)
not-Lacks-append sep [] t h = ground arith
not-Lacks-append sep (c ∷ s) t h = ground (arith, not-Lacks-append sep s t)

-- The first part lacks the separator.
pub append-inj_of_first :
    (sep : ℕ) (s s' t t' : Text)
    → Lacks sep s
    → Lacks sep s'
    → s ++ sep ∷ t ≡ s' ++ sep ∷ t'
    → (s ≡ s') × (t ≡ t')
append-inj_of_first sep [] [] t t' h h' e = (refl, ground arith)
append-inj_of_first sep [] (c ∷ s') t t' h h' e = absurd (ground arith)
append-inj_of_first sep (c ∷ s) [] t t' h h' e = absurd (ground arith)
append-inj_of_first sep (c ∷ s) (c' ∷ s') t t' h h' e =
    ground (arith, append-inj_of_first sep s s' t t')

-- The last part lacks the separator.
pub append-inj_of_last :
    (sep : ℕ) (s s' t t' : Text)
    → Lacks sep t
    → Lacks sep t'
    → s ++ sep ∷ t ≡ s' ++ sep ∷ t'
    → (s ≡ s') × (t ≡ t')
append-inj_of_last sep [] [] t t' h h' e = (refl, ground arith)
append-inj_of_last sep [] (c ∷ s') t t' h h' e = absurd (ground (arith, not-Lacks-append sep s' t'))
append-inj_of_last sep (c ∷ s) [] t t' h h' e = absurd (ground (arith, not-Lacks-append sep s t))
append-inj_of_last sep (c ∷ s) (c' ∷ s') t t' h h' e =
    ground (arith, append-inj_of_last sep s s' t t')

-- value.split(sep), for a separator of one code unit
unfoldable pub split : ℕ → Text → List Text
split sep [] = [] ∷ []
split sep (c ∷ s) = elim (split sep s) [
  | [] ↦ (c ∷ []) ∷ []
  | part ∷ parts ↦ if c == sep then [] ∷ (part ∷ parts) else (c ∷ part) ∷ parts
]

pub split-last : (sep : ℕ) (s : Text) → Lacks sep s → split sep s ≡ s ∷ []
unfolding split
split-last sep [] h = refl
split-last sep (c ∷ s) h = ground (arith, split-last sep s)

split-ne-nil : (sep : ℕ) (t : Text) → split sep t ≢ []
unfolding split
split-ne-nil sep [] = ground arith
split-ne-nil sep (c ∷ t) = ground arith

-- A part that ends at a separator is cut off whole.
pub split-append : (sep : ℕ) (s t : Text) → Lacks sep s → split sep (s ++ sep ∷ t) ≡ s ∷ split sep t
unfolding split
split-append sep [] t h = ground (arith, split-ne-nil sep t)
split-append sep (c ∷ s) t h = ground (arith, split-append sep s t, split-ne-nil sep t)
