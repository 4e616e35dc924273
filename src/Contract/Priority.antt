-- ===== src/Contract/Priority.antt =====
-- The transport priority that is used.
use messk.Prelude.{
  Bool, true, false, ◌&&◌, not, ◌≡◌, refl, List, [], ◌∷◌, Text, same, same_iff, same_refl, any,
  includes, arith, Bool-cases, inl, inr, ◌∙◌, all, All,
}
use messk.Contract.{
  is_supported_transport_kind, unseen_supported, normalize_transport_priority, or_default,
}

-- Each text of the list stands in it once.
abbrev pub IsDistinct : List Text → Type 0
IsDistinct [] = Unit
IsDistinct (t ∷ ts) = (includes ts t ≡ false) × IsDistinct ts

-- What is kept is exactly what is listed, supported and not seen before.
unseen_supported-includes :
    (seen kinds : List Text) (k : Text)
    → includes (unseen_supported seen kinds) k
      ≡ (includes kinds k && is_supported_transport_kind k && not (includes seen k))
unfolding unseen_supported includes
unseen_supported-includes seen [] k = refl
unseen_supported-includes seen (t ∷ ts) k = ground (
  arith,
  same_iff t k,
  unseen_supported-includes (t ∷ seen) ts k,
  unseen_supported-includes seen ts k,
)

unseen_supported-IsDistinct : (seen kinds : List Text) → IsDistinct (unseen_supported seen kinds)
unfolding unseen_supported includes
unseen_supported-IsDistinct seen [] = tt
unseen_supported-IsDistinct seen (t ∷ ts) = ground (
  arith,
  unseen_supported-IsDistinct (t ∷ seen) ts,
  unseen_supported-IsDistinct seen ts,
  unseen_supported-includes (t ∷ seen) ts t,
  same_refl t,
)

module _ (p : Text → Bool) where
  includes-all : (ts : List Text) (k : Text) → all p ts ≡ true → includes ts k ≡ true → p k ≡ true
  unfolding includes
  includes-all [] k h i = cc
  includes-all (t ∷ ts) k h i = ground (arith, same_iff t k, includes-all ts k)

unseen_supported-all :
    (seen kinds : List Text) → all is_supported_transport_kind (unseen_supported seen kinds) ≡ true
unfolding unseen_supported
unseen_supported-all seen [] = refl
unseen_supported-all seen (t ∷ ts) =
    ground (arith, unseen_supported-all (t ∷ seen) ts, unseen_supported-all seen ts)

-- No member of the list was seen.
abbrev Fresh : List Text → List Text → Type 0
Fresh seen ts = All (λ t. includes seen t ≡ false) ts

Fresh-cons :
    (seen : List Text) (t : Text) (ts : List Text)
    → includes ts t ≡ false
    → Fresh seen ts
    → Fresh (t ∷ seen) ts
unfolding includes
Fresh-cons seen t [] h f = tt
Fresh-cons seen t (u ∷ us) h f = ground (arith, same_iff u t, same_iff t u, Fresh-cons seen t us)

unseen_supported-fixed :
    (seen ts : List Text)
    → IsDistinct ts
    → all is_supported_transport_kind ts ≡ true
    → Fresh seen ts
    → unseen_supported seen ts ≡ ts
unfolding unseen_supported
unseen_supported-fixed seen [] d a f = refl
unseen_supported-fixed seen (t ∷ ts) d a f =
    ground (arith, unseen_supported-fixed (t ∷ seen) ts, Fresh-cons seen t ts)

Fresh-nil : (ts : List Text) → Fresh [] ts
unfolding includes
Fresh-nil [] = tt
Fresh-nil (t ∷ ts) = (refl, Fresh-nil ts)

-- The priority that is used lists each kind once, and only supported kinds.
pub normalize_priority-IsDistinct :
    (priority : List Text)
    → IsDistinct (normalize_transport_priority priority)
      × (all is_supported_transport_kind (normalize_transport_priority priority) ≡ true)
unfolding normalize_transport_priority is_supported_transport_kind includes same
normalize_priority-IsDistinct priority =
    go (unseen_supported [] priority) (unseen_supported-IsDistinct [] priority)
      (unseen_supported-all [] priority)
  where
    go :
        (ts : List Text)
        → IsDistinct ts
        → all is_supported_transport_kind ts ≡ true
        → IsDistinct (or_default ts) × (all is_supported_transport_kind (or_default ts) ≡ true)
    go [] d a = ((refl, (refl, (refl, (refl, (refl, tt))))), refl)
    go (t ∷ ts) d a = (d, a)

or_default_idem : (ts : List Text) → or_default (or_default ts) ≡ or_default ts
or_default_idem [] = refl
or_default_idem (t ∷ ts) = refl

or_default-of_member : (ts : List Text) (k : Text) → includes ts k ≡ true → or_default ts ≡ ts
unfolding includes
or_default-of_member [] k h = cc
or_default-of_member (t ∷ ts) k h = refl

any-witness :
    (p : Text → Bool) (ts : List Text)
    → any p ts ≡ true
    → (t : Text) × (includes ts t ≡ true) × (p t ≡ true)
unfolding includes
any-witness p [] h = absurd (ground arith)
any-witness p (t ∷ ts) h = elim (Bool-cases (p t)) [
  | inl here ↦ (t, rw same_refl refl, here)
  | inr there ↦ let (u, m, q) = any-witness p ts (ground arith) in (u, ground arith, q)
]

-- Normalising a priority again changes nothing.
pub normalize_priority_idem :
    (priority : List Text)
    → normalize_transport_priority (normalize_transport_priority priority)
      ≡ normalize_transport_priority priority
normalize_priority_idem priority =
    let (d, a) = normalize_priority-IsDistinct priority in
    let ts = normalize_transport_priority priority in
    unfold normalize_transport_priority in
    rw (unseen_supported-fixed [] ts d a (Fresh-nil ts))
      (or_default_idem (unseen_supported [] priority))

-- If the caller lists a supported kind, then what is used is exactly the supported kinds listed.
pub normalize_priority-includes :
    (priority : List Text) (k : Text)
    → any is_supported_transport_kind priority ≡ true
    → includes (normalize_transport_priority priority) k
      ≡ (includes priority k && is_supported_transport_kind k)
unfolding normalize_transport_priority includes
normalize_priority-includes priority k h =
    let (t, listed, supported) = any-witness is_supported_transport_kind priority h in
    rw
      (or_default-of_member (unseen_supported [] priority) t
        (ground (arith, unseen_supported-includes [] priority t)))
      (unseen_supported-includes [] priority k ∙ ground arith)
