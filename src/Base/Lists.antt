-- ===== src/Base/Lists.antt =====
-- Lists measured and cut by native numbers, sets as lists, and dictionaries as association lists.
use Prim.Native.Nat.{ℕ, zero, suc, ◌+◌, ◌-◌, ◌≤◌, min}
use mathlib.Core.Path.{◌≡◌, refl, ap}
use mathlib.Core.Bool.{Bool, true, false, ◌&&◌, ◌||◌}
use mathlib.Core.Option.{Option, none, some}
use mathlib.Core.Logic.{◌↔◌}
use mathlib.Core.List.{List, [], ◌∷◌, ◌++◌, map}
use native.Mathlib.Omega.{arith}
use mama_gift.Base.Tests.{Eq, ◌==◌, if◌then◌else◌, beq_refl}

module _ {ℓ} {A : Type ℓ} where
  abbrev pub length : List A → ℕ
  length [] = 0
  length (x ∷ xs) = suc (length xs)

  abbrev pub take : ℕ → List A → List A
  take zero xs = []
  take (suc n) [] = []
  take (suc n) (x ∷ xs) = x ∷ take n xs

  abbrev pub drop : ℕ → List A → List A
  drop zero xs = xs
  drop (suc n) [] = []
  drop (suc n) (x ∷ xs) = drop n xs

  pub length-append : (xs ys : List A) → length (xs ++ ys) ≡ length xs + length ys
  length-append [] ys = omega arith
  length-append (x ∷ xs) ys = omega (arith, length-append xs ys)

  pub length-take : (n : ℕ) (xs : List A) → length (take n xs) ≡ min n (length xs)
  length-take zero xs = omega arith
  length-take (suc n) [] = omega arith
  length-take (suc n) (x ∷ xs) = omega (arith, length-take n xs)

  pub length-drop : (n : ℕ) (xs : List A) → length (drop n xs) ≡ length xs - n
  length-drop zero xs = omega arith
  length-drop (suc n) [] = omega arith
  length-drop (suc n) (x ∷ xs) = omega (arith, length-drop n xs)

  pub take-of_le : (n : ℕ) (xs : List A) → length xs ≤ n → take n xs ≡ xs
  take-of_le zero [] h = refl
  take-of_le zero (x ∷ xs) h = absurd (omega arith)
  take-of_le (suc n) [] h = refl
  take-of_le (suc n) (x ∷ xs) h = ap (λ t. x ∷ t) (take-of_le n xs (omega arith))

  pub take-append-drop : (n : ℕ) (xs : List A) → take n xs ++ drop n xs ≡ xs
  take-append-drop zero xs = refl
  take-append-drop (suc n) [] = refl
  take-append-drop (suc n) (x ∷ xs) = ap (λ t. x ∷ t) (take-append-drop n xs)

-- A property of every element, by recursion, so that the tactics read it.
abbrev pub All {ℓ κ} : {A : Type ℓ} → (A → Type κ) → List A → Type κ
All P [] = Unit
All P (x ∷ xs) = P x × All P xs

module _ {ℓ κ} {A : Type ℓ} (P : A → Type κ) where
  pub All-append : (xs ys : List A) → All P xs → All P ys → All P (xs ++ ys)
  All-append [] ys p q = q
  All-append (x ∷ xs) ys p q = (p.0, All-append xs ys p.1 q)

-- Python's `in` on a sequence or a set.
module _ {ℓ} {A : Type ℓ} ⦃e : Eq A⦄ where
  abbrev pub contains : A → List A → Bool
  contains a [] = false
  contains a (x ∷ xs) = a == x || contains a xs

  -- No element twice.
  abbrev pub distinct : List A → Bool
  distinct [] = true
  distinct (x ∷ xs) = (if contains x xs then false else true) && distinct xs

  pub contains-append :
      (a : A) (xs ys : List A) → contains a (xs ++ ys) ≡ (contains a xs || contains a ys)
  contains-append a [] ys = refl
  contains-append a (x ∷ xs) ys = ground (arith, contains-append a xs ys)

  pub contains_self : (a : A) (xs : List A) → contains a (a ∷ xs) ≡ true
  contains_self a xs = ground (arith, beq_refl a)

-- Python's `dict.get`.
module _ {ℓ κ} {K : Type ℓ} {V : Type κ} ⦃e : Eq K⦄ where
  abbrev pub lookup : K → List (K × V) → Option V
  lookup k [] = none
  lookup k ((j, v) ∷ m) = if k == j then some v else lookup k m

-- Python's `==` on lists.
module _ {ℓ} {A : Type ℓ} ⦃e : Eq A⦄ where
  abbrev pub list_beq : List A → List A → Bool
  list_beq [] [] = true
  list_beq [] (y ∷ ys) = false
  list_beq (x ∷ xs) [] = false
  list_beq (x ∷ xs) (y ∷ ys) = x == y && list_beq xs ys

  pub list_beq_iff : (xs ys : List A) → (list_beq xs ys ≡ true) ↔ (xs ≡ ys)
  list_beq_iff [] [] = ground arith
  list_beq_iff [] (y ∷ ys) = ground arith
  list_beq_iff (x ∷ xs) [] = ground arith
  list_beq_iff (x ∷ xs) (y ∷ ys) = ground (arith, e.beq_iff x y, list_beq_iff xs ys)

instance abbrev pub list_eq {ℓ} : {A : Type ℓ} ⦃e : Eq A⦄ → Eq (List A)
list_eq = record { beq = list_beq; beq_iff = list_beq_iff }

module _ {ℓ} {A : Type ℓ} ⦃e : Eq A⦄ where
  -- No element of the second list occurs in the first.
  abbrev pub Fresh : List A → List A → Type 0
  Fresh seen [] = Unit
  Fresh seen (x ∷ xs) = (contains x seen ≡ false) × Fresh seen xs

  pub Fresh-nil : (xs : List A) → Fresh [] xs
  Fresh-nil [] = tt
  Fresh-nil (x ∷ xs) = (refl, Fresh-nil xs)

  pub beq_sym : (x y : A) → (x == y) ≡ (y == x)
  beq_sym x y = ground (arith, e.beq_iff x y, e.beq_iff y x)

  -- To be fresh after `x` was seen is to be fresh, and not to hold `x`.
  pub Fresh-cons :
      (x : A) (seen xs : List A) → Fresh (x ∷ seen) xs ↔ (Fresh seen xs × (contains x xs ≡ false))
  Fresh-cons x seen [] = (λ h. (tt, refl), λ h. tt)
  Fresh-cons x seen (y ∷ ys) =
      let ih = Fresh-cons x seen ys in
      (
        λ h. let (f, n) = ih.0 h.1 in ((ground arith, f), ground (arith, beq_sym x y)),
        λ h. (ground (arith, beq_sym x y), ih.1 (h.0.1, ground arith)),
      )

module _ {ℓ} {A : Type ℓ} ⦃e : Eq A⦄ where
  pub distinct-snoc :
      (xs : List A) (y : A)
      → distinct xs ≡ true
      → contains y xs ≡ false
      → distinct (xs ++ (y ∷ [])) ≡ true
  distinct-snoc [] y d c = refl
  distinct-snoc (x ∷ xs) y d c =
      ground (arith, beq_sym x y, contains-append x xs (y ∷ []), distinct-snoc xs y)

module _ {ℓ} {A : Type ℓ} ⦃e : Eq A⦄ where
  pub Fresh-append : (xs seen ys : List A) → Fresh (xs ++ seen) ys → Fresh xs ys × Fresh seen ys
  Fresh-append xs seen [] f = (tt, tt)
  Fresh-append xs seen (y ∷ ys) f =
      let (left, right) = Fresh-append xs seen ys f.1 in
      let e = contains-append y xs seen in ((ground arith, left), (ground arith, right))

  pub append-Fresh : (seen xs ys : List A) → Fresh seen xs → Fresh seen ys → Fresh seen (xs ++ ys)
  append-Fresh seen [] ys f g = g
  append-Fresh seen (x ∷ xs) ys f g = (f.0, append-Fresh seen xs ys f.1 g)

  pub distinct-append :
      (xs ys : List A)
      → distinct xs ≡ true
      → distinct ys ≡ true
      → Fresh xs ys
      → distinct (xs ++ ys) ≡ true
  distinct-append [] ys d d' f = d'
  distinct-append (x ∷ xs) ys d d' f =
      let (f', n) = (Fresh-cons x xs ys).0 f in
      ground (arith, contains-append x xs ys, distinct-append xs ys (ground arith) d' f')

-- To be an element of a list.
pub data In {ℓ} {A : Type ℓ} (a : A) : List A → Type ℓ where
  at_head : (xs : List A) → In a (a ∷ xs)
  in_tail : (x : A) {xs : List A} → In a xs → In a (x ∷ xs)

pub All-map {ℓ κ μ} :
    {A : Type ℓ} (P : A → Type κ) (Q : A → Type μ) (xs : List A)
    → ((a : A) → P a → Q a)
    → All P xs
    → All Q xs
All-map P Q [] f h = tt
All-map P Q (x ∷ xs) f h = (f x h.0, All-map P Q xs f h.1)

pub map-append {ℓ κ} :
    {A : Type ℓ} {B : Type κ} (f : A → B) (xs ys : List A) → map f (xs ++ ys) ≡ map f xs ++ map f ys
map-append f [] ys = refl
map-append f (x ∷ xs) ys = ap (λ t. f x ∷ t) (map-append f xs ys)

module _ {ℓ} {A : Type ℓ} where
  pub append_nil : (xs : List A) → xs ++ [] ≡ xs
  append_nil [] = refl
  append_nil (x ∷ xs) = ap (λ t. x ∷ t) (append_nil xs)

  pub append_assoc : (xs ys zs : List A) → (xs ++ ys) ++ zs ≡ xs ++ (ys ++ zs)
  append_assoc [] ys zs = refl
  append_assoc (x ∷ xs) ys zs = ap (λ t. x ∷ t) (append_assoc xs ys zs)

  pub append_snoc : (xs : List A) (y : A) (zs : List A) → (xs ++ (y ∷ [])) ++ zs ≡ xs ++ (y ∷ zs)
  append_snoc xs y zs = append_assoc xs (y ∷ []) zs
