-- ===== src/Docpipe/Canonical/Checks.antt =====
-- When checks in a row, over a list or of identifiers succeed.
use mama_gift.Base.{
  All, Bool, Fresh, Fresh-cons, List, Result, String, [], arith, contains, distinct, err, false,
  guard, list_eq, nat_eq, not, ok, option_eq, refl, string_eq, true, ◌>>◌, ◌↔◌, ◌∷◌, ◌≡◌,
}
use mama_gift.Docpipe.Canonical.{CanonicalError, check_each, check_ids}

pub guard_iff {ℓ} : {E : Type ℓ} (b : Bool) (e : E) → (guard b e ≡ ok tt) ↔ (b ≡ true)
guard_iff true e = ground arith
guard_iff false e = ground arith

bind_iff {ℓ} :
    {E : Type ℓ} (m k : Result E (Unit {0})) → ((m >> k) ≡ ok tt) ↔ ((m ≡ ok tt) × (k ≡ ok tt))
bind_iff (err e) k = ground arith
bind_iff (ok tt) k = ground arith

and_iff {ℓ κ μ ν} :
    {A : Type ℓ} {B : Type κ} {C : Type μ} {D : Type ν} → A ↔ C → B ↔ D → (A × B) ↔ (C × D)
and_iff f g = (λ p. (f.0 p.0, g.0 p.1), λ p. (f.1 p.0, g.1 p.1))

pub iff_trans {ℓ κ μ} : {A : Type ℓ} {B : Type κ} {C : Type μ} → A ↔ B → B ↔ C → A ↔ C
iff_trans f g = (λ a. g.0 (f.0 a), λ c. f.1 (g.1 c))

-- two checks in a row
pub then_iff {ℓ κ μ} :
    {E : Type ℓ} {P : Type κ} {Q : Type μ} (m k : Result E (Unit {0}))
    → (m ≡ ok tt) ↔ P
    → (k ≡ ok tt) ↔ Q
    → ((m >> k) ≡ ok tt) ↔ (P × Q)
then_iff m k f g = iff_trans (bind_iff m k) (and_iff f g)

pub check_each_iff {ℓ κ μ} :
    {E : Type ℓ} {A : Type κ} (P : A → Type μ) (check : A → Result E (Unit {0})) (xs : List A)
    → ((a : A) → (check a ≡ ok tt) ↔ P a)
    → (check_each check xs ≡ ok tt) ↔ All P xs
unfolding check_each
check_each_iff P check [] f = (λ h. tt, λ h. refl)
check_each_iff P check (x ∷ xs) f =
    then_iff (check x) (check_each check xs) (f x) (check_each_iff P check xs f)

pub not_iff : (b : Bool) → (not b ≡ true) ↔ (b ≡ false)
not_iff true = ground arith
not_iff false = ground arith

pub check_ids_iff :
    (duplicate : String → CanonicalError) (seen ids : List String)
    → (check_ids duplicate seen ids ≡ ok tt) ↔ (Fresh seen ids × (distinct ids ≡ true))
unfolding check_ids
check_ids_iff duplicate seen [] = (λ h. (tt, refl), λ h. refl)
check_ids_iff duplicate seen (id ∷ ids) =
    let ih = check_ids_iff duplicate (id ∷ seen) ids in
    let step =
      then_iff (guard (not (contains id seen)) (duplicate id)) (check_ids duplicate (id ∷ seen) ids)
        (iff_trans (guard_iff _ _) (not_iff (contains id seen))) ih in
    let fresh = Fresh-cons id seen ids in
    (
      λ h. let (n, (f, d)) = step.0 h in let (f', c) = fresh.0 f in ((n, f'), ground arith),
      λ h. step.1 (h.0.0, (fresh.1 (h.0.1, ground arith), ground arith)),
    )
