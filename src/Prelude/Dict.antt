-- ===== src/Prelude/Dict.antt =====
-- A Python dict as an association list in insertion order.
use spellbook.Prelude.Tests.{IsKey, Bool-cases, ◌==◌, if◌then◌else◌}
use spellbook.Prelude.Lists.{keep}
use native.Mathlib.Omega.{arith}
use mathlib.Core.Path.{◌≡◌, refl, sym, subst}
use mathlib.Core.Logic.{inl, inr}
use mathlib.Core.Option.{some-injective}
use mathlib.Core.Bool.{Bool, true, false}
use mathlib.Core.Option.{Option, none, some}
use mathlib.Core.List.{List, [], ◌∷◌}

abbrev pub Dict {ℓ κ} : Type ℓ → Type κ → Type (ℓ ⊔ κ)
Dict K V = List (K × V)

module _ {ℓ κ} {K : Type ℓ} {V : Type κ} ⦃e : IsKey K⦄ where
  -- `d.get(k)`
  abbrev pub get : K → Dict K V → Option V
  get k [] = none
  get k ((j, v) ∷ d) = if k == j then some v else get k d

  -- `k in d`
  abbrev pub has : K → Dict K V → Bool
  has k d = elim (get k d) [ none ↦ false | some _ ↦ true ]

  -- `d.get(k, v)`
  abbrev pub get_or : K → V → Dict K V → V
  get_or k v d = elim (get k d) [ none ↦ v | some w ↦ w ]

  -- `d[k] = v`
  abbrev pub insert : K → V → Dict K V → Dict K V
  insert k v [] = (k, v) ∷ []
  insert k v (p ∷ d) = if k == p.0 then (k, v) ∷ d else p ∷ insert k v d

  -- `d.pop(k)`
  abbrev pub erase : K → Dict K V → Dict K V
  erase k [] = []
  erase k (p ∷ d) = if k == p.0 then d else p ∷ erase k d

module _ {ℓ κ} {K : Type ℓ} {V : Type κ} ⦃e : IsKey K⦄ where
  pub get-insert :
      (j k : K) (v : V) (d : Dict K V) → get j (insert k v d) ≡ (if j == k then some v else get j d)
  get-insert j k v [] = refl
  get-insert j k v ((i, w) ∷ d) =
      ground (arith, e.same_iff j k, e.same_iff k i, e.same_iff j i, get-insert j k v d)

  -- An entry that passes the test is kept.
  pub get-keep :
      (p : K × V → Bool) (k : K) (v : V) (d : Dict K V)
      → get k d ≡ some v
      → p (k, v) ≡ true
      → get k (keep p d) ≡ some v
  get-keep p k v [] h t = cc
  get-keep p k v ((j, w) ∷ d) h t = elim (Bool-cases (k == j)) [
    | inl same ↦
        let name : k ≡ j = (e.same_iff k j).0 same in
        let value : some w ≡ some v = ground arith in
        let kept : p (j, w) ≡ true =
          subst (λ i. p (i, w) ≡ true) name
            (subst (λ x. p (k, x) ≡ true) (sym (some-injective w v value)) t) in
        ground arith
    | inr other ↦
        let found : get k d ≡ some v = ground arith in ground (arith, get-keep p k v d found t)
  ]

  pub get-erase_other : (j k : K) (d : Dict K V) → (j == k) ≡ false → get j (erase k d) ≡ get j d
  get-erase_other j k [] h = refl
  get-erase_other j k ((i, w) ∷ d) h =
      ground (arith, e.same_iff j k, e.same_iff k i, e.same_iff j i, get-erase_other j k d)
