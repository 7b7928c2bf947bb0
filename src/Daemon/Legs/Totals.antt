-- ===== src/Daemon/Legs/Totals.antt =====
-- `_merge_legs` and `_velocity_entries` of src/spellbook/daemon.py: the sum of each asset, once.
use spellbook.Prelude.{
  ℕ, ◌+◌, String, ◌≡◌, refl, Bool, true, false, ◌&&◌, none, some, List, [], ◌∷◌, ◌==◌, number_IsKey,
  text_IsKey, arith, eq_iff, if◌then◌else◌,
}
use spellbook.Prelude.Dict.{get, get_or, insert}
use spellbook.Daemon.Legs.{Totals, Entry, add_leg, merge_from, merge_legs, on_chain}

-- What the legs of one asset come to.
unfoldable pub sum_of : String → List (String × ℕ) → ℕ
sum_of asset [] = 0
sum_of asset ((a, m) ∷ legs) = (if asset == a then m else 0) + sum_of asset legs

-- No asset is listed twice.
abbrev pub IsMerged : List (String × ℕ) → Type 0
IsMerged [] = Unit
IsMerged ((a, m) ∷ legs) = (get a legs ≡ none) × IsMerged legs

get-insert :
    (j k : String) (v : ℕ) (t : Totals)
    → get j (insert k v t) ≡ (if j == k then some v else get j t)
get-insert j k v [] = refl
get-insert j k v ((i, w) ∷ t) =
    ground (arith, eq_iff j k, eq_iff k i, eq_iff j i, get-insert j k v t)

get_or-add_leg :
    (asset a : String) (m : ℕ) (t : Totals)
    → get_or asset 0 (add_leg t (a, m)) ≡ get_or asset 0 t + (if asset == a then m else 0)
get_or-add_leg asset a m t = ground (arith, get-insert asset a (get_or a 0 t + m) t, eq_iff asset a)

get_or-merge_from :
    (asset : String) (t : Totals) (legs : List (String × ℕ))
    → get_or asset 0 (merge_from t legs) ≡ get_or asset 0 t + sum_of asset legs
unfolding merge_from sum_of
get_or-merge_from asset t [] = omega arith
get_or-merge_from asset t ((a, m) ∷ legs) =
    omega (arith, get_or-merge_from asset (add_leg t (a, m)) legs, get_or-add_leg asset a m t)

pub IsMerged-insert : (k : String) (v : ℕ) (t : Totals) → IsMerged t → IsMerged (insert k v t)
IsMerged-insert k v [] h = (refl, tt)
IsMerged-insert k v ((j, w) ∷ t) h =
    ground (arith, eq_iff k j, eq_iff j k, IsMerged-insert k v t h.1, get-insert j k v t)

pub IsMerged-merge_from :
    (t : Totals) (legs : List (String × ℕ)) → IsMerged t → IsMerged (merge_from t legs)
unfolding merge_from
IsMerged-merge_from t [] h = h
IsMerged-merge_from t ((a, m) ∷ legs) h =
    IsMerged-merge_from (add_leg t (a, m)) legs (IsMerged-insert a _ t h)

-- The merged legs list each asset once, and each with the sum of all its legs: nothing is counted
-- twice, and no split leg is lost.
pub merge_legs_sums :
    (legs : List (String × ℕ))
    → IsMerged (merge_legs legs)
      × ((asset : String) → get_or asset 0 (merge_legs legs) ≡ sum_of asset legs)
unfolding merge_legs
merge_legs_sums legs =
    (IsMerged-merge_from [] legs tt, λ asset. omega (arith, get_or-merge_from asset [] legs))

-- Whether an entry is of this chain and asset.
abbrev pub is_of : String → String → Entry → Bool
is_of chain asset (c, a, m) = c == chain && a == asset

unfoldable pub names : String → String → List Entry → Bool
names chain asset [] = false
names chain asset (e ∷ es) = if is_of chain asset e then true else names chain asset es

-- What the entries of one chain and asset come to.
unfoldable pub total_for : String → String → List Entry → ℕ
total_for chain asset [] = 0
total_for chain asset (e ∷ es) = (if is_of chain asset e then e.2 else 0) + total_for chain asset es

-- No chain and asset has two entries.
abbrev pub IsDistinct : List Entry → Type 0
IsDistinct [] = Unit
IsDistinct ((c, a, m) ∷ es) = (names c a es ≡ false) × IsDistinct es

pub total_for-absent :
    (chain asset : String) (es : List Entry)
    → names chain asset es ≡ false
    → total_for chain asset es ≡ 0
unfolding names total_for
total_for-absent chain asset [] h = refl
total_for-absent chain asset (e ∷ es) h = ground (arith, total_for-absent chain asset es)

names-on_chain :
    (chain a : String) (legs : List (String × ℕ))
    → get a legs ≡ none
    → names chain a (on_chain chain legs) ≡ false
unfolding names
names-on_chain chain a [] h = refl
names-on_chain chain a ((b, m) ∷ legs) h =
    ground (arith, names-on_chain chain a legs, eq_iff a b, eq_iff b a)

pub IsDistinct-on_chain :
    (chain : String) (legs : List (String × ℕ)) → IsMerged legs → IsDistinct (on_chain chain legs)
IsDistinct-on_chain chain [] h = tt
IsDistinct-on_chain chain ((a, m) ∷ legs) h =
    (names-on_chain chain a legs h.0, IsDistinct-on_chain chain legs h.1)
