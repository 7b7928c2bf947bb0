-- ===== src/Daemon/Legs/Distinct.antt =====
-- Every intent of src/spellbook/daemon.py has one entry for each chain and asset.
use spellbook.Prelude.{
  ℕ, suc, ap, ◌∙◌, ◌+◌, ◌*◌, String, ◌≡◌, ◌≢◌, ◌↔◌, refl, Bool, true, false, Option, none, some,
  List, [], ◌∷◌, ◌++◌, ◌==◌, number_IsKey, text_IsKey, arith, eq_iff, if◌then◌else◌, length,
  Bool-cases, Option-cases, inl, inr,
}
use spellbook.Prelude.Dict.{get_or}
use spellbook.Prelude.Text.{lower, text_length, is_hex64, after_prefix}
use spellbook.Daemon.Data.{
  Params, transfer, offer_make, offer_take, forge_swap, offer_cancel, message_sign, dex_swap,
  dex_lp_add, dex_lp_remove, dex_lp_claim, contract_deploy, contract_call, option_exercise,
  option_transfer, did_transfer, nft_assign_did, option_mint, bulk_send, multi_send, fee_only,
}
use spellbook.Daemon.Legs.Totals.{
  IsDistinct, names, merge_legs_sums, IsMerged-insert, IsMerged-merge_from, IsDistinct-on_chain,
}
use spellbook.Daemon.Legs.{
  Entry, Kind, add_leg, merge_from, merge_legs, on_chain, velocity_entries, dex_asset_key,
  chia_asset_kind, kind_key, asset_of, fee_leg, payment_pairs, leg_pairs, singletons, is_nft1,
  nft_kind, bulk_entries, native, cat, nft,
}

-- The two legs of a dex_lp_add have different keys; every other intent may be anything.
abbrev pub IsUnlike : Params → Type 0
IsUnlike (dex_lp_add chain token_a amount_a token_b amount_b) =
    dex_asset_key token_a ≢ dex_asset_key token_b
IsUnlike _ = Unit

merged-IsDistinct :
    (chain : String) (legs : List (String × ℕ)) → IsDistinct (on_chain chain (merge_legs legs))
merged-IsDistinct chain legs = IsDistinct-on_chain chain (merge_legs legs) (merge_legs_sums legs).0

pair-IsDistinct :
    (chain a b : String) (m n : ℕ) → a ≢ b → IsDistinct ((chain, a, m) ∷ (chain, b, n) ∷ [])
unfolding names
pair-IsDistinct chain a b m n h = ground (arith, eq_iff a b, eq_iff b a)

if-IsDistinct :
    (b : Bool) (xs ys : List Entry)
    → IsDistinct xs
    → IsDistinct ys
    → IsDistinct (if b then xs else ys)
if-IsDistinct true xs ys h k = h
if-IsDistinct false xs ys h k = k

-- The entries that policy and velocity are asked about, where they can be read.
abbrev pub AreDistinct : Option (List Entry) → Type 0
AreDistinct none = Unit
AreDistinct (some es) = IsDistinct es

one-IsDistinct : (e : Entry) → IsDistinct (e ∷ [])
unfolding names
one-IsDistinct (c, a, m) = (refl, tt)

-- An asset that is not native has another key.
text_length-lower : (s : String) → text_length (lower s) ≡ text_length s
unfolding text_length lower
text_length-lower String.[] = refl
text_length-lower (String.◌∷◌ c s) = ap suc (text_length-lower s)

hex64_ne_native : (s : String) → is_hex64 s ≡ true → text_length s ≡ 64
unfolding is_hex64
hex64_ne_native s h = ground arith

length_ne_native : (s : String) → text_length s ≡ 64 → s ≢ "native"
unfolding text_length
length_ne_native s h e = absurd (omega (arith, rw e at h))

nft1_ne_native :
    (s : String) → (o : Option String) → after_prefix "nft1" s ≡ o → o ≢ none → s ≢ "native"
unfolding after_prefix
nft1_ne_native s none p h e = h refl
nft1_ne_native s (some r) p h e = cc (rw e at p)

-- Native, or of a key that is not "native".
abbrev IsKeyed : Option Kind → Type 0
IsKeyed none = Unit
IsKeyed (some native) = Unit
IsKeyed (some k) = kind_key k ≢ "native"

nft-IsKeyed : (o : Option String) → IsKeyed (nft_kind o)
nft-IsKeyed none = tt
nft-IsKeyed (some ref) = elim (Bool-cases (is_hex64 ref)) [
  | inl e ↦ rw e (length_ne_native ref (hex64_ne_native ref e))
  | inr e ↦ rw e (elim (Option-cases (after_prefix "nft1" ref)) [
    | inl x ↦ rw (x, is_nft1) tt
    | inr (r, x) ↦ rw (x, is_nft1) (nft1_ne_native ref (some r) x (λ p. cc))
  ])
]

kind-IsKeyed : (asset : String) → IsKeyed (chia_asset_kind asset)
unfolding chia_asset_kind
kind-IsKeyed asset = elim (Bool-cases (asset == "native")) [
  | inl e ↦ rw e tt
  | inr e ↦ rw e (elim (Bool-cases (is_hex64 asset)) [
    | inl x ↦
        rw x (length_ne_native (lower asset) (text_length-lower asset ∙ hex64_ne_native asset x))
    | inr x ↦ rw x (nft-IsKeyed (after_prefix "nft:" asset))
  ])
]

bulk-AreDistinct :
    (chain : String) (total fee : ℕ) (o : Option Kind)
    → IsKeyed o
    → AreDistinct (bulk_entries chain total fee o)
bulk-AreDistinct chain total fee none h = tt
bulk-AreDistinct chain total fee (some native) h = one-IsDistinct (chain, "native", total + fee)
bulk-AreDistinct chain total fee (some (cat ref)) h = pair-IsDistinct chain ref "native" total fee h
bulk-AreDistinct chain total fee (some (nft ref)) h = pair-IsDistinct chain ref "native" total fee h

underlying-AreDistinct :
    (chain : String) (fee : ℕ) (a : String) (m : ℕ)
    → IsDistinct (
        if a == "native"
        then (chain, "native", fee + m) ∷ []
        else (chain, "native", fee) ∷ (chain, a, m) ∷ [])
underlying-AreDistinct chain fee a m = elim (Bool-cases (a == "native")) [
  | inl e ↦ rw e (one-IsDistinct (chain, "native", fee + m))
  | inr e ↦ rw e (pair-IsDistinct chain "native" a fee m (λ p. ground (arith, eq_iff a "native")))
]

-- An intent other than a dex_lp_add of like tokens has at most one entry for a chain and an asset.
pub velocity_entries-AreDistinct :
    (params : Params) → IsUnlike params → AreDistinct (velocity_entries params)
unfolding velocity_entries
velocity_entries-AreDistinct (transfer c none m x) h = one-IsDistinct (c, "native", m)
velocity_entries-AreDistinct (transfer c (some a) m x) h = one-IsDistinct (c, a, m)
velocity_entries-AreDistinct (offer_make c l f) h = merged-IsDistinct c (leg_pairs l ++ fee_leg f)
velocity_entries-AreDistinct (offer_take c l f) h = merged-IsDistinct c (leg_pairs l ++ fee_leg f)
velocity_entries-AreDistinct (forge_swap c l f) h = merged-IsDistinct c (leg_pairs l ++ fee_leg f)
velocity_entries-AreDistinct (offer_cancel c) h = tt
velocity_entries-AreDistinct (message_sign c) h = tt
velocity_entries-AreDistinct (dex_swap c t m) h = one-IsDistinct (c, dex_asset_key t, m)
velocity_entries-AreDistinct (dex_lp_add c a m b n) h =
    pair-IsDistinct c (dex_asset_key a) (dex_asset_key b) m n h
velocity_entries-AreDistinct (dex_lp_remove c) h = tt
velocity_entries-AreDistinct (dex_lp_claim c) h = tt
velocity_entries-AreDistinct (contract_deploy c) h = tt
velocity_entries-AreDistinct (contract_call c v) h =
    if-IsDistinct (v == 0) [] ((c, "native", v) ∷ []) tt (one-IsDistinct (c, "native", v))
velocity_entries-AreDistinct (option_exercise c f s i) h =
    merged-IsDistinct c (fee_leg f ++ (leg_pairs s ++ singletons "option:" i))
velocity_entries-AreDistinct (option_transfer c f i) h =
    merged-IsDistinct c (fee_leg f ++ singletons "option:" i)
velocity_entries-AreDistinct (did_transfer c f i) h =
    merged-IsDistinct c (fee_leg f ++ singletons "did:" i)
velocity_entries-AreDistinct (nft_assign_did c f i) h =
    merged-IsDistinct c (fee_leg f ++ singletons "nft:" i)
velocity_entries-AreDistinct (option_mint c f u) h =
    underlying-AreDistinct c f (asset_of u.asset_id) u.amount
velocity_entries-AreDistinct (bulk_send c a x m f) h =
    bulk-AreDistinct c (length x * m) f (chia_asset_kind a) (kind-IsKeyed a)
velocity_entries-AreDistinct (multi_send c p f) h =
    let totals = merge_from [] (payment_pairs p) in
    IsDistinct-on_chain c (add_leg totals ("native", f)) (
      IsMerged-insert "native" (get_or "native" 0 totals + f) totals
        (IsMerged-merge_from [] (payment_pairs p) tt))
velocity_entries-AreDistinct (fee_only i c f) h = one-IsDistinct (c, "native", f)

pair-unlike :
    (chain a b : String) (m n : ℕ) → IsDistinct ((chain, a, m) ∷ (chain, b, n) ∷ []) → a ≢ b
unfolding names
pair-unlike chain a b m n h e = ground (arith, eq_iff chain chain, eq_iff a b, eq_iff b a)

AreDistinct-IsUnlike : (params : Params) → AreDistinct (velocity_entries params) → IsUnlike params
unfolding velocity_entries
AreDistinct-IsUnlike (dex_lp_add c a m b n) h =
    pair-unlike c (dex_asset_key a) (dex_asset_key b) m n h
AreDistinct-IsUnlike (transfer c a m x) h = tt
AreDistinct-IsUnlike (offer_make c l f) h = tt
AreDistinct-IsUnlike (offer_take c l f) h = tt
AreDistinct-IsUnlike (forge_swap c l f) h = tt
AreDistinct-IsUnlike (offer_cancel c) h = tt
AreDistinct-IsUnlike (message_sign c) h = tt
AreDistinct-IsUnlike (dex_swap c t m) h = tt
AreDistinct-IsUnlike (dex_lp_remove c) h = tt
AreDistinct-IsUnlike (dex_lp_claim c) h = tt
AreDistinct-IsUnlike (contract_deploy c) h = tt
AreDistinct-IsUnlike (contract_call c v) h = tt
AreDistinct-IsUnlike (option_exercise c f s i) h = tt
AreDistinct-IsUnlike (option_transfer c f i) h = tt
AreDistinct-IsUnlike (did_transfer c f i) h = tt
AreDistinct-IsUnlike (nft_assign_did c f i) h = tt
AreDistinct-IsUnlike (option_mint c f u) h = tt
AreDistinct-IsUnlike (bulk_send c a x m f) h = tt
AreDistinct-IsUnlike (multi_send c p f) h = tt
AreDistinct-IsUnlike (fee_only i c f) h = tt

-- The entries of an intent, where they can be read, name each chain and asset at most once, exactly if
-- the intent is not a dex_lp_add whose two tokens have the same key.
pub velocity_entries-AreDistinct_iff :
    (params : Params) → AreDistinct (velocity_entries params) ↔ IsUnlike params
velocity_entries-AreDistinct_iff params =
    (AreDistinct-IsUnlike params, velocity_entries-AreDistinct params)
