-- ===== src/Dex/V4Swap/Sale.antt =====
-- What the input of a V4_SWAP has to be for dex.py: its actions with the parameters of each.
use spellbook.Prelude.{
  ℕ, ◌≡◌, ◌≢◌, ◌⊎◌, true, some, List, [], ◌∷◌, ltb, length, take, drop, number_IsKey, bytes_IsKey,
  if◌then◌else◌,
}
use spellbook.Prelude.Codes.{lower_text}
use spellbook.Streamable.Bytes.{Bytes}
use spellbook.Streamable.Utf8.{Text}
use spellbook.Dex.Tokens.{is_native_token, same_token}
use spellbook.Dex.Words.{enc_bytes, enc_bytes_array, dynamic, head_tail}
use spellbook.Dex.Calls.{bytes_of}
use spellbook.Dex.Settler.{Bounds}
use spellbook.Dex.Layout.{word_at, word_addr, word_bool, Trade, v4_exact_in_single}
use spellbook.Dex.Layout.Paths.{v4_exact_in}
use spellbook.Dex.V4Swap.{ur_msg_sender, total_in, total_out, V4Swap}

-- A swap, single or along a path, of the token sold into the one bought, of a stated amount.
pub record IsSwap (bounds : Bounds) (a : ℕ) (p : Bytes) (t : Trade) : Type 0 where
  pub read : ((a ≡ 6) × (v4_exact_in_single p ≡ some t)) ⊎ ((a ≡ 7) × (v4_exact_in p ≡ some t))
  pub sells : same_token t.token_in bounds.sell_token ≡ true
  pub buys : same_token t.token_out bounds.buy_token ≡ true
  pub stated : t.amount_in ≢ 0

abbrev pub AreSwaps : Bounds → Bytes → List Bytes → List Trade → Type 0
AreSwaps bounds [] [] [] = Unit {0}
AreSwaps bounds (a ∷ actions) (p ∷ params) (t ∷ trades) =
    IsSwap bounds a p t × AreSwaps bounds actions params trades
AreSwaps bounds _ _ _ = ⊥

-- A SETTLE_ALL, or a SETTLE of all that is owed or all that the swaps take, and of a token from the
-- wallet.
abbrev pub SettleKind : Bounds → ℕ → ℕ → Bytes → Type 0
SettleKind bounds sold a p =
    ((a ≡ 12) × (length p ≡ 64))
    ⊎ ((a ≡ 11)
        × (length p ≡ 96)
        × ((word_at p 32 ≡ some 0) ⊎ (word_at p 32 ≡ some sold))
        × ((is_native_token bounds.sell_token ≡ true) ⊎ (word_bool p 64 ≡ some true)))

-- The token sold is settled.
pub record IsSettle (bounds : Bounds) (sold a : ℕ) (p : Bytes) : Type 0 where
  pub cur : Text
  pub currency : word_addr p 0 ≡ some cur
  pub sells : same_token cur bounds.sell_token ≡ true
  pub kind :
      ((a ≡ 12) × (length p ≡ 64))
      ⊎ ((a ≡ 11)
          × (length p ≡ 96)
          × ((word_at p 32 ≡ some 0) ⊎ (word_at p 32 ≡ some sold))
          × ((is_native_token bounds.sell_token ≡ true) ⊎ (word_bool p 64 ≡ some true)))

-- A TAKE of all that is due, to the sender or the wallet; or a TAKE_ALL, which pays the sender and has
-- its own minimum: the least that is paid is the larger of that and the swaps'.
abbrev pub TakeKind : Bounds → ℕ → ℕ → ℕ → Bytes → Type 0
TakeKind bounds out least a p =
    ((a ≡ 14)
      × (length p ≡ 96)
      × (least ≡ out)
      × (word_at p 64 ≡ some 0)
      × ((word_addr p 32 ≡ some ur_msg_sender)
          ⊎ (word_addr p 32 ≡ some (lower_text bounds.wallet))))
    ⊎ ((a ≡ 15)
        × (length p ≡ 64)
        × ((amt : ℕ) × (word_at p 32 ≡ some amt) × (least ≡ (if ltb out amt then amt else out))))

-- The token bought is taken.
pub record IsTake (bounds : Bounds) (out least a : ℕ) (p : Bytes) : Type 0 where
  pub cur : Text
  pub currency : word_addr p 0 ≡ some cur
  pub buys : same_token cur bounds.buy_token ≡ true
  pub kind : TakeKind bounds out least a p

-- One of each, in either order.
abbrev pub IsEnding : Bounds → ℕ → ℕ → ℕ → Bytes → List Bytes → Type 0
IsEnding bounds sold out least (a ∷ b ∷ []) (p ∷ q ∷ []) =
    (IsSettle bounds sold a p × IsTake bounds out least b q)
    ⊎ (IsTake bounds out least a p × IsSettle bounds sold b q)
IsEnding bounds sold out least _ _ = ⊥

-- The input is the canonical encoding of exact-input swaps of the token sold into the one bought, then
-- one settle and one take; the sums of the swaps, and what the take makes of them, are the result's.
pub record IsV4Sale (bounds : Bounds) (inp : Text) (s : V4Swap) : Type 0 where
  pub actions : Bytes
  pub params : List Bytes
  pub head : Bytes
  pub tail : Bytes
  pub input : Bytes
  pub encodes : (enc_bytes actions ≡ some head) × (enc_bytes_array params ≡ some tail)
  pub bytes : bytes_of inp ≡ some input
  pub canonical : head_tail (dynamic ∷ dynamic ∷ []) (head ∷ tail ∷ []) ≡ some input
  pub count : ℕ
  pub trades : List Trade
  pub swaps : AreSwaps bounds (take count actions) (take count params) trades
  pub sold : s.amount_in ≡ total_in trades
  pub ending :
      IsEnding bounds
        (total_in trades)
        (total_out trades)
        s.min_out
        (drop count actions)
        (drop count params)
