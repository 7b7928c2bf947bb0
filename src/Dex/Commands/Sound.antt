-- ===== src/Dex/Commands/Sound.antt =====
-- What the input of each command that dex.py accepts of the Universal Router says.
use spellbook.Prelude.{
  ℕ, ◌≡◌, ◌⊎◌, refl, sym, subst, arith, length, ap, ◌∙◌, inl, inr, none, some, List, [], ◌∷◌, ◌==◌,
  number_IsKey, nat_beq_iff, if◌then◌else◌, Bool-cases,
}
use spellbook.Prelude.Options.{◌>>=◌, bind-some, some-carry, if_true, if_false}
use spellbook.Prelude.Codes.{codes, lower_text}
use spellbook.Streamable.Bytes.{Bytes}
use spellbook.Streamable.Utf8.{Text}
use spellbook.Abi.Values.{pos, number, flag, str, items, Values, nil, cons}
use spellbook.Dex.Calls.{abi_decode, texts_of, address_type, bytes_type, uint256_type}
use spellbook.Dex.Settler.{Bounds}
use spellbook.Dex.V4Swap.{decode_ur_v4_swap}
use spellbook.Dex.V4Swap.Sale.{IsV4Sale}
use spellbook.Dex.V4Swap.Sound.{decode_ur_v4_swap-IsV4Sale}
use spellbook.Dex.Commands.{
  Swap, Command, wrap_eth, unwrap_weth, swap, v4_swap, sweep, v3_path_tokens, v2_path_tokens,
  pair_of, v3_swap_of, v2_swap_of, sweep_of, read_command, read_commands,
}

-- The input of V3_SWAP_EXACT_IN.
pub record V3Input (inp : Text) (s : Swap) : Type 0 where
  pub path : Text
  pub decoded :
      abi_decode (address_type ∷ uint256_type ∷ uint256_type ∷ bytes_type ∷ codes "bool" ∷ []) inp
      ≡ some (
          cons (str s.recipient) (
            cons
              (number (pos s.amount_in))
              (cons (number (pos s.min_out)) (cons (str path) (cons (flag s.payer_user) nil)))))
  pub ends : v3_path_tokens path ≡ some (s.token_in, s.token_out)

-- The input of V2_SWAP_EXACT_IN.
pub record V2Input (inp : Text) (s : Swap) : Type 0 where
  pub path : Values
  pub tokens : List Text
  pub decoded :
      abi_decode
        (address_type ∷ uint256_type ∷ uint256_type ∷ codes "address[]" ∷ codes "bool" ∷ [])
        inp
      ≡ some (
          cons (str s.recipient) (
            cons
              (number (pos s.amount_in))
              (cons (number (pos s.min_out)) (cons (items path) (cons (flag s.payer_user) nil)))))
  pub texts : texts_of path ≡ some tokens
  pub ends : v2_path_tokens tokens ≡ some (s.token_in, s.token_out)

-- The command that a number and its input stand for.
abbrev pub Says : Bounds → ℕ → Text → Command → Type 0
Says bounds cmd inp (wrap_eth rcpt amt) =
    (cmd ≡ 11)
    × (abi_decode (address_type ∷ uint256_type ∷ []) inp
        ≡ some (cons (str rcpt) (cons (number (pos amt)) nil)))
Says bounds cmd inp (unwrap_weth rcpt amt) =
    (cmd ≡ 12)
    × (abi_decode (address_type ∷ uint256_type ∷ []) inp
        ≡ some (cons (str rcpt) (cons (number (pos amt)) nil)))
Says bounds cmd inp (swap s) = ((cmd ≡ 0) × V3Input inp s) ⊎ ((cmd ≡ 8) × V2Input inp s)
Says bounds cmd inp (v4_swap s) = (cmd ≡ 16) × IsV4Sale bounds inp s
Says bounds cmd inp (sweep tok rcpt amt) =
    (cmd ≡ 4)
    × (abi_decode (address_type ∷ address_type ∷ uint256_type ∷ []) inp
        ≡ some (cons (str tok) (cons (str rcpt) (cons (number (pos amt)) nil))))

-- Each number with its input, in turn.
abbrev pub AllSay : Bounds → Bytes → List Text → List Command → Type 0
AllSay bounds [] [] [] = Unit {0}
AllSay bounds (cmd ∷ commands) (inp ∷ inputs) (c ∷ cs) =
    Says bounds cmd inp c × AllSay bounds commands inputs cs
AllSay bounds _ _ _ = ⊥

none-some : (c : Command) → none ≡ some c → ⊥
none-some c h = cc

pair_of-some :
    (vs : Values) (rcpt : Text) (amt : ℕ)
    → pair_of vs ≡ some (rcpt, amt)
    → vs ≡ cons (str rcpt) (cons (number (pos amt)) nil)
pair_of-some (cons (str r) (cons (number (pos a)) nil)) rcpt amt h = cc
pair_of-some _ rcpt amt h = cc

v3_swap_of-V3Input :
    (inp : Text) (vs : Values) (s : Swap)
    → abi_decode (address_type ∷ uint256_type ∷ uint256_type ∷ bytes_type ∷ codes "bool" ∷ []) inp
      ≡ some vs
    → v3_swap_of vs ≡ some s
    → V3Input inp s
unfolding v3_swap_of
v3_swap_of-V3Input inp
      (cons
        (str r)
        (cons (number (pos a)) (cons (number (pos m)) (cons (str path) (cons (flag p) nil)))))
      s decoded ok =
    let ((t_in, t_out), ends, ok) = bind-some (v3_path_tokens path) _ s ok in
    some-carry (V3Input inp) ok record { path = path; decoded = decoded; ends = ends }
v3_swap_of-V3Input inp _ s decoded ok = cc

v2_swap_of-V2Input :
    (inp : Text) (vs : Values) (s : Swap)
    → abi_decode
        (address_type ∷ uint256_type ∷ uint256_type ∷ codes "address[]" ∷ codes "bool" ∷ [])
        inp
      ≡ some vs
    → v2_swap_of vs ≡ some s
    → V2Input inp s
unfolding v2_swap_of
v2_swap_of-V2Input inp
      (cons
        (str r)
        (cons (number (pos a)) (cons (number (pos m)) (cons (items path) (cons (flag p) nil)))))
      s decoded ok =
    let (tokens, texts, ok) = bind-some (texts_of path) _ s ok in
    let ((t_in, t_out), ends, ok) = bind-some (v2_path_tokens tokens) _ s ok in
    some-carry (V2Input inp) ok
      record { path = path; tokens = tokens; decoded = decoded; texts = texts; ends = ends }
v2_swap_of-V2Input inp _ s decoded ok = cc

Says-same :
    (bounds : Bounds) (cmd : ℕ) (inp : Text) (d c : Command)
    → some d ≡ some c
    → Says bounds cmd inp d
    → Says bounds cmd inp c
Says-same bounds cmd inp d c e h = some-carry (Says bounds cmd inp) e h

sweep_of-Says :
    (bounds : Bounds) (inp : Text) (vs : Values) (c : Command)
    → abi_decode (address_type ∷ address_type ∷ uint256_type ∷ []) inp ≡ some vs
    → sweep_of vs ≡ some c
    → Says bounds 4 inp c
sweep_of-Says bounds inp (cons (str t) (cons (str r) (cons (number (pos a)) nil))) c decoded ok =
    some-carry (Says bounds 4 inp) ok (refl, decoded)
sweep_of-Says bounds inp _ c decoded ok = cc

late_command-Says :
    (bounds : Bounds) (cmd : ℕ) (inp : Text) (c : Command)
    → (if cmd == 16
        then (do s ← decode_ur_v4_swap inp (lower_text bounds.wallet) bounds; some (v4_swap s))
        else if cmd == 4
        then (abi_decode (address_type ∷ address_type ∷ uint256_type ∷ []) inp >>= sweep_of)
        else if cmd == 12
        then (do
          vs ← abi_decode (address_type ∷ uint256_type ∷ []) inp
          (rcpt, amt) ← pair_of vs
          some (unwrap_weth rcpt amt))
        else none)
      ≡ some c
    → Says bounds cmd inp c
late_command-Says bounds cmd inp c ok = elim (Bool-cases (cmd == 16)) [
  | inl e ↦
      let ok = if_true _ _ _ (some c) e ok in
      let (s, d, ok) = bind-some (decode_ur_v4_swap inp (lower_text bounds.wallet) bounds) _ c ok in
      Says-same bounds cmd inp (v4_swap s) c ok
        ((nat_beq_iff cmd 16).0 e, decode_ur_v4_swap-IsV4Sale inp bounds s d)
  | inr e ↦
      let ok = if_false _ _ _ (some c) e ok in
      elim (Bool-cases (cmd == 4)) [
        | inl e ↦
            let ok = if_true _ _ _ (some c) e ok in
            let (vs, d, ok) =
              bind-some (abi_decode (address_type ∷ address_type ∷ uint256_type ∷ []) inp) _ c ok in
            subst (λ (n : ℕ). Says bounds n inp c) (sym ((nat_beq_iff cmd 4).0 e))
              (sweep_of-Says bounds inp vs c d ok)
        | inr e ↦
            let ok = if_false _ _ _ (some c) e ok in
            elim (Bool-cases (cmd == 12)) [
              | inl e ↦
                  let ok = if_true _ _ _ (some c) e ok in
                  let (vs, d, ok) =
                    bind-some (abi_decode (address_type ∷ uint256_type ∷ []) inp) _ c ok in
                  let ((rcpt, amt), p, ok) = bind-some (pair_of vs) _ c ok in
                  Says-same bounds cmd inp (unwrap_weth rcpt amt) c ok
                    ((nat_beq_iff cmd 12).0 e, d ∙ ap some (pair_of-some vs rcpt amt p))
              | inr e ↦ absurd (none-some c (if_false _ _ _ (some c) e ok))
            ]
      ]
]

read_command-Says :
    (bounds : Bounds) (cmd : ℕ) (inp : Text) (c : Command)
    → read_command bounds cmd inp ≡ some c
    → Says bounds cmd inp c
unfolding read_command
read_command-Says bounds cmd inp c ok = elim (Bool-cases (cmd == 11)) [
  | inl e ↦
      let ok = if_true _ _ _ (some c) e ok in
      let (vs, d, ok) = bind-some (abi_decode (address_type ∷ uint256_type ∷ []) inp) _ c ok in
      let ((rcpt, amt), p, ok) = bind-some (pair_of vs) _ c ok in
      Says-same bounds cmd inp (wrap_eth rcpt amt) c ok
        ((nat_beq_iff cmd 11).0 e, d ∙ ap some (pair_of-some vs rcpt amt p))
  | inr e ↦
      let ok = if_false _ _ _ (some c) e ok in
      elim (Bool-cases (cmd == 0)) [
        | inl e ↦
            let ok = if_true _ _ _ (some c) e ok in
            let (vs, d, ok) =
              bind-some
                (abi_decode
                  (address_type ∷ uint256_type ∷ uint256_type ∷ bytes_type ∷ codes "bool" ∷ []) inp)
                _ c ok in
            let (s, p, ok) = bind-some (v3_swap_of vs) _ c ok in
            Says-same bounds cmd inp (swap s) c ok
              (inl ((nat_beq_iff cmd 0).0 e, v3_swap_of-V3Input inp vs s d p))
        | inr e ↦
            let ok = if_false _ _ _ (some c) e ok in
            elim (Bool-cases (cmd == 8)) [
              | inl e ↦
                  let ok = if_true _ _ _ (some c) e ok in
                  let (vs, d, ok) =
                    bind-some
                      (abi_decode
                        (address_type
                          ∷ uint256_type
                          ∷ uint256_type
                          ∷ codes "address[]"
                          ∷ codes "bool"
                          ∷ [])
                        inp)
                      _ c ok in
                  let (s, p, ok) = bind-some (v2_swap_of vs) _ c ok in
                  Says-same bounds cmd inp (swap s) c ok
                    (inr ((nat_beq_iff cmd 8).0 e, v2_swap_of-V2Input inp vs s d p))
              | inr e ↦ late_command-Says bounds cmd inp c (if_false _ _ _ (some c) e ok)
            ]
      ]
]

-- An accepted list of commands is what the inputs say.
pub read_commands-AllSay :
    (bounds : Bounds) (commands : Bytes) (inputs : List Text) (cs : List Command)
    → length commands ≡ length inputs
    → read_commands bounds commands inputs ≡ some cs
    → AllSay bounds commands inputs cs
unfolding read_commands
read_commands-AllSay bounds [] [] cs same ok = some-carry (AllSay bounds [] []) ok tt
read_commands-AllSay bounds [] (inp ∷ inputs) cs same ok = absurd (omega arith)
read_commands-AllSay bounds (cmd ∷ commands) [] cs same ok = absurd (omega arith)
read_commands-AllSay bounds (cmd ∷ commands) (inp ∷ inputs) cs same ok =
    let (c, here, ok) = bind-some (read_command bounds cmd inp) _ cs ok in
    let (rest, there, ok) = bind-some (read_commands bounds commands inputs) _ cs ok in
    some-carry (AllSay bounds (cmd ∷ commands) (inp ∷ inputs)) ok (
      read_command-Says bounds cmd inp c here,
      read_commands-AllSay bounds commands inputs rest (omega arith) there,
    )
