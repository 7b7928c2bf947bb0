-- ===== src/Abi/Layout.antt =====
-- Where `_encode_sequence` of src/spellbook/abi.py puts its elements, and which values are read there.
use mathlib.Core.Option.{some-injective}
use spellbook.Prelude.{
  All, ℕ, suc, ◌+◌, ◌*◌, ◌≡◌, refl, sym, ap, subst, ◌∙◌, Bool, true, false, Option, some, List, [],
  ◌∷◌, ◌++◌, length, length-append, arith,
}
use spellbook.Prelude.Options.{◌>>=◌, bind-some}
use spellbook.Streamable.Bytes.{Bytes}
use spellbook.Abi.Values.{Value, Values, nil, cons, count}
use spellbook.Abi.Encode.{word, sequence_from, encode_sequence, encode_each}
use spellbook.Abi.Decode.Spans.{read_number}
use spellbook.Abi.Stands.{
  StandsAt, StandsAt-left, StandsAt-right, read_number-StandsAt, length-word,
}

-- The elements stand where the heads from a position on say, with `base` the start of the sequence.
abbrev pub Placed : Bytes → ℕ → ℕ → List (Bytes × Bool) → Type 0
Placed blob base at [] = Unit {0}
Placed blob base at ((e, true) ∷ ps) =
    (off : ℕ) × (read_number blob at ≡ some off)
    × StandsAt blob (base + off) e
    × Placed blob base (at + 32) ps
Placed blob base at ((e, false) ∷ ps) = StandsAt blob at e × Placed blob base (at + length e) ps

-- The head of a pair is one word.
abbrev pub IsOneWord : Bytes × Bool → Type 0
IsOneWord (e, dyn) = dyn ≡ false → length e ≡ 32

length-sequence_from :
    (off : ℕ) (ps : List (Bytes × Bool)) (s : Bytes × Bytes)
    → All IsOneWord ps
    → sequence_from off ps ≡ some s
    → length s.0 ≡ 32 * length ps
unfolding sequence_from
length-sequence_from off [] s one h = ap (λ s. length s.0) (sym (some-injective _ s h))
length-sequence_from off ((e, true) ∷ ps) s one h =
    let (w, off_w, more) = bind-some (word off) _ s h in
    let (r, ps_r, r_s) = bind-some (sequence_from (off + length e) ps) _ s more in
    ap (λ s. length s.0) (sym (some-injective _ s r_s))
    ∙ length-append w r.0
    ∙ omega (arith, length-word off w off_w, length-sequence_from (off + length e) ps r one.1 ps_r)
length-sequence_from off ((e, false) ∷ ps) s one h =
    let (r, ps_r, r_s) = bind-some (sequence_from off ps) _ s h in
    ap (λ s. length s.0) (sym (some-injective _ s r_s))
    ∙ length-append e r.0
    ∙ omega (arith, one.0 refl, length-sequence_from off ps r one.1 ps_r)

sequence_from-Placed :
    (blob : Bytes) (base at off : ℕ) (ps : List (Bytes × Bool)) (s : Bytes × Bytes)
    → sequence_from off ps ≡ some s
    → StandsAt blob at s.0
    → StandsAt blob (base + off) s.1
    → Placed blob base at ps
unfolding sequence_from
sequence_from-Placed blob base at off [] s h head tail = tt
sequence_from-Placed blob base at off ((e, true) ∷ ps) s h head tail =
    let (w, off_w, more) = bind-some (word off) _ s h in
    let (r, ps_r, r_s) = bind-some (sequence_from (off + length e) ps) _ s more in
    let s_eq = sym (some-injective (w ++ r.0, e ++ r.1) s r_s) in
    let heads = subst (λ s. StandsAt blob at s.0) s_eq head in
    let tails = subst (λ s. StandsAt blob (base + off) s.1) s_eq tail in
    (
      off,
      read_number-StandsAt blob at off w off_w (StandsAt-left blob at w r.0 heads),
      StandsAt-left blob (base + off) e r.1 tails,
      sequence_from-Placed blob base (at + 32) (off + length e) ps r ps_r
          (subst (λ n. StandsAt blob (at + n) r.0) (length-word off w off_w)
            (StandsAt-right blob at w r.0 heads))
          (subst (λ n. StandsAt blob n r.1) (omega arith)
            (StandsAt-right blob (base + off) e r.1 tails)),
    )
sequence_from-Placed blob base at off ((e, false) ∷ ps) s h head tail =
    let (r, ps_r, r_s) = bind-some (sequence_from off ps) _ s h in
    let s_eq = sym (some-injective (e ++ r.0, r.1) s r_s) in
    let heads = subst (λ s. StandsAt blob at s.0) s_eq head in
    (
      StandsAt-left blob at e r.0 heads,
      sequence_from-Placed blob base (at + length e) off ps r ps_r
          (StandsAt-right blob at e r.0 heads)
          (subst (λ s. StandsAt blob (base + off) s.1) s_eq tail),
    )

-- With heads of one word, every element of a sequence stands where its head says.
pub encode_sequence-Placed :
    (blob : Bytes) (base : ℕ) (ps : List (Bytes × Bool)) (b : Bytes)
    → All IsOneWord ps
    → encode_sequence ps ≡ some b
    → StandsAt blob base b
    → Placed blob base base ps
unfolding encode_sequence
encode_sequence-Placed blob base ps b one h stands =
    let (s, ps_s, s_b) = bind-some (sequence_from (32 * length ps) ps) _ b h in
    let whole = subst (StandsAt blob base) (sym (some-injective (s.0 ++ s.1) b s_b)) stands in
    sequence_from-Placed blob base base (32 * length ps) ps s ps_s
      (StandsAt-left blob base s.0 s.1 whole)
      (subst (λ n. StandsAt blob (base + n) s.1)
        (length-sequence_from (32 * length ps) ps s one ps_s)
        (StandsAt-right blob base s.0 s.1 whole))

-- Every encoded element is related to its value.
abbrev pub AllRead : (Bytes → Value → Type 0) → Bool → List (Bytes × Bool) → Values → Type 0
AllRead Q dyn [] nil = Unit {0}
AllRead Q dyn ((e, d) ∷ ps) (cons c cs) = (d ≡ dyn) × Q e c × AllRead Q dyn ps cs
AllRead Q dyn _ _ = ⊥

unfoldable pub canonical_each : (Value → Option Value) → Values → Option Values
canonical_each g nil = some nil
canonical_each g (cons v vs) = g v >>= λ c. canonical_each g vs >>= λ cs. some (cons c cs)

pub encode_each-AllRead :
    (Q : Bytes → Value → Type 0) (f : Value → Option Bytes) (g : Value → Option Value)
    → ((v : Value) (e : Bytes) (c : Value) → f v ≡ some e → g v ≡ some c → Q e c)
    → (dyn : Bool) (vs : Values) (ps : List (Bytes × Bool)) (cs : Values)
    → encode_each f dyn vs ≡ some ps
    → canonical_each g vs ≡ some cs
    → AllRead Q dyn ps cs × (length ps ≡ count vs)
unfolding encode_each canonical_each
encode_each-AllRead Q f g q dyn nil ps cs h k =
    subst (λ ps. AllRead Q dyn ps cs × (length ps ≡ 0)) (some-injective [] ps h)
      (subst (AllRead Q dyn []) (some-injective nil cs k) tt, refl)
encode_each-AllRead Q f g q dyn (cons v vs) ps cs h k =
    let (e, v_e, more) = bind-some (f v) _ ps h in
    let (rest, vs_rest, ps_eq) = bind-some (encode_each f dyn vs) _ ps more in
    let (c, v_c, others) = bind-some (g v) _ cs k in
    let (ds, vs_ds, cs_eq) = bind-some (canonical_each g vs) _ cs others in
    let (all, counted) = encode_each-AllRead Q f g q dyn vs rest ds vs_rest vs_ds in
    subst (λ ps. AllRead Q dyn ps cs × (length ps ≡ suc (count vs)))
      (some-injective ((e, dyn) ∷ rest) ps ps_eq)
      (
        subst (AllRead Q dyn ((e, dyn) ∷ rest)) (some-injective (cons c ds) cs cs_eq)
            (refl, q v e c v_e v_c, all),
        ap suc counted,
      )
