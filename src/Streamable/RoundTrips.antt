-- ===== src/Streamable/RoundTrips.antt =====
-- What the encoders of Values write, its readers read back.
use mathlib.Core.Option.{some-injective}
use spellbook.Prelude.{
  All, All-every, ℕ, ◌^◌, ◌<◌, ◌≤◌, ◌≡◌, refl, subst, Bool, true, false, Option, none, some, List,
  [], ◌∷◌, ◌++◌, arith, ltb, ◌==◌, number_IsKey, length, if◌then◌else◌,
}
use spellbook.Streamable.Bytes.{
  Bytes, be, from_be, length-be, from_be-be, Parser, read, read-append, Encoded,
}
use spellbook.Streamable.Reads.{Reads, Reads-then, Reads-pure, Reads-require}
use spellbook.Streamable.Values.{
  enc_uint, dec_uint, enc_bool, bool_of, lift, dec_bool, enc_bytes_var, dec_bytes_var,
  enc_bytes_fixed, dec_bytes_fixed, enc_optional, dec_optional, join, repeat, enc_list, dec_list,
}

pub Reads-some :
    {A : Type 0} {m : Parser A} {v : A} (p : Bytes)
    → ((rest : Bytes) → m (p ++ rest) ≡ some (v, rest))
    → Reads (some p) m v
Reads-some {m = m} {v = v} p h = record {
  reads = λ b e rest. subst (λ b. m (b ++ rest) ≡ some (v, rest)) (some-injective p b e) (h rest);
}

pub read-Reads : (b : Bytes) (n : ℕ) → length b ≡ n → Reads (some b) (read n) b
read-Reads b n h = Reads-some b (λ rest. read-append n b rest h)

be-Reads : (w v : ℕ) → v < 256 ^ w → Reads (some (be w v)) (dec_uint w) v
unfolding dec_uint
be-Reads w v h =
    subst (Reads _ _) (from_be-be w v h)
      (Reads-pure from_be (read-Reads (be w v) w (length-be w v)))

pub Reads-none : {A : Type 0} {m : Parser A} {v : A} → Reads none m v
Reads-none = record { reads = λ b e rest. cc }

pub Reads-if :
    {A : Type 0} {x y : Encoded} {m : Parser A} {v : A} (t : Bool)
    → (t ≡ true → Reads x m v)
    → (t ≡ false → Reads y m v)
    → Reads (if t then x else y) m v
Reads-if true then_reads else_reads = then_reads refl
Reads-if false then_reads else_reads = else_reads refl

pub uint-Reads : (w v : ℕ) → Reads (enc_uint w v) (dec_uint w) v
unfolding enc_uint
uint-Reads w v = Reads-if (ltb v (256 ^ w)) (λ h. be-Reads w v (ground arith)) (λ h. Reads-none)

pub uint-length : (w v : ℕ) (b : Bytes) → enc_uint w v ≡ some b → length b ≡ w
unfolding enc_uint
uint-length w v b h = ground (arith, length-be w v)

pub bytes_fixed-Reads :
    (b : Bytes) (size : ℕ) → Reads (enc_bytes_fixed b size) (dec_bytes_fixed size) b
unfolding enc_bytes_fixed dec_bytes_fixed
bytes_fixed-Reads b size =
    Reads-if (length b == size) (λ h. read-Reads b size (ground arith)) (λ h. Reads-none)

pub bytes_var-Reads :
    (b : Bytes) (max_len : ℕ)
    → length b ≤ max_len
    → Reads (enc_bytes_var b) (dec_bytes_var max_len) b
unfolding enc_bytes_var dec_bytes_var
bytes_var-Reads b max_len h =
    Reads-then _ (uint-Reads 4 (length b))
      (Reads-require (ground arith) (read-Reads b (length b) refl))

pub bool-Reads : (v : Bool) → Reads (enc_bool v) dec_bool v
unfolding enc_bool dec_bool bool_of lift
bool-Reads true = Reads-then _ (read-Reads (1 ∷ []) 1 refl) (Reads-some [] (λ rest. refl))
bool-Reads false = Reads-then _ (read-Reads (0 ∷ []) 1 refl) (Reads-some [] (λ rest. refl))

pub optional-Reads :
    {A : Type 0} {m : Parser A} {enc_item : A → Encoded} (o : Option A)
    → ((v : A) → Reads (enc_item v) m v)
    → Reads (enc_optional o enc_item) (dec_optional m) o
unfolding enc_optional dec_optional enc_bool
optional-Reads none item = Reads-then _ (bool-Reads false) (Reads-some [] (λ rest. refl))
optional-Reads (some v) item = Reads-then _ (bool-Reads true) (Reads-pure some (item v))

pub join-Reads :
    {A : Type 0} (m : Parser A) (enc_item : A → Encoded) (vs : List A)
    → All (λ v. Reads (enc_item v) m v) vs
    → Reads (join enc_item vs) (repeat m (length vs)) vs
unfolding join repeat
join-Reads m enc_item [] items = Reads-some [] (λ rest. refl)
join-Reads m enc_item (v ∷ vs) items =
    Reads-then _ items.0 (Reads-pure (λ vs. v ∷ vs) (join-Reads m enc_item vs items.1))

pub list-Reads :
    {A : Type 0} {m : Parser A} {enc_item : A → Encoded} (vs : List A) (max_items : ℕ)
    → length vs ≤ max_items
    → ((v : A) → Reads (enc_item v) m v)
    → Reads (enc_list vs enc_item) (dec_list m max_items) vs
unfolding enc_list dec_list
list-Reads vs max_items h item =
    Reads-then _ (uint-Reads 4 (length vs))
      (Reads-require (ground arith) (join-Reads _ _ vs (All-every _ item vs)))
