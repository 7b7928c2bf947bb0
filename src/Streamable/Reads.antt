-- ===== src/Streamable/Reads.antt =====
-- The proof rules for a reader of relay/streamable.py that reads back what an encoder wrote, one for
-- each way in which the encoders and readers are composed.
use mathlib.Core.List.{append_assoc, append-nil}
use spellbook.Prelude.{◌≡◌, refl, sym, ap, ◌∙◌, Bool, true, none, some, [], ◌++◌}
use spellbook.Streamable.Bytes.{
  Bytes, Parser, ◌>>=◌, ◌>>◌, pure, require, finish, Encoded, ◌<>◌, <>-eq-some,
}

-- Where `x` encodes, the reader reads `v` from the front of its bytes and leaves what follows.
pub record Reads {A : Type 0} (x : Encoded) (m : Parser A) (v : A) : Type 0 where
  pub reads : (b : Bytes) → x ≡ some b → (rest : Bytes) → m (b ++ rest) ≡ some (v, rest)

pub bind-some :
    {A B : Type 0} (m : Parser A) (k : A → Parser B) (v : A) (s s' : Bytes)
    → m s ≡ some (v, s')
    → (m >>= k) s ≡ k v s'
unfolding ◌>>=◌
bind-some m k v s s' h = ap (λ r. elim r [ none ↦ none | some (a, t) ↦ k a t ]) h

pub Reads-then :
    {A B : Type 0} {x y : Encoded} {m : Parser A} {v : A} {w : B} (k : A → Parser B)
    → Reads x m v
    → Reads y (k v) w
    → Reads (x <> y) (m >>= k) w
Reads-then {x = x} {y = y} {m = m} {v = v} k first next = record {
  reads = λ b h rest.
      let (p, q, x_p, y_q, b_eq) = <>-eq-some x y b h in
      ap (λ c. (m >>= k) (c ++ rest)) b_eq
      ∙ ap (m >>= k) (append_assoc p q rest)
      ∙ bind-some m k v (p ++ (q ++ rest)) (q ++ rest) (first.reads p x_p (q ++ rest))
      ∙ next.reads q y_q rest;
}

pub Reads-pure :
    {A B : Type 0} {x : Encoded} {m : Parser A} {v : A} (f : A → B)
    → Reads x m v
    → Reads x (m >>= λ a. pure (f a)) (f v)
Reads-pure {m = m} {v = v} f first = record {
  reads = λ b h rest. bind-some m (λ a. pure (f a)) v (b ++ rest) rest (first.reads b h rest);
}

-- The value is checked after it is read.
pub Reads-check :
    {A B : Type 0} {x : Encoded} {m : Parser A} {v : A} {w : B} (k : A → Parser B)
    → Reads x m v
    → ((rest : Bytes) → k v rest ≡ some (w, rest))
    → Reads x (m >>= k) w
Reads-check {m = m} {v = v} k first check = record {
  reads = λ b h rest. bind-some m k v (b ++ rest) rest (first.reads b h rest) ∙ check rest;
}

pub Reads-require :
    {A : Type 0} {x : Encoded} {m : Parser A} {v : A} {t : Bool}
    → t ≡ true
    → Reads x m v
    → Reads x (require t >> m) v
Reads-require {m = m} t_true first = record {
  reads = λ b h rest.
      bind-some (require _) (λ _. m) tt (b ++ rest) (b ++ rest) (rw t_true refl)
      ∙ first.reads b h rest;
}

-- A reader of a whole frame accepts the encoding of a value.
pub finish-eq-some :
    {A : Type 0} {x : Encoded} {m : Parser A} {v : A} (b : Bytes)
    → Reads x m v
    → x ≡ some b
    → finish (m b) ≡ some v
finish-eq-some {m = m} {v = v} b first h =
    ap (λ s. finish (m s)) (sym (append-nil b)) ∙ ap finish (first.reads b h [])
