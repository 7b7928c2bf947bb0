-- ===== src/Relay/Server/Cases.antt =====
-- The branches of a handler and of the gate of relay/server.py.
use spellbook.Prelude.{
  ℕ, ◌≡◌, refl, Bool, true, false, Option, none, some, Bool-cases, inl, inr, if◌then◌else◌,
}
use spellbook.Relay.Server.{ServerConfig, Server, Decision}
use spellbook.Relay.Server.Gate.{
  Request, Gate, preflight, open_health, unauthorized, partition, is_authorized, is_health, admit,
  security,
}

-- Every branch of a decision has the property.
module _ {A : Type 0} (P : Decision → Type 0) where
  pub by_option :
      (o : Option A) {d : Decision} {f : A → Decision}
      → P d
      → ((a : A) → o ≡ some a → P (f a))
      → P (elim o [ none ↦ d | some a ↦ f a ])
  by_option none d f = d
  by_option (some a) d f = f a refl

pub by_test :
    (P : Decision → Type 0) (t : Bool) {d e : Decision}
    → (t ≡ true → P d)
    → (t ≡ false → P e)
    → P (if t then d else e)
by_test P true d e = d refl
by_test P false d e = e refl

-- The four ways through the gate.
pub by_gate :
    (P : Server × Gate → Type 0) (cfg : ServerConfig) (now : ℕ) (req : Request) (s : Server)
    → P (s, preflight)
    → P (s, open_health)
    → P (s, unauthorized)
    → (is_authorized cfg req.authorization ≡ true → P (admit now (partition req.authorization).1 s))
    → P (security cfg now req s)
unfolding security
by_gate P cfg now req s a b c d = elim (Bool-cases req.is_options) [
  | inl options ↦ rw options a
  | inr other ↦ rw other (elim (Bool-cases (is_health req.route)) [
    | inl probe ↦ rw probe b
    | inr closed ↦ rw closed (elim (Bool-cases (is_authorized cfg req.authorization)) [
      | inl known ↦ rw known (d known)
      | inr refused ↦ rw refused c
    ])
  ])
]
