-- ===== src/Relay/Server/Limit.antt =====
-- The relay serves at most sixty requests in sixty seconds.
use spellbook.Prelude.{
  subst, sym, ℕ, ◌+◌, ◌≤◌, ◌≡◌, refl, ap, ◌∙◌, inl, inr, true, false, Bool-cases, none, some, List,
  [], ◌∷◌, ◌++◌, All, length, keep, length-append, length-keep, length-keep_append, number_IsKey,
  bytes_IsKey, bytes_same_iff, leb, ltb, arith, if◌then◌else◌,
}
use spellbook.Prelude.Dict.{Dict, get, get_or, insert, get-insert}
use spellbook.Streamable.Utf8.{Text}
use spellbook.Relay.Server.{ServerConfig, Server}
use spellbook.Relay.Server.Cases.{by_gate}
use spellbook.Relay.Server.Gate.{
  Request, Gate, preflight, open_health, unauthorized, limited, admitted, partition, is_authorized,
  trim, admit, security,
}

-- The times of the requests that were admitted, in order.
abbrev pub time_if : Gate → ℕ → List ℕ → List ℕ
time_if admitted now ts = now ∷ ts
time_if _ now ts = ts

unfoldable pub admitted_times : ServerConfig → List (ℕ × Request) → Server → List ℕ
admitted_times cfg [] s = []
admitted_times cfg ((now, req) ∷ reqs) s =
    let r = security cfg now req s in time_if r.1 now (admitted_times cfg reqs r.0)

-- Within the sixty seconds up to `now`.
abbrev pub recent : ℕ → List ℕ → List ℕ
recent now ts = keep (λ t. ltb now (t + 60)) ts

abbrev bucket_of : ServerConfig → Server → List ℕ
bucket_of cfg s = get_or cfg.token [] s.rate_buckets

not_recent : (later now t : ℕ) → now ≤ later → leb (t + 60) now ≡ true → ltb later (t + 60) ≡ false
not_recent later now t le old = ground arith

recent-trim :
    (later now : ℕ) (ts : List ℕ) → now ≤ later → recent later (trim now ts) ≡ recent later ts
unfolding trim
recent-trim later now [] le = refl
recent-trim later now (t ∷ ts) le = elim (Bool-cases (leb (t + 60) now)) [
  | inl old ↦ rw (old, not_recent later now t le old) (recent-trim later now ts le)
  | inr new ↦ rw new refl
]

length-trim : (now : ℕ) (ts : List ℕ) → length (trim now ts) ≤ length ts
unfolding trim
length-trim now [] = omega arith
length-trim now (t ∷ ts) = ground (arith, length-trim now ts)

-- What a request makes of the bucket: nothing is counted that is not admitted.
abbrev Counts : ServerConfig → ℕ → ℕ → Server → Server × Gate → Type 0
Counts cfg later now s r =
    (length (bucket_of cfg r.0) ≤ 60)
    × (length (recent later (bucket_of cfg r.0))
        ≡ length (recent later (bucket_of cfg s)) + length (recent later (time_if r.1 now [])))

bucket-insert : (k : Text) (v : List ℕ) (d : Dict Text (List ℕ)) → get_or k [] (insert k v d) ≡ v
bucket-insert k v d =
    ap (λ o. elim o [ none ↦ [] | some w ↦ w ])
      (get-insert k k v d ∙ ap (λ t. if t then some v else get k d) ((bytes_same_iff k k).1 refl))

one_more : (ts : List ℕ) (now : ℕ) → leb 60 (length ts) ≡ false → length (ts ++ now ∷ []) ≤ 60
one_more ts now room = ground (arith, length-append ts (now ∷ []))

authorized_token :
    (cfg : ServerConfig) (auth : Text)
    → is_authorized cfg auth ≡ true
    → (partition auth).1 ≡ cfg.token
unfolding is_authorized
authorized_token cfg auth h = (bytes_same_iff (partition auth).1 cfg.token).0 (ground arith)

recent-time_if :
    (later : ℕ) (g : Gate) (now : ℕ) (ts : List ℕ)
    → length (recent later (time_if g now ts))
      ≡ length (recent later (time_if g now [])) + length (recent later ts)
recent-time_if later admitted now ts = ground arith
recent-time_if later _ now ts = omega arith

-- A bucket that stays within the limit and holds what is recent of another.
module _ (cfg : ServerConfig) (later now : ℕ) (s : Server) where
  kept-Counts :
      (ts : List ℕ) (g : Gate)
      → length ts ≤ 60
      → length (recent later ts)
        ≡ length (recent later (bucket_of cfg s)) + length (recent later (time_if g now []))
      → Counts cfg later now s (record s { rate_buckets = insert cfg.token ts s.rate_buckets }, g)
  kept-Counts ts g short same = rw (bucket-insert cfg.token ts s.rate_buckets) (short, same)

  admit-Counts :
      now ≤ later → length (bucket_of cfg s) ≤ 60 → Counts cfg later now s (admit now cfg.token s)
  unfolding admit
  admit-Counts le h =
      let bucket : List ℕ = trim now (bucket_of cfg s) in
      let shorter = length-trim now (bucket_of cfg s) in
      let same = ap length (recent-trim later now (bucket_of cfg s) le) in
      elim (Bool-cases (leb 60 (length bucket))) [
        | inl full ↦ rw full (kept-Counts bucket limited (omega arith) (omega arith))
        | inr room ↦ rw room (
            kept-Counts (bucket ++ now ∷ []) admitted (one_more bucket now room) (
              length-keep_append (λ t. ltb later (t + 60)) bucket (now ∷ [])
              ∙ ap (λ n. n + length (recent later (now ∷ []))) same))
      ]

  -- A request that leaves the bucket alone is not admitted.
  same-Counts :
      (g : Gate)
      → time_if g now [] ≡ []
      → length (bucket_of cfg s) ≤ 60
      → Counts cfg later now s (s, g)
  same-Counts g none_more h = (h, rw none_more (omega arith))

  security-Counts :
      (req : Request)
      → now ≤ later
      → length (bucket_of cfg s) ≤ 60
      → Counts cfg later now s (security cfg now req s)
  security-Counts req le h =
      by_gate (Counts cfg later now s) cfg now req s (same-Counts preflight refl h)
        (same-Counts open_health refl h) (same-Counts unauthorized refl h)
        (λ known.
          subst (λ k. Counts cfg later now s (admit now k s))
            (sym (authorized_token cfg req.authorization known)) (admit-Counts le h))

admitted_times-recent :
    (cfg : ServerConfig) (later : ℕ) (reqs : List (ℕ × Request)) (s : Server)
    → All (λ (e : ℕ × Request). e.0 ≤ later) reqs
    → length (bucket_of cfg s) ≤ 60
    → length (recent later (bucket_of cfg s)) + length (recent later (admitted_times cfg reqs s))
      ≤ 60
unfolding admitted_times
admitted_times-recent cfg later [] s past h =
    omega (arith, length-keep (λ t. ltb later (t + 60)) (bucket_of cfg s))
admitted_times-recent cfg later ((now, req) ∷ reqs) s past h =
    let (short, more) = security-Counts cfg later now s req past.0 h in
    let r = security cfg now req s in
    let rest = admitted_times-recent cfg later reqs r.0 past.1 short in
    omega (arith, rest, more, recent-time_if later r.1 now (admitted_times cfg reqs r.0))

-- Whatever requests come, and up to any time that none of them is later than, at most sixty of those
-- of the last sixty seconds have been let through to a handler behind the token.
pub admitted_times_bound :
    (cfg : ServerConfig) (later : ℕ) (reqs : List (ℕ × Request)) (s : Server)
    → s.rate_buckets ≡ []
    → All (λ (e : ℕ × Request). e.0 ≤ later) reqs
    → length (recent later (admitted_times cfg reqs s)) ≤ 60
admitted_times_bound cfg later reqs s fresh past =
    let empty : length (bucket_of cfg s) ≡ 0 = ap (λ d. length (get_or cfg.token [] d)) fresh in
    omega (arith, admitted_times-recent cfg later reqs s past (omega (arith, empty)))
