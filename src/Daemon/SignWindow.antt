-- ===== src/Daemon/SignWindow.antt =====
-- `DashboardSignWindow` of src/spellbook/daemon.py: a sliding cap of one minute on the signatures of
-- dashboard challenges. The clock counts in units of which a minute has sixty.
use spellbook.Prelude.{
  ℕ, suc, ◌+◌, ◌≤◌, ◌≡◌, refl, sym, ap, ◌∙◌, Bool, true, false, Option, none, some, List, [], ◌∷◌,
  ◌++◌, arith, ltb, leb, keep, length, length-append, length-keep, Bool-cases, inl, inr,
  if◌then◌else◌,
}
use spellbook.Daemon.Data.{Value}

pub record SignWindow : Type 0 where
  pub per_minute : ℕ
  pub stamps : List ℕ

-- `__init__`: `none` is the ValueError, and a bool is refused.
unfoldable pub new_window : Value → Option SignWindow
new_window (Value.int (suc n)) = some (record { per_minute = suc n; stamps = [] })
new_window _ = none

-- `now - t < 60.0`
abbrev pub is_recent : ℕ → ℕ → Bool
is_recent now t = ltb now (t + 60)

unfoldable pub allow : ℕ → SignWindow → SignWindow × Bool
allow now w =
    let recent = keep (is_recent now) w.stamps in
    if leb w.per_minute (length recent)
    then (record w { stamps = recent }, false)
    else (record w { stamps = recent ++ now ∷ [] }, true)

-- The times at which a series of calls was allowed, after those in `granted`.
unfoldable pub run_window : SignWindow → List ℕ → List ℕ → SignWindow × List ℕ
unfolding allow
run_window w granted [] = (w, granted)
run_window w granted (t ∷ ts) =
    let x = allow t w in run_window x.0 (if x.1 then granted ++ t ∷ [] else granted) ts

-- The calls come at times from `now` on, none before the one ahead of it, and the last by `stop`.
abbrev pub IsOrdered : ℕ → List ℕ → ℕ → Type 0
IsOrdered now [] stop = now ≤ stop
IsOrdered now (t ∷ ts) stop = (now ≤ t) × IsOrdered t ts stop

keep-append : (p : ℕ → Bool) (xs ys : List ℕ) → keep p (xs ++ ys) ≡ keep p xs ++ keep p ys
keep-append p [] ys = refl
keep-append p (x ∷ xs) ys = ground (arith, keep-append p xs ys)

keep-recent :
    (now t : ℕ) (xs : List ℕ)
    → now ≤ t
    → keep (is_recent t) (keep (is_recent now) xs) ≡ keep (is_recent t) xs
keep-recent now t [] h = refl
keep-recent now t (x ∷ xs) h = ground (arith, keep-recent now t xs h)

-- From `now` on the stamps count as all that was granted does, and there are no more than the cap.
record Counts (now : ℕ) (w : SignWindow) (granted : List ℕ) : Type 0 where
  fits : length w.stamps ≤ w.per_minute
  same : (t : ℕ) → now ≤ t → keep (is_recent t) w.stamps ≡ keep (is_recent t) granted

allow-Counts :
    (now t : ℕ) (w : SignWindow) (granted : List ℕ)
    → now ≤ t
    → Counts now w granted
    → Counts t (allow t w).0 (if (allow t w).1 then granted ++ t ∷ [] else granted)
unfolding allow
allow-Counts now t w granted h c =
    elim (Bool-cases (leb w.per_minute (length (keep (is_recent t) w.stamps)))) [
      | inl e ↦ rw e (record {
        fits = omega (arith, length-keep (is_recent t) w.stamps, c.fits);
        same = λ u hu. keep-recent t u w.stamps hu ∙ c.same u (omega arith);
      })
      | inr e ↦ rw e (record {
        fits = ground (arith, length-append (keep (is_recent t) w.stamps) (t ∷ []));
        same = λ u hu.
            keep-append (is_recent u) (keep (is_recent t) w.stamps) (t ∷ [])
            ∙ (ap (λ (l : List ℕ). l ++ keep (is_recent u) (t ∷ []))
                  (keep-recent t u w.stamps hu ∙ c.same u (omega arith))
                ∙ sym (keep-append (is_recent u) granted (t ∷ [])));
      })
    ]

per_minute-allow : (t : ℕ) (w : SignWindow) → (allow t w).0.per_minute ≡ w.per_minute
unfolding allow
per_minute-allow t w = ground arith

run_window-Counts :
    (now stop : ℕ) (w : SignWindow) (granted ts : List ℕ)
    → IsOrdered now ts stop
    → Counts now w granted
    → let x = run_window w granted ts in (length (keep (is_recent stop) x.1) ≤ w.per_minute)
unfolding run_window
run_window-Counts now stop w granted [] o c =
    rw (← c.same stop o) (omega (arith, length-keep (is_recent stop) w.stamps, c.fits))
run_window-Counts now stop w granted (t ∷ ts) o c =
    let next = if (allow t w).1 then granted ++ t ∷ [] else granted in
    omega (
      arith,
      per_minute-allow t w,
      run_window-Counts t stop (allow t w).0 next ts o.1 (allow-Counts now t w granted o.0 c),
    )

-- However the calls come, as long as the clock does not run back, the calls allowed in the minute up
-- to any time at or after the last call are no more than `per_minute`.
pub window_cap :
    (per_minute stop : ℕ) (ts : List ℕ)
    → IsOrdered 0 ts stop
    → let w : SignWindow = record { per_minute = per_minute; stamps = [] } in
      length (keep (is_recent stop) (run_window w [] ts).1) ≤ per_minute
window_cap per_minute stop ts o =
    run_window-Counts 0 stop (record { per_minute = per_minute; stamps = [] }) [] ts o
      (record { fits = omega arith; same = λ t h. refl })
