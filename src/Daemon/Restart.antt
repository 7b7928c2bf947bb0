-- ===== src/Daemon/Restart.antt =====
-- What a restart of src/spellbook/daemon.py keeps: the queue and the sums of the velocity window.
use spellbook.Prelude.{
  ℕ, ◌≤◌, String, ◌≡◌, refl, ap, ◌∙◌, List, [], ◌∷◌, arith, Bool-cases, inl, inr, keep, length,
  number_IsKey, text_IsKey, ◌==◌,
}
use spellbook.Prelude.Dict.{Dict}
use spellbook.Daemon.Data.{Daemon, VelocityRow, Item}
use spellbook.Daemon.State.{
  in_window, spent_in, spent_last_24h, prune_velocity, load_velocity, load_queue,
}
use spellbook.Daemon.Sound.{IsSound, IsFiled, stored_queue}

-- The state part of `Daemon.__init__`.
unfoldable pub restart : ℕ → Daemon → Daemon
unfolding load_queue load_velocity
restart now d = load_velocity now (load_queue d)

-- A row that is dropped at `now` counts at no later time.
spent_in-keep :
    (now t : ℕ) (chain asset : String) (rows : List VelocityRow)
    → now ≤ t
    → spent_in t chain asset (keep (in_window now) rows) ≡ spent_in t chain asset rows
unfolding spent_in
spent_in-keep now t chain asset [] h = refl
spent_in-keep now t chain asset (r ∷ rows) h =
    ground (arith, spent_in-keep now t chain asset rows h)

spent-prune :
    (now t : ℕ) (chain asset : String) (d : Daemon)
    → now ≤ t
    → spent_last_24h t (prune_velocity now d) chain asset ≡ spent_last_24h t d chain asset
unfolding spent_last_24h prune_velocity
spent-prune now t chain asset d h =
    elim (Bool-cases (length (keep (in_window now) d.velocity) == length d.velocity)) [
      | inl e ↦ rw e refl
      | inr e ↦ rw e (spent_in-keep now t chain asset d.velocity h)
    ]

load_queue_lem :
    (d : Daemon)
    → ((load_queue d).next_qid ≡ (stored_queue d.queue_file).0)
      × ((load_queue d).queue ≡ (stored_queue d.queue_file).1)
      × ((load_queue d).velocity_file ≡ d.velocity_file)
unfolding load_queue
load_queue_lem d = ground arith

prune_queue :
    (now : ℕ) (d : Daemon)
    → ((prune_velocity now d).queue ≡ d.queue) × ((prune_velocity now d).next_qid ≡ d.next_qid)
unfolding prune_velocity
prune_queue now d = ground arith

-- A line that is stamped no earlier than its row counts at least as long.
spent-IsFiled :
    (t : ℕ) (chain asset : String) (rows lines : List VelocityRow)
    → IsFiled rows lines
    → spent_in t chain asset rows ≤ spent_in t chain asset lines
unfolding spent_in
spent-IsFiled t chain asset [] lines h = omega arith
spent-IsFiled t chain asset (r ∷ rows) [] h = absurd h
spent-IsFiled t chain asset (r ∷ rows) (l ∷ lines) h =
    let (c, a, m, s) = h.0 in
    rw (c, a, m) (ground (arith, spent-IsFiled t chain asset rows lines h.1))

-- A daemon in a sound state that stops and starts again at `now` has the same queue and the same next
-- id, and at every time from `now` on its 24-hour sums are those of the velocity file's lines, which
-- are no less than the sums would have been without the restart.
pub restart_keeps :
    (now : ℕ) (d : Daemon)
    → IsSound d
    → ((restart now d).queue ≡ d.queue)
      × ((restart now d).next_qid ≡ d.next_qid)
      × ((t : ℕ) (chain asset : String)
          → now ≤ t
          → (spent_last_24h t (restart now d) chain asset ≡ spent_in t chain asset d.velocity_file)
            × (spent_last_24h t d chain asset ≤ spent_last_24h t (restart now d) chain asset))
unfolding restart load_velocity
restart_keeps now d s =
    let e : Daemon = record (load_queue d) { velocity = (load_queue d).velocity_file } in
    let (n, q, v) = load_queue_lem d in
    let (pq, pn) = prune_queue now e in
    (
      pq ∙ (q ∙ ap (λ (p : ℕ × Dict ℕ Item). p.1) s.saved),
      pn ∙ (n ∙ ap (λ (p : ℕ × Dict ℕ Item). p.0) s.saved),
      λ t chain asset h.
          let sums : spent_last_24h t (restart now d) chain asset
              ≡ spent_in t chain asset d.velocity_file =
            spent-prune now t chain asset e h
            ∙ unfold spent_last_24h in ap (spent_in t chain asset) v in
          let least : spent_last_24h t d chain asset ≤ spent_in t chain asset d.velocity_file =
            unfold spent_last_24h in
            spent-IsFiled t chain asset d.velocity d.velocity_file s.counted in
          (sums, rw sums least),
    )
