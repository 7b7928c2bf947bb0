-- ===== src/Examples/Daemon.antt =====
-- The daemon's theorems at a concrete daemon.
use spellbook.Prelude.{
  ℕ, ◌≤◌, String, ◌≡◌, ◌↔◌, refl, none, some, Option, List, [], ◌∷◌, ◌++◌, true, false, arith,
  length, keep, number_IsKey, text_IsKey, contains,
}
use spellbook.Prelude.Dict.{get, get_or}
use spellbook.Daemon.Data.{
  Params, Daemon, Mark, LedgerRow, Reply, unknown_queue_id, contract_action,
}
use spellbook.Daemon.Handle.{handle, dispatch, auth, Role, request_spend}
use spellbook.Daemon.State.{spent_in, spent_last_24h}
use spellbook.Daemon.Legs.{merge_legs, velocity_entries, native_zero, native_sentinel}
use spellbook.Daemon.Fund.{
  rt_queue_approve, rt_queue_reject, run_fund_intent, run_execution, queue_it,
}
use spellbook.Daemon.Sound.{IsSound, handle-IsSound}
use spellbook.Daemon.Restart.{restart, restart_keeps}
use spellbook.Daemon.Access.{Gated, handle-Gated, request_token_only_queues}
use spellbook.Daemon.Once.{serve, approve_once, reject_final}
use spellbook.Daemon.Caps.{InCaps, dispatch-InCaps}
use spellbook.Daemon.Human.{IsHeld, always_queue-IsHeld, force_queue-queues}
use spellbook.Daemon.Legs.Totals.{IsMerged, sum_of, merge_legs_sums}
use spellbook.Daemon.Legs.Distinct.{AreDistinct, IsUnlike, velocity_entries-AreDistinct_iff}
use spellbook.Daemon.Unresolved.{unresolved_executions, resolved, run_execution-Resolves}
use spellbook.Daemon.SignWindow.{is_recent, run_window, window_cap}
use spellbook.Policy.Spec.{Keeps}
use spellbook.Examples.Sample.{daemon, world, held, forged, spend_three}

daemon-IsSound : IsSound daemon
daemon-IsSound = record {
  ids = (omega arith, refl, tt);
  saved = refl;
  counted = ((refl, refl, refl, omega arith), tt);
}

handle-IsSound_example : IsSound (handle world false forged daemon).0
handle-IsSound_example = handle-IsSound world false forged daemon daemon-IsSound

restart_keeps_example :
    ((restart 100000 daemon).queue ≡ daemon.queue)
    × ((restart 100000 daemon).next_qid ≡ daemon.next_qid)
    × ((t : ℕ) (chain asset : String)
        → 100000 ≤ t
        → (spent_last_24h t (restart 100000 daemon) chain asset
            ≡ spent_in t chain asset daemon.velocity_file)
          × (spent_last_24h t daemon chain asset
              ≤ spent_last_24h t (restart 100000 daemon) chain asset))
restart_keeps_example = restart_keeps 100000 daemon daemon-IsSound

handle-Gated_example : Gated world false forged daemon (handle world false forged daemon)
handle-Gated_example = handle-Gated world false forged daemon

forged_role : auth daemon forged.token ≡ some Role.request
unfolding auth
forged_role = refl

request_token_only_queues_example : get 1 (handle world false forged daemon).0.queue ≡ some held
request_token_only_queues_example =
    request_token_only_queues world false forged daemon daemon-IsSound forged_role 1 held refl

approve_once_example :
    let e =
      serve ((world, false, forged) ∷ []) (rt_queue_approve world (some 1) "human" daemon).0 in
    rt_queue_approve world (some 1) "human" e ≡ (e, Reply.error unknown_queue_id)
approve_once_example =
    approve_once world world 1 "human" "human" held daemon ((world, false, forged) ∷ [])
      daemon-IsSound refl

reject_final_example :
    let e = serve [] (rt_queue_reject world (some 1) "human" daemon).0 in
    rt_queue_approve world (some 1) "human" e ≡ (e, Reply.error unknown_queue_id)
reject_final_example = reject_final world world 1 "human" "human" held daemon [] daemon-IsSound refl

empty : Daemon
empty = record daemon { velocity = []; velocity_file = [] }

Keeps-zero : (o : Option ℕ) → Keeps 0 o
Keeps-zero none = tt
Keeps-zero (some n) = omega arith

empty-InCaps : InCaps 100000 empty
unfolding spent_last_24h empty
empty-InCaps chain asset = Keeps-zero _

dispatch-InCaps_example : InCaps 100000 (dispatch world (request_spend spend_three) "muse" empty).0
dispatch-InCaps_example =
    dispatch-InCaps world (request_spend spend_three) "muse" empty tt empty-InCaps

always_queue-IsHeld_example :
    IsHeld world held.params "muse" daemon
      (run_fund_intent world held.params "muse" [] false daemon)
unfolding run_fund_intent
always_queue-IsHeld_example = always_queue-IsHeld world held.params "muse" [] false daemon refl

force_queue-queues_example :
    run_fund_intent world (Params.dex_lp_remove "evm-1") "muse" [] true daemon
    ≡ queue_it world (Params.dex_lp_remove "evm-1") "muse" contract_action daemon
force_queue-queues_example =
    force_queue-queues world (Params.dex_lp_remove "evm-1") "muse" [] daemon

abbrev two_legs : List (String × ℕ)
two_legs = ("native", 3) ∷ ("ab", 2) ∷ ("native", 1) ∷ []

merge_legs_sums_example :
    IsMerged (merge_legs two_legs)
    × ((asset : String) → get_or asset 0 (merge_legs two_legs) ≡ sum_of asset two_legs)
merge_legs_sums_example = merge_legs_sums two_legs

merge_runs : merge_legs two_legs ≡ ("native", 4) ∷ ("ab", 2) ∷ []
unfolding merge_legs
merge_runs = refl

-- Two names of the native coin.
abbrev twice_native : Params
twice_native = Params.dex_lp_add "evm-1" native_zero 3 native_sentinel 4

velocity_entries-AreDistinct_iff_example :
    AreDistinct (velocity_entries twice_native) ↔ IsUnlike twice_native
velocity_entries-AreDistinct_iff_example = velocity_entries-AreDistinct_iff twice_native

-- A request that was carried out at 10 and is running again at 20.
abbrev carried_out : List LedgerRow
carried_out =
    record {
      ts = 10;
      requester_muse = "muse";
      canon_digest = "d";
      sighash = none;
      decision = Mark.executing;
    }
    ∷ record {
      ts = 11;
      requester_muse = "muse";
      canon_digest = "d";
      sighash = some "0x1";
      decision = Mark.approved;
    }
    ∷ []

abbrev again : LedgerRow
again = record {
  ts = 20;
  requester_muse = "muse";
  canon_digest = "d";
  sighash = none;
  decision = Mark.executing;
}

-- It is not shown.
hidden : unresolved_executions (carried_out ++ again ∷ []) ≡ []
unfolding unresolved_executions
hidden = refl

run_execution-Resolves_example :
    contains "digest" (
      resolved
        (run_execution world
          (Params.did_transfer "chia-mainnet" 5 ("abc" ∷ []))
          "muse"
          Mark.approved
          (λ r. none)
          daemon).0.ledger)
    ≡ true
unfolding velocity_entries
run_execution-Resolves_example =
    run_execution-Resolves world (Params.did_transfer "chia-mainnet" 5 ("abc" ∷ [])) "muse"
      (("chia-mainnet", "native", 5) ∷ ("chia-mainnet", "did:abc", 1) ∷ []) refl Mark.approved
      (λ r. none) daemon refl (λ e. cc)

window_cap_example :
    length (
      keep
        (is_recent 70)
        (run_window (record { per_minute = 2; stamps = [] }) [] (5 ∷ 6 ∷ 7 ∷ 66 ∷ [])).1)
    ≤ 2
window_cap_example = window_cap 2 70 (5 ∷ 6 ∷ 7 ∷ 66 ∷ []) (omega arith)
