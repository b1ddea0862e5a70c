-- ===== src/Sync/Startup/Runs.antt =====
-- `run_sync` of src/modules/peer_network/sync/services/startup_sync.service.ts: one run at a time,
-- and a request that comes during a run is remembered.
use open_chat_be.Prelude.{
  Bool, arith, false, if◌then◌else◌, nat_eq, not, refl, string_eq, suc, true, zero, ℕ, ◌+◌, ◌-◌,
  ◌≡◌, ◌≤◌,
}

-- The two flags, and the number of executions of `execute_sync` that are under way.
pub record RunState : Type 0 where
  pub is_sync_running : Bool
  pub queued_run_requested : Bool
  pub executing : ℕ

-- A call of `run_sync`, and whether it starts an execution; it does nothing where the
-- synchronization is switched off.
unfoldable pub run_sync : Bool → RunState → RunState × Bool
run_sync sync_enabled s =
    if not sync_enabled
    then (s, false)
    else if s.is_sync_running
    then (record s { queued_run_requested = true }, false)
    else (record s { is_sync_running = true; executing = s.executing + 1 }, true)

-- The end of an execution: the loop goes on if a run was requested, and an exception leaves it.
unfoldable pub execution_ended : Bool → RunState → RunState × Bool
execution_ended true s =
    if s.queued_run_requested
    then (record s { queued_run_requested = false }, true)
    else (record s { is_sync_running = false; executing = s.executing - 1 }, false)
execution_ended false s = (record s { is_sync_running = false; executing = s.executing - 1 }, false)

abbrev pub no_run : RunState
no_run = record { is_sync_running = false; queued_run_requested = false; executing = 0 }

pub data RunStep (sync_enabled : Bool) : RunState → RunState → Type 0 where
  requested : (s : RunState) → RunStep sync_enabled s (run_sync sync_enabled s).0
  ended :
      (success : Bool) (s : RunState)
      → 1 ≤ s.executing
      → RunStep sync_enabled s (execution_ended success s).0

pub data Runs (sync_enabled : Bool) : RunState → Type 0 where
  idle : Runs sync_enabled no_run
  later : {s t : RunState} → Runs sync_enabled s → RunStep sync_enabled s t → Runs sync_enabled t

module _ (sync_enabled : Bool) where
  IsSingle : RunState → Type 0
  IsSingle s =
      (s.executing ≡ (if s.is_sync_running then 1 else 0))
      × (s.is_sync_running ≡ true → sync_enabled ≡ true)

  RunStep-IsSingle : {s t : RunState} → RunStep sync_enabled s t → IsSingle s → IsSingle t
  unfolding IsSingle run_sync execution_ended
  RunStep-IsSingle (requested s) (h, on) = (ground (arith, h, on), λ r. ground (arith, on, r))
  RunStep-IsSingle (ended true s busy) (h, on) = (ground (arith, h), λ r. ground (arith, on, r, h))
  RunStep-IsSingle (ended false s busy) (h, on) = (ground (arith, h), λ r. ground (arith, r))

  Runs-IsSingle : {s : RunState} → Runs sync_enabled s → IsSingle s
  unfolding IsSingle
  Runs-IsSingle idle = (refl, λ h. cc h)
  Runs-IsSingle (later r step) = RunStep-IsSingle step (Runs-IsSingle r)

  -- Calls of `run_sync`, one after another.
  abbrev pub calls : ℕ → RunState → RunState
  calls zero s = s
  calls (suc n) s = (run_sync sync_enabled (calls n s)).0

  calls-running :
      (n : ℕ) (s : RunState)
      → sync_enabled ≡ true
      → s.is_sync_running ≡ true
      → ((calls n s).is_sync_running ≡ true)
        × ((calls (suc n) s).queued_run_requested ≡ true)
        × ((calls n s).executing ≡ s.executing)
  unfolding run_sync
  calls-running zero s on h = (h, ground (arith, on, h), refl)
  calls-running (suc n) s on h =
      let (running, queued, same) = calls-running n s on h in
      (ground (arith, on, running), ground (arith, on, running), ground (arith, on, running, same))

  -- In every state that calls of `run_sync` and ends of executions lead to, at most one execution is
  -- under way. Calls during it start none, however many they are, and exactly one follows it if it
  -- succeeds.
  pub run_sync-followed :
      (s : RunState) (n : ℕ)
      → Runs sync_enabled s
      → (s.executing ≤ 1)
        × (s.is_sync_running ≡ true
            → ((calls (suc n) s).executing ≡ 1)
              × ((execution_ended true (calls (suc n) s)).1 ≡ true)
              × ((execution_ended true (execution_ended true (calls (suc n) s)).0).1 ≡ false))
  unfolding execution_ended
  run_sync-followed s n r =
      let (one, on) : (s.executing ≡ (if s.is_sync_running then 1 else 0))
          × (s.is_sync_running ≡ true → sync_enabled ≡ true) =
        unfold IsSingle in Runs-IsSingle r in
      (
        ground (arith, one),
        λ running.
            let (_, queued, _) = calls-running n s (on running) running in
            let (_, _, same) = calls-running (suc n) s (on running) running in
            (ground (arith, one, same, running), ground (arith, queued), ground (arith, queued)),
      )
