-- ===== src/Wait/Tests.antt =====
-- The wait queues at concrete processes.
use spike_os.Prelude.{◌≡◌, refl, [], ◌∷◌}
use spike_os.Wait.{States, ready, running, blocked, wake_up_all}

abbrev procs : States
procs = running ∷ blocked ∷ running ∷ blocked ∷ []

wake_up_all_runs : wake_up_all (3 ∷ 1 ∷ []) procs ≡ (2, [], running ∷ ready ∷ running ∷ ready ∷ [])
unfolding wake_up_all
wake_up_all_runs = refl
