-- ===== src/Scheduler/Scan/Dependency.antt =====
-- When a scan of `scheduleGraph` saves a wakeup of dependencies.
use personal_cfo_os.Base.{◌≡◌, List, Has}
use personal_cfo_os.WorkQueue.Types.{dependency}
use personal_cfo_os.Stores.Types.{ready}
use personal_cfo_os.Stores.Approvals.{Approvals}
use personal_cfo_os.TaskSpec.{TaskSpec}
use personal_cfo_os.TaskGraph.{FollowUpTaskRecord}
use personal_cfo_os.Scheduler.{SchedulerWakeup}

-- Some wakeup of the list is one of dependencies.
abbrev pub AsksDependency : List SchedulerWakeup → Type 0
AsksDependency ws = (w : SchedulerWakeup) × Has w ws × (w.kind ≡ dependency)

-- Some record of the list is ready.
abbrev pub HasReady : List FollowUpTaskRecord → Type 0
HasReady rs = (r : FollowUpTaskRecord) × Has r rs × (r.status ≡ ready)
