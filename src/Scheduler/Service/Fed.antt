-- ===== src/Scheduler/Service/Fed.antt =====
-- A connector that feeds the runner is a dispatch that the scheduler can rely on.
use recru_flow.Base.{inl, inr, Bool, if◌then◌else◌}
use recru_flow.Db.{Source}
use recru_flow.Ingestion.Persist.{Host}
use recru_flow.Ingestion.Runner.{Feed, Params, run_paginated_ingestion}
use recru_flow.Ingestion.Runner.Confined.{run_paginated_ingestion-runs}
use recru_flow.Ingestion.Lifecycle.{Dispatch}
use recru_flow.Scheduler.Service.Finished.{KeepsRuns}

module _ {C W : Type 0} (host : Host) (feed : Feed C W) (params : Source → Bool → Params)
    (initial_cursor : C) where
  -- The run of a connector in the session that it is given, without a commit of its own.
  unfoldable pub fed_dispatch : Dispatch W
  unfolding run_paginated_ingestion
  fed_dispatch source force_refresh (s, world) =
      let (result, p) =
        run_paginated_ingestion host feed (params source force_refresh) initial_cursor s.live
          world in
      (if p.raised then inr "TypeError" else inl result, (record s { live = p.db }, p.world))

  pub fed_dispatch-KeepsRuns : KeepsRuns host.clock fed_dispatch
  unfolding fed_dispatch
  fed_dispatch-KeepsRuns source force_refresh (s, world) =
      run_paginated_ingestion-runs host feed (params source force_refresh) initial_cursor s.live
        world
