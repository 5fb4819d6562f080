-- ===== src/Http/Jobs.antt =====
-- The jobs of the handler in internal/httpapi/server.go. The mutex makes each function one step.
use cf_herdr_poc.Base.{Bool, true, false, not, ◌∷◌, if◌then◌else◌}
use cf_herdr_poc.Http.{Handler, Job}
use cf_herdr_poc.Http.Access.{Response, respond, api_error}

abbrev pub shutting_down : Response
shutting_down = respond 503 (api_error "shutting down")

module _ {W : Type 0} where
  unfoldable pub enqueue : Job → Handler W → Handler W × Bool
  enqueue job s = if s.closed then (s, false) else (record s { jobs = job ∷ s.jobs }, true)

  unfoldable pub accepting_jobs : Handler W → Bool
  accepting_jobs s = not s.closed

  -- `Close` up to the wait for the jobs.
  unfoldable pub close : Handler W → Handler W
  close s = record s { closed = true }

  -- The end of a handler that starts a job.
  unfoldable pub start_job : Job → Response → Handler W → Handler W × Response
  unfolding enqueue
  start_job job accepted s =
      let (t, started) = enqueue job s in if started then (t, accepted) else (t, shutting_down)
