-- ===== src/Live/Runtime/Failures.antt =====
-- A run of one item on every path, the failing ones included.
use ronro.Prelude.{◌≡◌, List, [], ◌++◌}
use ronro.Errors.{Code, err}
use ronro.Domain.{Utterance}
use ronro.Domain.Schema.{Formats}
use ronro.Replay.Log.{IsReplayed}
use ronro.Live.Runtime.{Runtime, Action, Analyst, Gaps, Processed, acts}
use ronro.Live.Runtime.Actions.{Extends}

module _ (formats : Formats) where
  -- How far a run may come before it fails, as the actions of other threads until then: to the read of
  -- its Utterance, to the correction, to the first or the second analysis, or to the end after either.
  pub data IsUntil (gaps : Gaps) : List Action → Type 0 where
    reading : IsUntil gaps []
    interpreting : IsUntil gaps gaps.interpreting
    analyzing : IsUntil gaps gaps.analyzing
    committing : IsUntil gaps (gaps.analyzing ++ gaps.committing)
    reanalyzing : IsUntil gaps ((gaps.analyzing ++ gaps.rereading) ++ gaps.reanalyzing)
    recommitting :
        IsUntil gaps (((gaps.analyzing ++ gaps.rereading) ++ gaps.reanalyzing) ++ gaps.committing)

  -- The Runtime after a run: the result is a later one, and after an error it is the Runtime that the
  -- actions of the other threads up to that place leave by themselves.
  pub record IsClean (gaps : Gaps) (rt : Runtime) (p : Processed) : Type 0 where
    pub extends : Extends formats rt.result p.runtime.result
    pub untouched :
        (c : Code)
        → p.outcome ≡ err c
        → (during : List Action) × IsUntil gaps during × (p.runtime ≡ acts formats rt during)

  module _ (rt : Runtime) (inv : IsReplayed formats rt.result) (gaps : Gaps) where
    abbrev so_far : List Action → Runtime
    so_far done = acts formats rt done

    module _ (analyst : Analyst) (u : Utterance) where
      abbrev again_done : List Action
      again_done = (gaps.analyzing ++ gaps.rereading) ++ gaps.reanalyzing
