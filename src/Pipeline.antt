-- ===== src/Pipeline.antt =====
-- internal/pipeline/pipeline.go, and the sends of internal/scheduler/scheduler.go: the channel of
-- results between the probes and the exporters. `R` is the type of a result.
pub mod Dispatch
pub mod Fleet
use trimon.Base.{
  ℕ, ◌<◌, String, Bool, true, false, Option, none, some, List, [], ◌∷◌, ◌++◌, length, ltb,
  if◌then◌else◌,
}
use trimon.Types.Floats.{FloatOps, of_ℕ}

module _ (R : Type 0) where
  pub record Channel : Type 0 where
    pub capacity : ℕ
    pub items : List R
    pub closed : Bool

  -- How the `select` around a send ends: a send on a closed channel panics.
  pub data Sent : Type 0 where
    panicked full : Sent
    stored : Channel → Sent

  -- An exporter's name, and the error that it returns for a result.
  pub record Exporter : Type 0 where
    pub name : String
    pub export : R → Option String

  -- What `dispatch` does in turn: a call of an exporter, and a call of `onExportError`.
  pub data Event : Type 0 where
    exported : String → R → Event
    failed : String → Event

module _ {R : Type 0} where
  unfoldable pub send : Channel R → R → Sent R
  send ch r =
      if ch.closed
      then panicked
      else if ltb (length ch.items) ch.capacity
      then stored (record ch { items = ch.items ++ r ∷ [] })
      else full

  unfoldable pub dispatch : List (Exporter R) → R → List (Event R)
  dispatch [] result = []
  dispatch (exp ∷ exps) result =
      let rest = dispatch exps result in
      elim (exp.export result) [
        | none ↦ exported exp.name result ∷ rest
        | some e ↦ exported exp.name result ∷ failed exp.name ∷ rest
      ]

  -- The loop of `Run` after the context is done, over all that is buffered. Before, its loop calls
  -- dispatch for each result just so.
  unfoldable pub drain : List (Exporter R) → List R → List (Event R)
  unfolding dispatch
  drain exps [] = []
  drain exps (r ∷ rs) = dispatch exps r ++ drain exps rs

  unfoldable pub buffer_usage : {F : Type 0} → FloatOps F → Channel R → F
  buffer_usage fl ch = fl.div (of_ℕ fl (length ch.items)) (of_ℕ fl ch.capacity)
