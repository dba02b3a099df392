-- ===== src/Tests.antt =====
-- Runs of the code on concrete inputs.
mod AstRuns
mod OptRuns
mod BuilderRuns
mod TypeRuns
mod BlockRuns
mod ActiveRuns
mod DominatorRuns
mod CreateRuns
mod GenRuns
mod TypedRuns
