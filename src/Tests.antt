-- ===== src/Tests.antt =====
-- Runs of the model on concrete data.
mod Data
mod FeedRuns
mod StreamRuns
mod ProctorRuns
mod ClockRuns
mod AdminRuns
mod PageRuns
mod HistoryRuns
mod DeskRuns
mod BrowseRuns
mod LoadingRuns
mod SessionRuns
mod TimerRuns
mod BankRuns
mod TeamRuns
mod UserRuns
