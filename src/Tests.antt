-- ===== src/Tests.antt =====
-- Runs of the models on concrete inputs, and the theorems at inputs where their hypotheses hold.
mod SyncRuns
mod UserRuns
mod LimiterRuns
mod FirewallRuns
mod DnsRuns
mod EntryRuns
mod TelemetryRuns
mod RelayRuns
mod HubRuns
mod AgentRuns
mod ControlRuns
mod StoreRuns
mod AclRuns
mod NetworkRuns
