-- ===== src/Examples.antt =====
-- Test data, runs at fixed inputs, and the theorems at concrete inputs.
mod PlanRuns
mod ConvergeRuns
mod SupervisorRuns
mod ChannelRuns
mod OAuthRuns
mod BrokerRuns
mod ToolRuns
mod CalculatorRuns
mod FileRuns
mod MiddlewareRuns
mod SlackRuns
mod ReviewRuns
mod StoreRuns
mod SqliteRuns
mod OktaRuns
mod ServerRuns
mod FlowRuns
