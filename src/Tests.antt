-- ===== src/Tests.antt =====
-- Concrete inputs for the theorems, and runs of the code.
pub mod Memory
pub mod Shelf
mod OtpRuns
pub mod StoreRuns
mod GrpcRuns
mod AuthRuns
mod ConfigRuns
mod HealthRuns
mod KafkaRuns
mod HandlerRuns
mod DomainRuns
mod HubRuns
mod LoopRuns
mod SendingRuns
mod LimitRuns
mod SmtpRuns
mod TemplateRuns
