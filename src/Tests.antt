-- ===== src/Tests.antt =====
-- Concrete runs of the theorems: a room, a configuration, a service in memory and a token format.
mod Data
mod JobRuns
mod DataplaneRuns
mod AccountRuns
mod Codec
mod RoomRuns
mod StoreRuns
mod PassRuns
mod AdmitterRuns
mod HubRuns
mod ApiRuns
mod ControlRuns
