-- ===== src/Tests.antt =====
-- Concrete runs of the dashboard: each theorem about the code at an input where its hypotheses hold.
mod Data
mod Bus
mod Containers
mod Broker
mod Node
mod Joint
mod Store
mod Sse
mod Page
mod Integers
mod Geometry
mod Wiring
mod Texts
mod Views
