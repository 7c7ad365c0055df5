-- ===== src/Controller/Targets/Safety.antt =====
-- The parts of the Target controller keep to its policy, and what each of them establishes.
pub mod RegistryPhase
pub mod DeletePhase
pub mod CollectPhase
pub mod ReleasesPhase
pub mod TaskPhase
pub mod RenderPhase
pub mod BootstrapPhase
pub mod Whole
