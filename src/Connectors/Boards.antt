-- ===== src/Connectors/Boards.antt =====
-- The connectors of the single boards: what each makes of a raw offer.
pub mod Justjoinit
pub mod Nofluffjobs
pub mod SolidJobs
pub mod Remoteok
pub mod Remotive
pub mod Bulldogjob
pub mod RocketJobs
pub mod WeWorkRemotely
pub mod Mapped
pub mod Sitemaps
pub mod Every
