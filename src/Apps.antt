-- ===== src/Apps.antt =====
-- modules/apps/service.ts and middleware.ts: installed apps, their secrets, the events that are sent
-- to them and the webhooks that they call.
pub mod Joins
pub mod Installing
pub mod Inbound
pub mod Publishing
