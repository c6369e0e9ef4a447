-- ===== src/Scraper.antt =====
-- ui-react/src/hooks/useScraper.ts: the hook that follows the scraper of the desktop shell.
pub mod Logs
pub mod State
pub mod Events
pub mod Handlers
pub mod Turns
pub mod Sound
mod Tests
