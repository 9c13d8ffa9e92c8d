-- ===== src/Notifications.antt =====
-- Routing, delivery and the digest's split (app/notifications).
pub mod Router
pub mod Delivery
pub mod Settling
pub mod Recovery
pub mod Expired
