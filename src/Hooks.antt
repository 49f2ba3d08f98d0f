-- ===== src/Hooks.antt =====
-- apps/web/src/hooks/useTheme.ts and hooks/useWebSocket.ts.
pub mod UseTheme
pub mod UseWebSocket
