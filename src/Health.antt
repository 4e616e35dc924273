-- ===== src/Health.antt =====
-- What the views show of the client's state: messk/src/lib/connectionHealth.ts,
-- messk/src/lib/deliveryStatus.ts, messk/src/lib/localKeyStatus.ts, messk/src/lib/callControls.ts and
-- messk/src/lib/uiErrorRecovery.ts, one child module each.
pub mod Connection
pub mod Delivery
pub mod LocalKey
pub mod CallControls
pub mod UiError
mod Tests
