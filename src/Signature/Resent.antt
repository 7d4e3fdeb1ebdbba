-- ===== src/Signature/Resent.antt =====
-- A webhook that was handled by src/ops-service/src/middleware/webhook_hmac.rs and is sent again.
use ops_service.Prelude.Bytes.{Bytes}
