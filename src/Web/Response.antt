-- ===== src/Web/Response.antt =====
-- webserver/mod.rs, `IntoResponse for MyError`: the status and the message of each error.
use push_cache.Base.{ℕ, Text, codes}
use push_cache.Error.{
  MyError, message, bad_request, cancelled, hams_error, prometheus_error, serde, io, json_rejection,
  shutdown_check, preflight_check, figment_error, env_filter_error, not_found, schema_mismatch,
  kafka_error, avro_error, invalid_header_value,
}

unfoldable pub error_status : MyError → ℕ × Text
error_status (message msg) = (500, msg)
error_status (bad_request msg) = (400, msg)
error_status (not_found msg) = (404, msg)
error_status (schema_mismatch expected actual) = (500, codes "Schema Mismatch")
error_status cancelled = (500, codes "Cancelled")
error_status (hams_error e) = (500, codes "Hams Error")
error_status (serde e) = (400, codes "Serde Error")
error_status (io e) = (500, codes "IO Error")
error_status shutdown_check = (500, codes "Shutdown Check Failed")
error_status preflight_check = (500, codes "Preflight Check Failed")
error_status (figment_error e) = (500, codes "Config Error")
error_status (json_rejection status body_text) = (status, body_text)
error_status (prometheus_error e) = (500, codes "Prometheus Error")
error_status (env_filter_error e) = (500, codes "EnvFilter Error")
error_status (kafka_error e) = (500, codes "Kafka Error")
error_status (avro_error e) = (500, codes "Avro Deserialization Error")
error_status (invalid_header_value e) = (500, codes "Invalid Header Value")
