-- ===== src/Pool/Types.antt =====
-- internal/poolgateway/types.go, errors.go and the structs of config.go.
-- `time.Time` is a number of nanoseconds, and a float64 is known by its bit pattern only.
use openmate.Base.{ℕ, GoString, Option, List, Bool}
use openmate.Base.Int.{ℤ}
use openmate.Base.Json.{Fields}

pub data Float64 : Type 0 where
  bits : ℕ → Float64

pub data ApiStatus : Type 0 where
  available leased offline : ApiStatus

pub data InvocationStatus : Type 0 where
  running success failure : InvocationStatus

pub record InvokeRequest : Type 0 where
  pub request_id : GoString
  pub node_id : GoString
  pub request : Fields
  pub chat_request : Fields
  pub timeout_ms : Option ℤ
  pub route_api_id : Option GoString
  -- whether a `StreamSink` is there; it is not stored
  pub stream_sink : Bool

pub record UsageMetrics : Type 0 where
  pub input_tokens : Option ℤ
  pub output_tokens : Option ℤ
  pub total_tokens : Option ℤ
  pub cached_input_tokens : Option ℤ
  pub reasoning_tokens : Option ℤ
  pub latency_ms : Option ℤ
  pub cost_usd : Option Float64

pub record RouteDecision : Type 0 where
  pub api_id : GoString
  pub provider : GoString
  pub model : GoString

pub record GatewayError : Type 0 where
  pub code : GoString
  pub message : GoString
  pub retryable : Bool
  pub provider_status_code : Option ℤ
  pub details : Fields

pub record InvocationTiming : Type 0 where
  pub started_at : ℕ
  pub finished_at : Option ℕ
  pub latency_ms : Option ℤ

pub record InvocationAttempt : Type 0 where
  pub attempt_id : GoString
  pub route : RouteDecision
  pub status : InvocationStatus
  pub timing : InvocationTiming
  pub usage : Option UsageMetrics
  pub error : Option GatewayError

pub record InvokeResponse : Type 0 where
  pub invocation_id : GoString
  pub request_id : GoString
  pub node_id : GoString
  pub status : InvocationStatus
  pub route : Option RouteDecision
  pub response : Option Fields
  pub output_text : Option GoString
  pub usage : Option UsageMetrics
  pub timing : InvocationTiming
  pub error : Option GatewayError

pub record InvocationRecord : Type 0 where
  pub invocation_id : GoString
  pub request : InvokeRequest
  pub status : InvocationStatus
  pub route : Option RouteDecision
  pub response : Option Fields
  pub output_text : Option GoString
  pub usage : Option UsageMetrics
  pub timing : InvocationTiming
  pub error : Option GatewayError
  pub attempts : List InvocationAttempt

pub record CapacitySnapshot : Type 0 where
  pub total_apis : ℕ
  pub total_slots : ℕ
  pub available_slots : ℕ
  pub leased_slots : ℕ
  pub offline_apis : ℕ
  pub throttled : Bool
  pub updated_at : ℕ

pub record PricingConfig : Type 0 where
  pub input_per_1m_usd : Option Float64
  pub output_per_1m_usd : Option Float64
  pub cached_input_per_1m_usd : Option Float64
  pub reasoning_per_1m_usd : Option Float64

pub record ApiConfig : Type 0 where
  pub api_id : GoString
  pub provider : GoString
  pub api_mode : GoString
  pub model : GoString
  pub base_url : GoString
  pub api_key : GoString
  pub max_concurrent : ℕ
  pub enabled : Bool
  pub headers : List (GoString × GoString)
  pub request_defaults : Fields
  pub pricing : Option PricingConfig

pub record ModelConfig : Type 0 where
  pub global_max_concurrent : Option ℤ
  pub offline_failure_threshold : ℕ
  pub retry_max_attempts : Option ℤ
  pub retry_base_backoff_ms : Option ℤ
  pub apis : List ApiConfig

pub record InvocationReservation : Type 0 where
  pub invocation_id : GoString
  pub attempt_id : GoString
  pub request_id : GoString
  pub node_id : GoString
  pub api_id : GoString
  pub provider : GoString
  pub api_mode : GoString
  pub model : GoString
  pub base_url : GoString
  pub api_key : GoString
  pub headers : List (GoString × GoString)
  pub request_defaults : Fields
  pub pricing : Option PricingConfig
  pub started_at : ℕ
