-- ===== src/Schema/Tables.antt =====
-- The tables and enumerations of packages/database/models.py.
use sentinel_distributed_api.Prelude.{String, true, List, [], ◌∷◌}
use sentinel_distributed_api.Schema.{
  uuid, integer, float, boolean, timestamp, array, jsonb, string, enumeration, now, now_on_update,
  empty_dict, text, member, number, fraction, truth, Table, plain, with_default, optional,
  foreign_key, uuid_pk,
}

abbrev tenant_statuses : List String
tenant_statuses = "ACTIVE" ∷ "SUSPENDED" ∷ []

abbrev api_key_statuses : List String
api_key_statuses = "ACTIVE" ∷ "REVOKED" ∷ "EXPIRED" ∷ []

abbrev pub instance_statuses : List String
instance_statuses = "HEALTHY" ∷ "UNHEALTHY" ∷ "DRAINING" ∷ "UNKNOWN" ∷ []

abbrev algorithms : List String
algorithms = "TOKEN_BUCKET" ∷ "SLIDING_WINDOW" ∷ "FIXED_WINDOW" ∷ []

abbrev scopes : List String
scopes = "TENANT" ∷ "API_KEY" ∷ "ROUTE" ∷ "IP" ∷ "COMPOSITE" ∷ []

abbrev pub priorities : List String
priorities = "HIGH" ∷ "NORMAL" ∷ "LOW" ∷ []

abbrev pub tenants : Table
tenants = record {
  name = "tenants";
  columns =
      uuid_pk
      ∷ record (plain "name" (string 255)) { unique = true }
      ∷ with_default "status" (enumeration "tenant_status" tenant_statuses) (member "ACTIVE")
      ∷ with_default "created_at" timestamp now
      ∷ with_default "updated_at" timestamp now_on_update
      ∷ [];
  unique_together = [];
}

abbrev pub api_keys : Table
api_keys = record {
  name = "api_keys";
  columns =
      uuid_pk
      ∷ foreign_key "tenant_id" "tenants"
      ∷ record (plain "key_prefix" (string 16)) { index = true }
      ∷ plain "key_hash" (string 255)
      ∷ with_default "status" (enumeration "api_key_status" api_key_statuses) (member "ACTIVE")
      ∷ with_default "created_at" timestamp now
      ∷ optional "expires_at" timestamp
      ∷ optional "last_used_at" timestamp
      ∷ [];
  unique_together = [];
}

abbrev pub backend_services : Table
backend_services = record {
  name = "backend_services";
  columns =
      uuid_pk
      ∷ foreign_key "tenant_id" "tenants"
      ∷ plain "name" (string 255)
      ∷ plain "base_url" (string 1024)
      ∷ with_default "health_check_path" (string 255) (text "/health")
      ∷ with_default "status" (string 32) (text "ACTIVE")
      ∷ with_default "created_at" timestamp now
      ∷ with_default "updated_at" timestamp now_on_update
      ∷ [];
  unique_together = ("tenant_id" ∷ "name" ∷ []) ∷ [];
}

abbrev pub backend_instances : Table
backend_instances = record {
  name = "backend_instances";
  columns =
      uuid_pk
      ∷ foreign_key "backend_service_id" "backend_services"
      ∷ plain "host" (string 255)
      ∷ plain "port" integer
      ∷ with_default "weight" integer (number 1)
      ∷ with_default "status" (enumeration "backend_instance_status" instance_statuses)
          (member "UNKNOWN")
      ∷ with_default "active_connections" integer (number 0)
      ∷ with_default "failure_count" integer (number 0)
      ∷ optional "last_health_check" timestamp
      ∷ [];
  unique_together = [];
}

abbrev pub rate_limit_policies : Table
rate_limit_policies = record {
  name = "rate_limit_policies";
  columns =
      uuid_pk
      ∷ foreign_key "tenant_id" "tenants"
      ∷ plain "name" (string 255)
      ∷ plain "algorithm" (enumeration "rate_limit_algorithm" algorithms)
      ∷ plain "requests_per_second" float
      ∷ plain "burst_capacity" integer
      ∷ with_default "window_seconds" integer (number 60)
      ∷ plain "scope" (enumeration "rate_limit_scope" scopes)
      ∷ with_default "enabled" boolean (truth true)
      ∷ [];
  unique_together = [];
}

abbrev pub circuit_breaker_policies : Table
circuit_breaker_policies = record {
  name = "circuit_breaker_policies";
  columns =
      uuid_pk
      ∷ foreign_key "tenant_id" "tenants"
      ∷ with_default "failure_threshold" float (fraction (record { num = 1; den = 2 }))
      ∷ with_default "minimum_requests" integer (number 20)
      ∷ with_default "open_duration_ms" integer (number 10000)
      ∷ with_default "half_open_requests" integer (number 3)
      ∷ with_default "enabled" boolean (truth true)
      ∷ [];
  unique_together = [];
}

abbrev pub routes : Table
routes = record {
  name = "routes";
  columns =
      uuid_pk
      ∷ foreign_key "tenant_id" "tenants"
      ∷ plain "name" (string 255)
      ∷ plain "path_pattern" (string 512)
      ∷ plain "http_methods" array
      ∷ foreign_key "backend_service_id" "backend_services"
      ∷ with_default "timeout_ms" integer (number 2000)
      ∷ optional "retry_policy_id" uuid
      ∷ record (foreign_key "rate_limit_policy_id" "rate_limit_policies") { nullable = true }
      ∷ with_default "priority" (enumeration "route_priority" priorities) (member "NORMAL")
      ∷ with_default "enabled" boolean (truth true)
      ∷ with_default "created_at" timestamp now
      ∷ with_default "updated_at" timestamp now_on_update
      ∷ [];
  unique_together = ("tenant_id" ∷ "path_pattern" ∷ []) ∷ [];
}

abbrev pub audit_events : Table
audit_events = record {
  name = "audit_events";
  columns =
      uuid_pk
      ∷ optional "tenant_id" uuid
      ∷ plain "actor" (string 255)
      ∷ plain "action" (string 255)
      ∷ plain "resource_type" (string 255)
      ∷ plain "resource_id" (string 255)
      ∷ with_default "event_metadata" jsonb empty_dict
      ∷ with_default "created_at" timestamp now
      ∷ [];
  unique_together = [];
}

-- `Base.metadata`, in the order of the declarations.
abbrev pub metadata : List Table
metadata =
    tenants ∷ api_keys ∷ backend_services ∷ backend_instances ∷ rate_limit_policies
    ∷ circuit_breaker_policies ∷ routes ∷ audit_events ∷ []
