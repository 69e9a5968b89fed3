-- ===== src/Demo.antt =====
-- The three services under demo-services, which differ in their names: users, payments and
-- notifications. A handler gives its answer and the state after it. `draw` is what `random.random`
-- gives it. Rates and latencies are not negative here; negative ones would inject nothing.
pub mod Detection
pub mod Examples
use Prim.Native.String.{◌++◌}
use sentinel_distributed_api.Prelude.{
  ℕ, ◌+◌, ◌*◌, String, Bool, true, false, not, ◌&&◌, Option, none, some, List, [], ◌∷◌, ltb, ◌==◌,
  if◌then◌else◌, Ratio,
}

-- `_STATE`.
pub record State : Type 0 where
  pub forced_error_rate : Ratio
  pub forced_latency_ms : ℕ
  pub killed : Bool

abbrev pub no_rate : Ratio
no_rate = record { num = 0; den = 1 }

abbrev pub initial : State
initial = record { forced_error_rate = no_rate; forced_latency_ms = 0; killed = false }

pub data Body : Type 0 where
  -- `{"status": ...}`, and the same with `delayed_ms`.
  status : String → Body
  delayed : ℕ → Body
  -- `{"id": ..., "name": ..., "service": ...}`.
  item : (id name service : String) → Body
  -- `{"users": [{"id": str(i)}, ...]}`, by the numbers.
  users : List ℕ → Body
  forced_error_rate : Ratio → Body
  forced_latency_ms : ℕ → Body
  -- `{"detail": ...}` of an `HTTPException`.
  detail : String → Body
  content : String → Body

-- An answer, and how long the handler slept before it.
pub record Reply : Type 0 where
  pub status_code : ℕ
  pub body : Body
  pub slept_ms : ℕ

abbrev pub answer : ℕ → Body → ℕ → Reply
answer status_code body slept_ms = record {
  status_code = status_code;
  body = body;
  slept_ms = slept_ms;
}

-- `random.random() < rate`.
abbrev pub below : Ratio → Ratio → Bool
below draw rate = ltb (draw.num * rate.den) (rate.num * draw.den)

unfoldable pub health : State → Reply
health s = if s.killed then answer 503 (detail "killed") 0 else answer 200 (status "healthy") 0

-- `_maybe_misbehave`: the `HTTPException` that it raises, if any, and how long it slept.
unfoldable pub maybe_misbehave : Ratio → State → Option String × ℕ
maybe_misbehave draw s =
    if s.killed
    then (some "backend killed", 0)
    else if not (s.forced_error_rate.num == 0) && below draw s.forced_error_rate
    then (some "injected failure", s.forced_latency_ms)
    else (none, s.forced_latency_ms)

-- What a data endpoint answers when `body` is its result.
abbrev pub misbehaved : Option String × ℕ → Body → Reply
misbehaved (some why, slept) body = answer 503 (detail why) slept
misbehaved (none, slept) body = answer 200 body slept

unfoldable pub simulate_random : Ratio → Ratio → Reply
simulate_random draw failure_rate =
    if below draw failure_rate
    then answer 503 (content "{\"error\":\"simulated random failure\"}") 0
    else answer 200 (content "{\"status\":\"ok\"}") 0

unfoldable pub kill : State → Reply × State
kill s = (answer 200 (status "killed") 0, record s { killed = true })

unfoldable pub restore : State → Reply × State
restore s = (
  answer 200 (status "restored") 0,
  record s { killed = false; forced_error_rate = no_rate; forced_latency_ms = 0 },
)

unfoldable pub set_error_rate : Ratio → State → Reply × State
set_error_rate rate s =
    (answer 200 (forced_error_rate rate) 0, record s { forced_error_rate = rate })

unfoldable pub set_latency : ℕ → State → Reply × State
set_latency ms s = (answer 200 (forced_latency_ms ms) 0, record s { forced_latency_ms = ms })

-- The endpoints, by their handlers.
pub data Call : Type 0 where
  health_call list_call simulate_500_call kill_call restore_call : Call
  get_call : (user_id : String) → Call
  simulate_slow_call : (delay_ms : ℕ) → Call
  simulate_random_call : (failure_rate : Ratio) → Call
  error_rate_call : Ratio → Call
  latency_call : ℕ → Call

abbrev pub is_restore : Call → Bool
is_restore restore_call = true
is_restore _ = false

abbrev pub is_kill : Call → Bool
is_kill kill_call = true
is_kill _ = false

-- The application, by the name that its items carry.
unfoldable pub service_app : String → Ratio → Call → State → Reply × State
unfolding health maybe_misbehave simulate_random kill restore set_error_rate set_latency
service_app service draw health_call s = (health s, s)
service_app service draw (get_call user_id) s =
    (misbehaved (maybe_misbehave draw s) (item user_id ("user-" ++ user_id) service), s)
service_app service draw list_call s =
    (misbehaved (maybe_misbehave draw s) (users (1 ∷ 2 ∷ 3 ∷ 4 ∷ 5 ∷ [])), s)
service_app service draw simulate_500_call s =
    (answer 500 (content "{\"error\":\"simulated failure\"}") 0, s)
service_app service draw (simulate_slow_call delay_ms) s =
    (answer 200 (delayed delay_ms) delay_ms, s)
service_app service draw (simulate_random_call failure_rate) s =
    (simulate_random draw failure_rate, s)
service_app service draw kill_call s = kill s
service_app service draw restore_call s = restore s
service_app service draw (error_rate_call rate) s = set_error_rate rate s
service_app service draw (latency_call ms) s = set_latency ms s

unfoldable pub users_service : Ratio → Call → State → Reply × State
unfolding service_app
users_service = service_app "users-service"

unfoldable pub payments_service : Ratio → Call → State → Reply × State
unfolding service_app
payments_service = service_app "payments-service"

unfoldable pub notifications_service : Ratio → Call → State → Reply × State
unfolding service_app
notifications_service = service_app "notifications-service"
