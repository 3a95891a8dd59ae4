-- ===== src/Container/Health.antt =====
-- internal/container/paired_run.go: `waitEngineHealthy`, `endpointIP` and `checkHTTP`. Times are
-- nanoseconds; the product of the timeout in seconds wraps around as an `int64`.
pub mod Deadline
use Prim.Native.String
use bonnie.Prelude.{
  ℕ, zero, suc, ◌+◌, ◌-◌, ◌*◌, ◌/◌, ◌≤◌, ◌<◌, ◌^◌, String, ◌≡◌, refl, Bool, true, false, not, ◌&&◌,
  Option, none, some, List, [], ◌∷◌, if◌then◌else◌, str_eq, ltb, leb, ◌==◌, arith,
}
use bonnie.Prelude.Bytes.{codes, has_prefix}
use bonnie.Prelude.Int.{
  ℤ, pos, negsuc, pos_part, neg_part, is_positive, is_zero, to_int64, show_nat,
}
use bonnie.Prelude.Maps.{Map, lookup}
use bonnie.Prelude.Results.{Result, ok, err}
use bonnie.Container.Spec.{EngineSpec, PairedRunEvent}
use bonnie.Container.Docker.{Inspection, Client, inspected, probed, slept}
use bonnie.Container.Monad.{RunState, M, record_step, blank_event, emit}

-- `endpointIP`.
unfoldable pub endpoint_ip : Inspection → String → String
unfolding lookup
endpoint_ip none network = ""
endpoint_ip (some networks) network = elim (lookup network networks) [
  | none ↦ ""
  | some none ↦ ""
  | some (some ip) ↦ ip
]

-- The path that `checkHTTP` asks for.
unfoldable pub rooted : String → String
rooted path = if has_prefix (codes path) (codes "/") then path else String.◌++◌ "/" path

abbrev pub is_success : Option ℕ → Bool
is_success none = false
is_success (some code) = leb 200 code && ltb code 300

-- `checkHTTP`: an error of the request or a status outside 2xx is false.
unfoldable pub check_http : Client → String → ℤ → String → RunState → RunState × Bool
unfolding rooted
check_http client ip port path s = (
  record_step (probed ip port (rooted path)) s,
  is_success (client.http_ok s.trace ip port (rooted path)),
)

-- The seconds of the request, or `defaultEngineHealthTimeout`, as a duration in nanoseconds.
abbrev pub timeout_of : EngineSpec → ℕ
timeout_of spec =
    if is_positive spec.health_check.timeout_seconds
    then pos_part spec.health_check.timeout_seconds
    else 300

unfoldable pub deadline_of : ℕ → ℕ → ℕ
deadline_of start timeout =
    let budget = to_int64 (timeout * 1000000000) in start + pos_part budget - neg_part budget

abbrev pub waiting : PairedRunEvent
waiting = record blank_event {
  type = "progress";
  phase = "engine-starting";
  source = "engine";
  line = "waiting for engine health";
}

abbrev pub result_or {ℓ} : {A : Type ℓ} → A → Option A → A
result_or d none = d
result_or d (some a) = a

-- What one round decides: an address, or to wait.
unfoldable pub probe_engine : Client → EngineSpec → String → RunState → RunState × Option String
unfolding check_http
probe_engine client spec ip s =
    let (s', up) = check_http client ip spec.health_check.port spec.health_check.path s in
    if not (str_eq ip "")
      && not (str_eq spec.health_check.path "")
      && not (is_zero spec.health_check.port)
    then (s', if up then some ip else none)
    else if not (str_eq ip "") && str_eq spec.health_check.path ""
    then (s, some ip)
    else (s, none)

-- One round up to the pause.
unfoldable pub round : Client → String → String → EngineSpec → RunState → RunState × Option String
unfolding probe_engine endpoint_ip
round client id network spec s =
    let s₁ = record_step (inspected id) s in
    elim (client.container_inspect s.trace id) [
      | err e ↦ (s₁, none)
      | ok info ↦ probe_engine client spec (endpoint_ip info network) s₁
    ]

-- The failure after the last round.
abbrev pub unhealthy : ℕ → String
unhealthy timeout =
    String.◌++◌ "engine did not become healthy within " (String.◌++◌ (show_nat timeout) "s")

-- The loop; `none` means that the fuel ran out.
unfoldable pub wait_loop :
    Client
    → String
    → String
    → EngineSpec
    → ℕ
    → ℕ
    → RunState
    → RunState × Option (Result String String)
unfolding round
wait_loop client id network spec zero deadline s = (s, none)
wait_loop client id network spec (suc fuel) deadline s = elim (ltb (client.now s.trace) deadline) [
  | false ↦ (s, some (err (unhealthy (timeout_of spec))))
  | true ↦ elim (client.cancelled s.trace) [
    | some e ↦ (s, some (err e))
    | none ↦
        let (s₁, found) = round client id network spec s in
        elim found [
          | some ip ↦ (s₁, some (ok ip))
          | none ↦
              let s₂ = (emit client waiting s₁).0 in
              elim (client.cancelled s₂.trace) [
                | some e ↦ (s₂, some (err e))
                | none ↦ wait_loop client id network spec fuel deadline (record_step slept s₂)
              ]
        ]
  ]
]

-- A round takes two seconds at least, so this many end the loop.
abbrev pub fuel_for : ℕ → ℕ
fuel_for wait = suc (suc (wait / 2000000000))

-- `waitEngineHealthy`.
unfoldable pub wait_engine_healthy :
    Client → String → String → EngineSpec → RunState → RunState × Result String String
unfolding wait_loop deadline_of
wait_engine_healthy client id network spec s =
    let start = client.now s.trace in
    let deadline = deadline_of start (timeout_of spec) in
    let (s', r) = wait_loop client id network spec (fuel_for (deadline - start)) deadline s in
    (s', result_or (err (unhealthy (timeout_of spec))) r)
