-- ===== src/Tests/Services.antt =====
-- Inputs for src/microsvc/: a service that counts orders, its sessions and its threads.
use sourced_rust.Prelude.{
  ℕ, ◌+◌, Bool, ltb, String, Option, none, some, List, [], ◌∷◌, if◌then◌else◌, Outcome, ok, err,
  ◌≡◌, refl, arith, Bool-cases, str_eq, inl, inr,
}
use sourced_rust.Prelude.HashMap
use sourced_rust.Prelude.HashMap.{HashMap}
use sourced_rust.Repository.Display.{show_u64}
use sourced_rust.Bus.{Event, new_event}
use sourced_rust.Bus.InMemoryQueue.{listen}
use sourced_rust.Bus.InMemoryQueue.Moving.{AllWithin}
use sourced_rust.Microsvc.Sessions.{get, from_map}
use sourced_rust.Microsvc.{
  Json, HandlerError, rejected, Context, Service, new_service, command, run_handler, dispatch_event,
}
use sourced_rust.Microsvc.Transports.{
  CommandRequest, GrpcRequest, Headers, session_from_headers, build_session, dispatch_request,
  command_handler, grpc_dispatch,
}
use sourced_rust.Microsvc.Threads.{default_stats, listen_thread}
use sourced_rust.Microsvc.Routing.{Registration, plain, guarded, Routed, dispatch-Routed}
use sourced_rust.Microsvc.Answers.{TakesStatuses, with_body, transports_agree}
use sourced_rust.Microsvc.Variables.{build_session-get}
use sourced_rust.Microsvc.Serving.{Waiting, queue_listener, is_answer, Answers}
use sourced_rust.Microsvc.Draining.{Served, listen_thread-Served}

show_u64_run : show_u64 90210 ≡ "90210"
unfolding show_u64
show_u64_run = refl

-- Values as their text.
abbrev texts : Json String
texts = record {
  null = "null";
  string = λ s. s;
  error_object = λ s. s;
  field = λ v name. none;
  from_slice = λ b. none;
  from_str = λ s. some s;
  to_string = λ v. v;
  from_utf8 = λ b. some "text";
}

-- The repository is the number of orders.
abbrev create_order : Context String → ℕ → Outcome HandlerError String × ℕ
create_order ctx s = (ok "created", s + 1)

abbrev cancel_order : Context String → ℕ → Outcome HandlerError String × ℕ
cancel_order ctx s = (err (rejected "too late"), s)

abbrev any_order : Context String → ℕ → Outcome ⊥ Bool × ℕ
any_order ctx s = (ok (ltb 0 s), s)

abbrev registrations : List (Registration String ℕ)
registrations =
    plain "OrderCancelled" create_order
    ∷ plain "OrderCreated" create_order
    ∷ guarded "OrderCancelled" any_order cancel_order
    ∷ []

abbrev cancelling : Context String
cancelling = record { command_name = "OrderCancelled"; input = "{}"; session = from_map [] }

dispatch-Routed_example : Routed registrations 0 cancelling
dispatch-Routed_example = dispatch-Routed registrations 0 cancelling

abbrev payload_vars : HashMap String
payload_vars = ("x-hasura-role", "admin") ∷ []

abbrev metadata : Headers
metadata =
    ("x-hasura-role", some "user") ∷ ("x-hasura-user-id", some "user-42") ∷ ("trace-bin", none) ∷ []

build_session_run : get (build_session metadata payload_vars) "x-hasura-role" ≡ some "admin"
unfolding build_session get HashMap.get HashMap.insert
build_session_run = refl

build_session-get_example :
    (get (build_session metadata payload_vars) "x-hasura-user-id" ≡ some "user-42")
    × (get (session_from_headers metadata) "x-hasura-user-id" ≡ some "user-42")
unfolding HashMap.get
build_session-get_example = build_session-get metadata payload_vars "x-hasura-user-id" (refl, tt)

abbrev three_digits : ℕ → Option ℕ
three_digits n = if ltb n 100 then none else if ltb n 1000 then some n else none

three_digits-TakesStatuses : TakesStatuses three_digits
three_digits-TakesStatuses n lo hi = ground arith

abbrev orders : Service String ℕ
orders = command new_service "OrderCreated" create_order

abbrev request : CommandRequest String
request = record {
  command = "OrderShipped";
  input = "{}";
  session_variables = ("x-hasura-role", "admin") ∷ [];
}

abbrev grpc : GrpcRequest
grpc = record {
  command = "OrderShipped";
  input = "{}";
  session_variables = ("x-hasura-role", "admin") ∷ [];
}

abbrev headers : Headers
headers = ("x-hasura-role", some "admin") ∷ []

same_headers : session_from_headers headers ≡ from_map request.session_variables
unfolding session_from_headers HashMap.insert
same_headers = refl

same_session : build_session [] grpc.session_variables ≡ from_map request.session_variables
unfolding build_session HashMap.insert
same_session = refl

transports_agree_example :
    (command_handler texts orders three_digits 3 "OrderShipped" headers "{}"
      ≡ dispatch_request texts orders 3 request)
    × (grpc_dispatch texts orders 3 [] grpc
        ≡ with_body (λ v. v) (dispatch_request texts orders 3 request))
transports_agree_example =
    transports_agree texts orders three_digits 3 request headers [] grpc three_digits-TakesStatuses
      same_headers same_session refl refl

orders-Answers : Answers texts orders
unfolding dispatch_event command run_handler HashMap.get HashMap.insert
orders-Answers s e = elim (Bool-cases (str_eq "OrderCreated" e.event_type)) [
  | inl known ↦ rw (known, is_answer)
  | inr unknown ↦ rw (unknown, is_answer)
]

abbrev created : Event
created = new_event "evt-1" "OrderCreated" (1 ∷ [])

abbrev shipped : Event
shipped = new_event "evt-2" "OrderShipped" []

abbrev waiting : Waiting
waiting = record {
  shared = record {
    log = [];
    queues =
        ("orders", record { messages = created ∷ created ∷ shipped ∷ []; position = 1 })
        ∷ ("others", record { messages = created ∷ []; position = 0 })
        ∷ [];
  };
  arrivals = [] ∷ [] ∷ ((("orders", created) ∷ []) ∷ []) ∷ [];
}

waiting-AllWithin : AllWithin waiting.shared
unfolding HashMap.get
waiting-AllWithin k = ground arith

listen_thread_run :
    (listen_thread texts orders 4 queue_listener "orders" default_stats waiting 0).0
    ≡ ok (record { handled = 2; failed = 1; polls = 4 })
unfolding listen_thread listen HashMap.get command HashMap.insert new_event
listen_thread_run = refl

listen_thread-Served_example :
    Served texts orders "orders" 4 default_stats waiting 0
      (listen_thread texts orders 4 queue_listener "orders" default_stats waiting 0)
listen_thread-Served_example =
    listen_thread-Served texts orders "orders" 4 default_stats waiting 0 orders-Answers
      waiting-AllWithin
