-- ===== src/Microsvc/Transports.antt =====
-- src/microsvc/: the ways into a service: requests (service.rs), HTTP (http.rs) and gRPC (grpc.rs).
-- What axum and tonic hand to the handlers is their argument: headers and metadata as pairs in the
-- order of iteration, where `none` is a value that is not text.
use sourced_rust.Prelude.{
  ℕ, String, Bool, true, Option, none, some, List, [], ◌∷◌, Outcome, ok, err, panic, hang,
  unwrap_or,
}
use sourced_rust.Prelude.HashMap
use sourced_rust.Prelude.HashMap.{HashMap}
use sourced_rust.Microsvc.Sessions.{Session, from_map}
use sourced_rust.Microsvc.{
  Json, HandlerError, display, status_code, Service, commands, dispatch, collect,
}

pub record CommandRequest (V : Type 0) : Type 0 where
  pub command : String
  pub input : V
  pub session_variables : HashMap String

pub record CommandResponse (B : Type 0) : Type 0 where
  pub status : ℕ
  pub body : B

-- `GrpcRequest`: the input is JSON text.
pub record GrpcRequest : Type 0 where
  pub command : String
  pub input : String
  pub session_variables : HashMap String

pub record HealthResponse : Type 0 where
  pub ok : Bool
  pub commands : List String

-- The headers or the metadata of a request.
abbrev pub Headers : Type 0
Headers = List (String × Option String)

-- The loop over the headers: what is not text is left out.
unfoldable pub add_headers : Headers → HashMap String → HashMap String
add_headers [] m = m
add_headers ((name, value) ∷ rest) m = elim value [
  | none ↦ add_headers rest m
  | some v ↦ add_headers rest (HashMap.insert name v m)
]

unfoldable pub session_from_headers : Headers → Session
unfolding add_headers from_map
session_from_headers headers = from_map (add_headers headers [])

-- Metadata first, the variables of the payload over it.
unfoldable pub build_session : Headers → HashMap String → Session
unfolding add_headers from_map collect
build_session metadata payload_vars = from_map (collect payload_vars (add_headers metadata []))

module _ {V : Type 0} (json : Json V) {S : Type 0} (service : Service V S) where
  -- A panic of a handler goes on to the caller.
  unfoldable pub respond :
      {B : Type 0}
      → (V → B)
      → (ℕ → ℕ)
      → Outcome HandlerError V × S
      → Outcome ⊥ (CommandResponse B) × S
  unfolding display status_code
  respond body_of status_of (r, s) = elim r [
    | ok value ↦ (ok (record { status = 200; body = body_of value }), s)
    | err e ↦ (
      ok (record {
        status = status_of (status_code e);
        body = body_of (json.error_object (display e));
      }),
      s,
    )
    | panic ↦ (panic, s)
    | hang ↦ (hang, s)
  ]

  unfoldable pub dispatch_request : S → CommandRequest V → Outcome ⊥ (CommandResponse V) × S
  unfolding dispatch respond from_map
  dispatch_request s request =
      respond (λ v. v) (λ n. n)
        (dispatch service s request.command request.input (from_map request.session_variables))

  -- `POST /:command`, where `from_u16` is `StatusCode::from_u16`.
  unfoldable pub command_handler :
      (ℕ → Option ℕ) → S → String → Headers → V → Outcome ⊥ (CommandResponse V) × S
  unfolding dispatch respond session_from_headers
  command_handler from_u16 s name headers input =
      respond (λ v. v) (λ n. unwrap_or (from_u16 n) 500)
        (dispatch service s name input (session_from_headers headers))

  unfoldable pub grpc_dispatch : S → Headers → GrpcRequest → Outcome ⊥ (CommandResponse String) × S
  unfolding dispatch respond build_session
  grpc_dispatch s metadata req =
      let input = unwrap_or (json.from_str req.input) json.null in
      respond json.to_string (λ n. n)
        (dispatch service s req.command input (build_session metadata req.session_variables))

  -- `GET /health`, and the RPC `Health`.
  unfoldable pub health : HealthResponse
  unfolding commands
  health = record { ok = true; commands = commands service }
