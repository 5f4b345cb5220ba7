-- ===== src/Microsvc/Answers.antt =====
-- src/microsvc/: a command is answered alike whichever way it comes.
use sourced_rust.Prelude.{
  ℕ, ◌≤◌, ◌<◌, Option, some, Outcome, ok, err, panic, hang, unwrap_or, ◌≡◌, refl, ap, ◌∙◌, arith,
}
use sourced_rust.Microsvc.Sessions.{from_map}
use sourced_rust.Microsvc.{
  Json, HandlerError, unknown_command, decode_failed, rejected, not_found, unauthorized, repository,
  guard_rejected, other, display, status_code, Service, dispatch,
}
use sourced_rust.Microsvc.Transports.{
  CommandRequest, CommandResponse, GrpcRequest, Headers, session_from_headers, build_session,
  respond, dispatch_request, command_handler, grpc_dispatch,
}

-- What http documents of `StatusCode::from_u16`: it takes the numbers of three digits.
abbrev pub TakesStatuses : (ℕ → Option ℕ) → Type 0
TakesStatuses from_u16 = (n : ℕ) → 100 ≤ n → n < 1000 → from_u16 n ≡ some n

status_code_bounds : (e : HandlerError) → (100 ≤ status_code e) × (status_code e < 1000)
unfolding status_code
status_code_bounds (unknown_command name) = (omega arith, omega arith)
status_code_bounds (decode_failed message) = (omega arith, omega arith)
status_code_bounds (rejected message) = (omega arith, omega arith)
status_code_bounds (not_found id) = (omega arith, omega arith)
status_code_bounds (unauthorized message) = (omega arith, omega arith)
status_code_bounds (repository e) = (omega arith, omega arith)
status_code_bounds (guard_rejected name) = (omega arith, omega arith)
status_code_bounds (other message) = (omega arith, omega arith)

-- A response with another body.
abbrev pub with_body :
    {B C S : Type 0}
    → (B → C)
    → Outcome ⊥ (CommandResponse B) × S
    → Outcome ⊥ (CommandResponse C) × S
with_body f (ok r, s) = (ok (record { status = r.status; body = f r.body }), s)
with_body f (err e, s) = (err e, s)
with_body f (panic, s) = (panic, s)
with_body f (hang, s) = (hang, s)

module _ {V : Type 0} (json : Json V) {S : Type 0} (service : Service V S) where
  respond-status :
      (from_u16 : ℕ → Option ℕ) (x : Outcome HandlerError V × S)
      → TakesStatuses from_u16
      → respond json service {B = V} (λ v. v) (λ n. unwrap_or (from_u16 n) 500) x
        ≡ respond json service {B = V} (λ v. v) (λ n. n) x
  unfolding respond
  respond-status from_u16 (ok v, s) h = refl
  respond-status from_u16 (err e, s) h =
      let (lo, hi) = status_code_bounds e in
      ap (λ o. (ok (record { status = unwrap_or o 500; body = json.error_object (display e) }), s))
        (h (status_code e) lo hi)
  respond-status from_u16 (panic, s) h = refl
  respond-status from_u16 (hang, s) h = refl

  respond-body :
      (x : Outcome HandlerError V × S)
      → respond json service json.to_string (λ n. n) x
        ≡ with_body json.to_string (respond json service {B = V} (λ v. v) (λ n. n) x)
  unfolding respond
  respond-body (ok v, s) = refl
  respond-body (err e, s) = refl
  respond-body (panic, s) = refl
  respond-body (hang, s) = refl

  -- The same command, input and session give the same status, the same body and the same repository
  -- over HTTP, over gRPC and as a request, where gRPC gives the body as text: for headers that make
  -- the session that the request's variables make, metadata and variables that make it too, and
  -- text that parses to the input. `from_u16` takes the numbers of three digits.
  pub transports_agree :
      (from_u16 : ℕ → Option ℕ) (s : S) (request : CommandRequest V) (headers metadata : Headers)
      (grpc : GrpcRequest)
      → TakesStatuses from_u16
      → session_from_headers headers ≡ from_map request.session_variables
      → build_session metadata grpc.session_variables ≡ from_map request.session_variables
      → json.from_str grpc.input ≡ some request.input
      → grpc.command ≡ request.command
      → (command_handler json service from_u16 s request.command headers request.input
          ≡ dispatch_request json service s request)
        × (grpc_dispatch json service s metadata grpc
            ≡ with_body json.to_string (dispatch_request json service s request))
  unfolding command_handler dispatch_request grpc_dispatch
  transports_agree from_u16 s request headers metadata grpc statuses h g p c = (
    respond-status from_u16 _ statuses
        ∙ ap
            (λ session.
              respond json service {B = V} (λ v. v) (λ n. n)
                (dispatch service s request.command request.input session))
            h,
    ap
          (λ session.
            respond json service json.to_string (λ n. n)
              (dispatch service s grpc.command (unwrap_or (json.from_str grpc.input) json.null)
                session))
          g
        ∙ ap
            (λ o.
              respond json service json.to_string (λ n. n)
                (dispatch service s grpc.command (unwrap_or o json.null)
                  (from_map request.session_variables)))
            p
        ∙ ap
            (λ name.
              respond json service json.to_string (λ n. n)
                (dispatch service s name request.input (from_map request.session_variables)))
            c
        ∙ respond-body
            (dispatch service s request.command request.input (from_map request.session_variables)),
  )
