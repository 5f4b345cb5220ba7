-- ===== src/Microsvc.antt =====
-- src/microsvc/: a service that sends named commands to their handlers. Here service.rs, context.rs
-- and the errors of error.rs; the repository is the state that the handlers take and return.
pub mod Sessions
pub mod Transports
pub mod Threads
pub mod Routing
pub mod Answers
pub mod Variables
pub mod Serving
pub mod Draining
use sourced_rust.Prelude.{
  ℕ, String, Bool, true, false, not, ◌&&◌, Option, none, some, List, [], ◌∷◌, if◌then◌else◌,
  Outcome, ok, err, panic, hang, map_err, is_some,
}
use sourced_rust.Prelude.HashMap
use sourced_rust.Prelude.HashMap.{HashMap, keys}
use sourced_rust.Bitcode.{Bytes}
use sourced_rust.Repository.{RepositoryError}
use sourced_rust.Repository.Display.{concat, display_repository}
use sourced_rust.Bus.{Event}
use sourced_rust.Microsvc.Sessions.{Session, from_map, user_id, role}

-- `Box<dyn Error>` is its text.
pub data HandlerError : Type 0 where
  unknown_command decode_failed rejected not_found unauthorized : String → HandlerError
  repository : RepositoryError → HandlerError
  guard_rejected : String → HandlerError
  other : String → HandlerError

unfoldable pub display : HandlerError → String
unfolding display_repository
display (unknown_command name) = concat ("unknown command: " ∷ name ∷ [])
display (decode_failed message) = concat ("decode failed: " ∷ message ∷ [])
display (rejected message) = concat ("rejected: " ∷ message ∷ [])
display (not_found id) = concat ("not found: " ∷ id ∷ [])
display (unauthorized message) = concat ("unauthorized: " ∷ message ∷ [])
display (repository e) = concat ("repository error: " ∷ display_repository e ∷ [])
display (guard_rejected name) = concat ("guard rejected command: " ∷ name ∷ [])
display (other message) = concat ("handler error: " ∷ message ∷ [])

unfoldable pub status_code : HandlerError → ℕ
status_code (unknown_command _) = 404
status_code (decode_failed _) = 400
status_code (rejected _) = 422
status_code (not_found _) = 404
status_code (unauthorized _) = 401
status_code (repository _) = 500
status_code (guard_rejected _) = 400
status_code (other _) = 500

-- The crate serde_json, and the UTF-8 of the standard library: what the services ask of values.
pub record Json (V : Type 0) : Type 0 where
  pub null : V
  pub string : String → V
  pub error_object : String → V
  pub field : V → String → Option V
  pub from_slice : Bytes → Option V
  pub from_str : String → Option V
  pub to_string : V → String
  pub from_utf8 : Bytes → Option String

-- `Context`, but for the reference to the repository.
pub record Context (V : Type 0) : Type 0 where
  pub command_name : String
  pub input : V
  pub session : Session

module _ {V : Type 0} (json : Json V) (ctx : Context V) where
  -- `ctx.input::<T>()`, where `from_value` is serde_json's conversion to `T`.
  unfoldable pub typed_input : {T : Type 0} → (V → Outcome String T) → Outcome HandlerError T
  typed_input from_value = map_err decode_failed (from_value ctx.input)

  unfoldable pub has_field : String → Bool
  has_field name = is_some (json.field ctx.input name)

  unfoldable pub has_fields : List String → Bool
  unfolding has_field
  has_fields [] = true
  has_fields (name ∷ names) = has_field name && has_fields names

unfoldable pub context_user_id : {V : Type 0} → Context V → Outcome HandlerError String
unfolding user_id
context_user_id ctx = elim (user_id ctx.session) [
  | none ↦ err (unauthorized "missing user ID in session")
  | some id ↦ ok id
]

-- A guard is a function to `bool`: it returns, panics or waits, and has no error.
pub record CommandHandler (V S : Type 0) : Type 0 where
  pub guard : Option (Context V → S → Outcome ⊥ Bool × S)
  pub handle : Context V → S → Outcome HandlerError V × S

abbrev pub Service : Type 0 → Type 0 → Type 0
Service V S = HashMap (CommandHandler V S)

abbrev pub new_service : {V S : Type 0} → Service V S
new_service = []

module _ {V S : Type 0} where
  unfoldable pub command :
      Service V S → String → (Context V → S → Outcome HandlerError V × S) → Service V S
  command service name handler =
      HashMap.insert name (record { guard = none; handle = handler }) service

  unfoldable pub command_guarded :
      Service V S
      → String
      → (Context V → S → Outcome ⊥ Bool × S)
      → (Context V → S → Outcome HandlerError V × S)
      → Service V S
  command_guarded service name guard handler =
      HashMap.insert name (record { guard = some guard; handle = handler }) service

  unfoldable pub commands : Service V S → List String
  commands service = keys service

  -- What follows the lookup: the guard, if there is one, and the handler.
  unfoldable pub run_handler : CommandHandler V S → Context V → S → Outcome HandlerError V × S
  run_handler handler ctx s = elim handler.guard [
    | none ↦ handler.handle ctx s
    | some guard ↦
        let (passed, s') = guard ctx s in
        elim passed [
          | ok b ↦ if b then handler.handle ctx s' else (err (guard_rejected ctx.command_name), s')
          | err e ↦ absurd e
          | panic ↦ (panic, s')
          | hang ↦ (hang, s')
        ]
  ]

  unfoldable pub dispatch : Service V S → S → String → V → Session → Outcome HandlerError V × S
  unfolding run_handler
  dispatch service s name input session = elim (HashMap.get name service) [
    | none ↦ (err (unknown_command name), s)
    | some handler ↦
        run_handler handler (record { command_name = name; input = input; session = session }) s
  ]

unfoldable pub event_to_json_input : {V : Type 0} → Json V → Event → V
event_to_json_input json event = elim (json.from_slice event.payload) [
  | some v ↦ v
  | none ↦ elim (json.from_utf8 event.payload) [ some s ↦ json.string s | none ↦ json.null ]
]

-- `collect` of the pairs into a map: a later pair replaces an earlier one.
unfoldable pub collect : List (String × String) → HashMap String → HashMap String
collect [] m = m
collect ((k, v) ∷ kvs) m = collect kvs (HashMap.insert k v m)

unfoldable pub event_to_session : Event → Session
unfolding collect from_map
event_to_session event = elim event.metadata [
  | none ↦ from_map []
  | some meta ↦ from_map (collect meta [])
]

unfoldable pub dispatch_event :
    {V S : Type 0} → Json V → Service V S → S → Event → Outcome HandlerError V × S
unfolding dispatch event_to_json_input event_to_session
dispatch_event json service s event =
    dispatch service s event.event_type (event_to_json_input json event) (event_to_session event)
