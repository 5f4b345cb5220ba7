-- ===== src/Microsvc/Routing.antt =====
-- src/microsvc/service.rs: which handler a command is sent to.
use sourced_rust.Prelude.{
  String, Bool, true, false, Option, none, some, List, [], ◌∷◌, if◌then◌else◌, contains, str_eq,
  is_some, Outcome, ok, err, panic, hang, ◌≡◌, refl, ap, ◌∙◌, arith,
}
use sourced_rust.Prelude.HashMap
use sourced_rust.Prelude.HashMap.{HashMap, keys, IsMap, get-insert, insert-IsMap}
use sourced_rust.Microsvc.Sessions.{Session}
use sourced_rust.Microsvc.{
  HandlerError, unknown_command, guard_rejected, Context, CommandHandler, Service, new_service,
  command, command_guarded, commands, run_handler, dispatch,
}

-- A call of `command` or of `command_guarded`.
pub data Registration (V S : Type 0) : Type 0 where
  plain : String → (Context V → S → Outcome HandlerError V × S) → Registration V S
  guarded :
      String
      → (Context V → S → Outcome ⊥ Bool × S)
      → (Context V → S → Outcome HandlerError V × S)
      → Registration V S

module _ {V S : Type 0} where
  abbrev name_of : Registration V S → String
  name_of (plain name handle) = name
  name_of (guarded name guard handle) = name

  abbrev handler_of : Registration V S → CommandHandler V S
  handler_of (plain name handle) = record { guard = none; handle = handle }
  handler_of (guarded name guard handle) = record { guard = some guard; handle = handle }

  unfoldable pub register : Service V S → Registration V S → Service V S
  unfolding command command_guarded
  register service (plain name handle) = command service name handle
  register service (guarded name guard handle) = command_guarded service name guard handle

  -- `service.command(..).command_guarded(..)..`
  unfoldable pub register_all : Service V S → List (Registration V S) → Service V S
  unfolding register
  register_all service [] = service
  register_all service (r ∷ rs) = register_all (register service r) rs

  -- The handler that was registered last under a name.
  abbrev pub last_registered : String → List (Registration V S) → Option (CommandHandler V S)
  last_registered name [] = none
  last_registered name (r ∷ rs) = elim (last_registered name rs) [
    | some handler ↦ some handler
    | none ↦ if str_eq (name_of r) name then some (handler_of r) else none
  ]

  abbrev or_else :
      Option (CommandHandler V S) → Option (CommandHandler V S) → Option (CommandHandler V S)
  or_else none o = o
  or_else (some handler) o = some handler

  get-register :
      (service : Service V S) (r : Registration V S) (name : String)
      → HashMap.get name (register service r)
        ≡ (if str_eq (name_of r) name then some (handler_of r) else HashMap.get name service)
  unfolding register
  get-register service (plain n handle) name = get-insert n name _ service
  get-register service (guarded n guard handle) name = get-insert n name _ service

  get-register_all :
      (service : Service V S) (rs : List (Registration V S)) (name : String)
      → HashMap.get name (register_all service rs)
        ≡ or_else (last_registered name rs) (HashMap.get name service)
  unfolding register_all
  get-register_all service [] name = refl
  get-register_all service (r ∷ rs) name =
      ground (arith, get-register_all (register service r) rs name, get-register service r name)

  register_all-IsMap :
      (service : Service V S) (rs : List (Registration V S))
      → IsMap service
      → IsMap (register_all service rs)
  unfolding register_all register
  register_all-IsMap service [] m = m
  register_all-IsMap service (plain n handle ∷ rs) m =
      register_all-IsMap (register service (plain n handle)) rs (insert-IsMap n _ service m)
  register_all-IsMap service (guarded n guard handle ∷ rs) m =
      register_all-IsMap (register service (guarded n guard handle)) rs (insert-IsMap n _ service m)

  -- What a command is answered with: the name is unknown, or its handler runs behind its guard.
  abbrev pub answer : Option (CommandHandler V S) → Context V → S → Outcome HandlerError V × S
  answer none ctx s = (err (unknown_command ctx.command_name), s)
  answer (some handler) ctx s = run_handler handler ctx s

  dispatch-answer :
      (service : Service V S) (s : S) (name : String) (input : V) (session : Session)
      → dispatch service s name input session
        ≡ answer
            (HashMap.get name service)
            (record { command_name = name; input = input; session = session })
            s
  unfolding dispatch
  dispatch-answer service s name input session = ground arith

  contains-keys :
      (m : Service V S) (name : String) → contains name (keys m) ≡ is_some (HashMap.get name m)
  unfolding HashMap.get
  contains-keys [] name = refl
  contains-keys ((n, h) ∷ m) name = ground (arith, contains-keys m name)

  abbrev result : List (Registration V S) → S → Context V → Outcome HandlerError V × S
  result rs s ctx = dispatch (register_all new_service rs) s ctx.command_name ctx.input ctx.session

  -- The answers of a service to a command, by the registration that counts.
  pub record Routed (rs : List (Registration V S)) (s : S) (ctx : Context V) : Type 0 where
    pub unknown :
        last_registered ctx.command_name rs ≡ none
        → result rs s ctx ≡ (err (unknown_command ctx.command_name), s)
    pub unguarded :
        (handle : Context V → S → Outcome HandlerError V × S)
        → last_registered ctx.command_name rs ≡ some (record { guard = none; handle = handle })
        → result rs s ctx ≡ handle ctx s
    pub passed :
        (guard : Context V → S → Outcome ⊥ Bool × S)
        (handle : Context V → S → Outcome HandlerError V × S)
        → last_registered ctx.command_name rs
          ≡ some (record { guard = some guard; handle = handle })
        → (guard ctx s).0 ≡ ok true
        → result rs s ctx ≡ handle ctx (guard ctx s).1
    pub stopped :
        (guard : Context V → S → Outcome ⊥ Bool × S)
        (handle : Context V → S → Outcome HandlerError V × S)
        → last_registered ctx.command_name rs
          ≡ some (record { guard = some guard; handle = handle })
        → (guard ctx s).0 ≡ ok false
        → result rs s ctx ≡ (err (guard_rejected ctx.command_name), (guard ctx s).1)
    pub listed :
        contains ctx.command_name (commands (register_all new_service rs))
        ≡ is_some (last_registered ctx.command_name rs)
    pub listed_once : IsMap (register_all new_service rs)

  or_else-none : (o : Option (CommandHandler V S)) → or_else o none ≡ o
  or_else-none none = refl
  or_else-none (some handler) = refl

  result-answer :
      (rs : List (Registration V S)) (s : S) (ctx : Context V)
      → result rs s ctx ≡ answer (last_registered ctx.command_name rs) ctx s
  unfolding HashMap.get
  result-answer rs s ctx =
      dispatch-answer (register_all new_service rs) s ctx.command_name ctx.input ctx.session
      ∙ ap (λ o. answer o ctx s)
          (get-register_all new_service rs ctx.command_name
            ∙ or_else-none (last_registered ctx.command_name rs))

  -- What `run_handler` makes of the answer of a guard.
  abbrev behind_guard :
      (Context V → S → Outcome HandlerError V × S)
      → Context V
      → Outcome ⊥ Bool × S
      → Outcome HandlerError V × S
  behind_guard handle ctx (passed, s') = elim passed [
    | ok b ↦ if b then handle ctx s' else (err (guard_rejected ctx.command_name), s')
    | err e ↦ absurd e
    | panic ↦ (panic, s')
    | hang ↦ (hang, s')
  ]

  -- A command runs the handler that was registered last under its name, behind its guard: a guard
  -- that answers `false` stops it with an error, and the handler does not run; a name that was never
  -- registered is an error and changes nothing. `commands` lists each registered name once and no
  -- other.
  pub dispatch-Routed : (rs : List (Registration V S)) (s : S) (ctx : Context V) → Routed rs s ctx
  unfolding run_handler commands HashMap.get
  dispatch-Routed rs s ctx = record {
    unknown = λ h. by_answer none h;
    unguarded = λ handle h. by_answer (some (record { guard = none; handle = handle })) h;
    passed = λ guard handle h g.
        by_answer (some (record { guard = some guard; handle = handle })) h
        ∙ ap (λ r. behind_guard handle ctx (r, (guard ctx s).1)) g;
    stopped = λ guard handle h g.
        by_answer (some (record { guard = some guard; handle = handle })) h
        ∙ ap (λ r. behind_guard handle ctx (r, (guard ctx s).1)) g;
    listed =
        contains-keys (register_all new_service rs) ctx.command_name
        ∙ ap is_some (get-register_all new_service rs ctx.command_name)
        ∙ ap is_some (or_else-none (last_registered ctx.command_name rs));
    listed_once = register_all-IsMap new_service rs tt;
  }
    where
      by_answer :
          (o : Option (CommandHandler V S))
          → last_registered ctx.command_name rs ≡ o
          → result rs s ctx ≡ answer o ctx s
      by_answer o h = result-answer rs s ctx ∙ ap (λ o. answer o ctx s) h
