-- ===== src/Macros/Running.antt =====
-- What the code that sourced_rust_macros/src/lib.rs generates does when it runs. Statements, guards and
-- the queue of events are parameters; the digests are those of src/entity/entity.rs.
use Prim.Native.String.{◌++◌ as text_append}
use sourced_rust.Prelude.{
  ℕ, String, Bool, none, some, List, [], ◌∷◌, is_empty, str_eq, Outcome, ok, err, if◌then◌else◌,
}
use sourced_rust.Prelude.HashMap
use sourced_rust.Prelude.HashMap.{HashMap}
use sourced_rust.Bitcode.{Codec}
use sourced_rust.Entity.{Entity, EventRecord, digest, digest_v, digest_empty, decode}
use sourced_rust.Macros.{
  enqueue_text, enqueue_tuple, Statement, digest_call, digest_v_call, digest_empty_call,
  unless_replaying, original, Generated, ReplayArm, extract_param_names,
}

-- The values of the parameters under their names.
abbrev pub Scope : Type 0 → Type 0
Scope V = HashMap V

-- `A` is the struct, `V` the values of the parameters.
pub record Runtime (A X B V : Type 0) : Type 0 where
  pub entity : A → Entity
  pub set_entity : A → Entity → A
  pub tuples : Codec (List V)
  pub unit : Codec (Unit {0})
  pub decode_error : String
  pub run : B → Scope V → A → A
  pub holds : X → Scope V → A → Bool
  pub enqueue : String → String → List V → A → A

unfoldable pub bind : {V : Type 0} → List String → List V → Scope V
bind [] vs = []
bind (name ∷ names) [] = []
bind (name ∷ names) (v ∷ vs) = (name, v) ∷ bind names vs

-- The clones of the named parameters. A name that stands for none does not compile in Rust.
unfoldable pub clones : {V : Type 0} → Scope V → List String → List V
clones scope [] = []
clones scope (name ∷ names) =
    let rest = clones scope names in
    elim (HashMap.get name scope) [ none ↦ rest | some v ↦ v ∷ rest ]

module _ {A X B V : Type 0} (rt : Runtime A X B V) (now : ℕ) where
  unfoldable pub exec : Scope V → Statement B → A → A
  unfolding digest digest_v digest_empty clones
  exec scope (digest_call field name ps) a =
      rt.set_entity a (digest rt.tuples (rt.entity a) now name (clones scope ps))
  exec scope (digest_v_call field name version ps) a = rt.set_entity a (
      if is_empty ps
      then digest_v rt.unit (rt.entity a) now name version tt
      else digest_v rt.tuples (rt.entity a) now name version (clones scope ps))
  exec scope (digest_empty_call field name) a =
      rt.set_entity a (digest_empty rt.unit (rt.entity a) now name)
  exec scope (unless_replaying field call) a = if (rt.entity a).replaying then a else elim call [
    | enqueue_text emitter name ↦ rt.enqueue emitter name [] a
    | enqueue_tuple emitter name ps ↦ rt.enqueue emitter name (clones scope ps) a
  ]
  exec scope (original b) a = rt.run b scope a

  unfoldable pub exec_all : Scope V → List (Statement B) → A → A
  unfolding exec
  exec_all scope [] a = a
  exec_all scope (s ∷ ss) a = exec_all scope ss (exec scope s a)

module _ {T A X B V : Type 0} (rt : Runtime A X B V) (now : ℕ) where
  -- A call of a generated method with the values of its parameters.
  unfoldable pub call_method : Generated T X B → List V → A → A
  unfolding exec_all bind extract_param_names
  call_method m vs a =
      let scope = bind (extract_param_names m.inputs) vs in
      elim m.block.guard [
        | none ↦ exec_all rt now scope m.block.statements a
        | some g ↦ if rt.holds g scope a then exec_all rt now scope m.block.statements a else a
      ]

  -- `self.name(..)`: a name without a method does not compile.
  unfoldable pub call_named : List (Generated T X B) → String → List V → A → A
  unfolding call_method
  call_named [] name vs a = a
  call_named (m ∷ ms) name vs a =
      if str_eq m.name name then call_method m vs a else call_named ms name vs a

  -- `match event.event_name.as_str()`
  unfoldable pub run_arms :
      List (Generated T X B) → List ReplayArm → EventRecord → A → Outcome String A
  unfolding call_named bind clones decode
  run_arms ms [] event a = err (text_append "Unknown event: " event.event_name)
  run_arms ms (arm ∷ arms) event a =
      if str_eq arm.event_name event.event_name
      then (if is_empty arm.bound
          then ok (call_named ms arm.method_name [] a)
          else elim (decode rt.tuples event) [
            | none ↦ err rt.decode_error
            | some vs ↦ ok (call_named ms arm.method_name (clones (bind arm.bound vs) arm.passed) a)
          ])
      else run_arms ms arms event a
