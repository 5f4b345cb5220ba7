-- ===== src/Microsvc/Variables.antt =====
-- src/microsvc/: which value a session variable has.
use sourced_rust.Prelude.{
  String, str_eq, eq_iff, Option, none, some, List, [], ◌∷◌, if◌then◌else◌, ◌≡◌, refl, ap, ◌∙◌,
  arith,
}
use sourced_rust.Prelude.HashMap
use sourced_rust.Prelude.HashMap.{HashMap, IsMap, get-insert}
use sourced_rust.Microsvc.Sessions.{from_map, get}
use sourced_rust.Microsvc.{collect}
use sourced_rust.Microsvc.Transports.{Headers, add_headers, session_from_headers, build_session}

abbrev or_else : Option String → Option String → Option String
or_else none o = o
or_else (some v) o = some v

-- The value of the last pair with a key.
abbrev pub last_value : String → List (String × String) → Option String
last_value key [] = none
last_value key ((k, v) ∷ kvs) = or_else (last_value key kvs) (if str_eq k key then some v else none)

-- The value of the last header of a name that is text.
abbrev pub last_header : String → Headers → Option String
last_header key [] = none
last_header key ((name, none) ∷ rest) = last_header key rest
last_header key ((name, some v) ∷ rest) =
    or_else (last_header key rest) (if str_eq name key then some v else none)

get-collect :
    (key : String) (kvs : List (String × String)) (m : HashMap String)
    → HashMap.get key (collect kvs m) ≡ or_else (last_value key kvs) (HashMap.get key m)
unfolding collect
get-collect key [] m = refl
get-collect key ((k, v) ∷ kvs) m =
    ground (arith, get-collect key kvs (HashMap.insert k v m), get-insert k key v m)

get-add_headers :
    (key : String) (headers : Headers) (m : HashMap String)
    → HashMap.get key (add_headers headers m)
      ≡ or_else (last_header key headers) (HashMap.get key m)
unfolding add_headers
get-add_headers key [] m = refl
get-add_headers key ((name, none) ∷ rest) m = get-add_headers key rest m
get-add_headers key ((name, some v) ∷ rest) m =
    ground (arith, get-add_headers key rest (HashMap.insert name v m), get-insert name key v m)

-- In a map the last pair with a key is the only one.
last_value-get :
    (key : String) (m : HashMap String) → IsMap m → last_value key m ≡ HashMap.get key m
unfolding HashMap.get
last_value-get key [] h = refl
last_value-get key ((k, v) ∷ m) h = ground (arith, last_value-get key m h.1, h.0, eq_iff k key)

-- A variable of the payload of a gRPC request wins over the metadata of the same name, and of
-- metadata or headers of one name the last that is text counts; metadata that is no text counts
-- for nothing. The payload is a map, whatever its order of iteration.
pub build_session-get :
    (metadata : Headers) (payload_vars : HashMap String) (key : String)
    → IsMap payload_vars
    → (get (build_session metadata payload_vars) key
        ≡ or_else (HashMap.get key payload_vars) (last_header key metadata))
      × (get (session_from_headers metadata) key ≡ last_header key metadata)
unfolding build_session session_from_headers from_map get HashMap.get
build_session-get metadata payload_vars key h = (
  get-collect key payload_vars (add_headers metadata [])
      ∙ ap (λ o. or_else o (HashMap.get key (add_headers metadata [])))
          (last_value-get key payload_vars h)
      ∙ ap (or_else (HashMap.get key payload_vars))
          (get-add_headers key metadata [] ∙ or_none (last_header key metadata)),
  get-add_headers key metadata [] ∙ or_none (last_header key metadata),
)
  where
    or_none : (o : Option String) → or_else o none ≡ o
    or_none none = refl
    or_none (some v) = refl
