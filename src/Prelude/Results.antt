-- ===== src/Prelude/Results.antt =====
-- What a Rust call does: it returns `Ok`, returns `Err`, panics, or does not return, since it loops
-- or waits for a lock that nobody releases. `?` is `>>=`.
use mathlib.Core.Bool.{Bool, true, false}

pub data Outcome {ℓ κ} (E : Type ℓ) (A : Type κ) : Type (ℓ ⊔ κ) where
  ok : A → Outcome E A
  err : E → Outcome E A
  panic : Outcome E A
  hang : Outcome E A

infixl 5 ◌>>=◌ ◌>>◌
abbrev pub ◌>>=◌ {ℓ κ μ} :
    {E : Type ℓ} {A : Type κ} {B : Type μ} → Outcome E A → (A → Outcome E B) → Outcome E B
ok a >>= f = f a
err e >>= f = err e
panic >>= f = panic
hang >>= f = hang

abbrev pub ◌>>◌ {ℓ κ} : {E : Type ℓ} {B : Type κ} → Outcome E (Unit {0}) → Outcome E B → Outcome E B
m >> k = m >>= λ _. k

-- `map_err`, and the conversion that `?` makes by `From`.
abbrev pub map_err {ℓ κ μ} :
    {E : Type ℓ} {F : Type κ} {A : Type μ} → (E → F) → Outcome E A → Outcome F A
map_err f (ok a) = ok a
map_err f (err e) = err (f e)
map_err f panic = panic
map_err f hang = hang

abbrev pub is_ok {ℓ κ} : {E : Type ℓ} {A : Type κ} → Outcome E A → Bool
is_ok (ok a) = true
is_ok (err e) = false
is_ok panic = false
is_ok hang = false

-- `Arc<RwLock<A>>` or `Arc<Mutex<A>>`, seen by one thread at a time. A thread that panics while
-- it writes poisons the lock, and each later access is an error.
pub record RwLock {ℓ} (A : Type ℓ) : Type ℓ where
  pub value : A
  pub poisoned : Bool

abbrev pub unlocked {ℓ} : {A : Type ℓ} → A → RwLock A
unlocked a = record { value = a; poisoned = false }
