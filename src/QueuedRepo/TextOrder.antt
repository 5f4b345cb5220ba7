-- ===== src/QueuedRepo/TextOrder.antt =====
-- The order of Rust's `str`, by which src/queued_repo/repository.rs sorts identifiers.
use Prim.Native.Nat.{Ordering, compare as compare_ℕ}
use Prim.Native.Char.{code}
use Prim.Native.String.{compare, then as first_of}
use Prim.Native.String.compare as compare_text
use sourced_rust.Prelude.{ℕ, String, ◌≡◌, refl, sym, ap, ◌∙◌, arith}

abbrev pub flip : Ordering → Ordering
flip Ordering.lt = Ordering.gt
flip Ordering.eq = Ordering.eq
flip Ordering.gt = Ordering.lt

flip-compare_ℕ : (m n : ℕ) → compare_ℕ n m ≡ flip (compare_ℕ m n)
flip-compare_ℕ m n = ground arith

flip-then : (o p : Ordering) → first_of (flip o) (flip p) ≡ flip (first_of o p)
flip-then Ordering.lt p = refl
flip-then Ordering.eq p = refl
flip-then Ordering.gt p = refl

pub flip-compare : (s t : String) → compare t s ≡ flip (compare s t)
flip-compare String.[] String.[] = refl
flip-compare String.[] (String.◌∷◌ d t) =
    compare_text.cons-nil d t ∙ sym (ap flip (compare_text.nil-cons d t))
flip-compare (String.◌∷◌ c s) String.[] =
    compare_text.nil-cons c s ∙ sym (ap flip (compare_text.cons-nil c s))
flip-compare (String.◌∷◌ c s) (String.◌∷◌ d t) =
    compare_text.cons-cons d c t s
    ∙ ap (λ o. first_of o (compare t s)) (flip-compare_ℕ (code c) (code d))
    ∙ ap (first_of (flip (compare_ℕ (code c) (code d)))) (flip-compare s t)
    ∙ flip-then (compare_ℕ (code c) (code d)) (compare s t)
    ∙ sym (ap flip (compare_text.cons-cons c d s t))

then-lt :
    (a b c : ℕ) (o p q : Ordering)
    → (o ≡ Ordering.lt → p ≡ Ordering.lt → q ≡ Ordering.lt)
    → first_of (compare_ℕ a b) o ≡ Ordering.lt
    → first_of (compare_ℕ b c) p ≡ Ordering.lt
    → first_of (compare_ℕ a c) q ≡ Ordering.lt
then-lt a b c o p q ih h k = ground (arith, ih, h, k)

pub compare_trans :
    (s t u : String)
    → compare s t ≡ Ordering.lt
    → compare t u ≡ Ordering.lt
    → compare s u ≡ Ordering.lt
compare_trans String.[] String.[] String.[] h k = h
compare_trans String.[] (String.◌∷◌ d t) String.[] h k = absurd (cc (k, compare_text.cons-nil d t))
compare_trans String.[] t (String.◌∷◌ e u) h k = compare_text.nil-cons e u
compare_trans (String.◌∷◌ c s) String.[] u h k = absurd (cc (h, compare_text.cons-nil c s))
compare_trans (String.◌∷◌ c s) (String.◌∷◌ d t) String.[] h k =
    absurd (cc (k, compare_text.cons-nil d t))
compare_trans (String.◌∷◌ c s) (String.◌∷◌ d t) (String.◌∷◌ e u) h k =
    compare_text.cons-cons c e s u
    ∙ then-lt (code c) (code d) (code e) (compare s t) (compare t u) (compare s u)
        (compare_trans s t u) (sym (compare_text.cons-cons c d s t) ∙ h)
        (sym (compare_text.cons-cons d e t u) ∙ k)
