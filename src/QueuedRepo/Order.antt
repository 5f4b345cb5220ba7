-- ===== src/QueuedRepo/Order.antt =====
-- src/queued_repo/repository.rs: the order in which `lock_ids_in_order` takes its locks.
use Prim.Native.Nat.{Ordering}
use Prim.Native.String.{compare}
use text.Mathlib.TextEquality.{path_by_compare}
use sourced_rust.Prelude.{
  contains, false, ◌||◌, String, ◌≡◌, ◌≢◌, refl, sym, ◌∙◌, List, [], ◌∷◌, str_eq, eq_iff, arith,
  if_cases, subst,
}
use sourced_rust.QueuedRepo.TextOrder.{flip-compare}
use sourced_rust.QueuedRepo.{sort_insert, sort, dedup_from, dedup}

-- The head of a list does not stand before `x`.
abbrev After : String → List String → Type 0
After x [] = Unit
After x (y ∷ ys) = compare x y ≢ Ordering.gt

abbrev IsSorted : List String → Type 0
IsSorted [] = Unit
IsSorted (x ∷ xs) = After x xs × IsSorted xs

-- The head of a list stands behind `x`.
abbrev pub Before : String → List String → Type 0
Before x [] = Unit
Before x (y ∷ ys) = compare x y ≡ Ordering.lt

abbrev pub IsAscending : List String → Type 0
IsAscending [] = Unit
IsAscending (x ∷ xs) = Before x xs × IsAscending xs

gt-not_gt : (x y : String) → compare x y ≡ Ordering.gt → compare y x ≢ Ordering.gt
gt-not_gt x y h k = ground (arith, flip-compare x y, h, k)

sort_insert-After :
    (z x : String) (ys : List String)
    → compare z x ≢ Ordering.gt
    → After z ys
    → After z (sort_insert x ys)
unfolding sort_insert
sort_insert-After z x [] h k = h
sort_insert-After z x (y ∷ ys) h k =
    elim (compare x y)
      as (λ o. After z (elim o [ Ordering.gt ↦ y ∷ sort_insert x ys | _ ↦ x ∷ y ∷ ys ])) [
        | Ordering.lt ↦ h
        | Ordering.eq ↦ h
        | Ordering.gt ↦ k
      ]

sort_insert-IsSorted : (x : String) (ys : List String) → IsSorted ys → IsSorted (sort_insert x ys)
unfolding sort_insert
sort_insert-IsSorted x [] s = (tt, tt)
sort_insert-IsSorted x (y ∷ ys) s =
    (elim (compare x y)
        as (λ o.
          compare x y ≡ o
          → IsSorted (elim o [ Ordering.gt ↦ y ∷ sort_insert x ys | _ ↦ x ∷ y ∷ ys ])) [
            | Ordering.lt ↦ λ h. (λ k. cc (h, k), s)
            | Ordering.eq ↦ λ h. (λ k. cc (h, k), s)
            | Ordering.gt ↦
                λ h. (sort_insert-After y x ys (gt-not_gt x y h) s.0, sort_insert-IsSorted x ys s.1)
          ])
      refl

sort-IsSorted : (xs : List String) → IsSorted (sort xs)
unfolding sort
sort-IsSorted [] = tt
sort-IsSorted (x ∷ xs) = sort_insert-IsSorted x (sort xs) (sort-IsSorted xs)

differs-lt :
    (x y : String) → compare x y ≢ Ordering.gt → str_eq x y ≡ false → compare x y ≡ Ordering.lt
differs-lt x y h k =
    (elim (compare x y) as (λ o. compare x y ≡ o → o ≡ Ordering.lt) [
      | Ordering.lt ↦ λ e. refl
      | Ordering.eq ↦ λ e. absurd (ground (arith, k, eq_iff x y, path_by_compare x y e))
      | Ordering.gt ↦ λ e. absurd (h e)
    ])
      refl

-- What `dedup_from` returns begins with its first argument.
dedup_from-Before :
    (z x : String) (ys : List String) → compare z x ≡ Ordering.lt → Before z (dedup_from x ys)
unfolding dedup_from
dedup_from-Before z x [] h = h
dedup_from-Before z x (y ∷ ys) h =
    if_cases (Before z) (str_eq x y) _ _ (λ _. dedup_from-Before z x ys h) (λ _. h)

dedup_from-IsAscending :
    (x : String) (ys : List String) → IsSorted (x ∷ ys) → IsAscending (dedup_from x ys)
unfolding dedup_from
dedup_from-IsAscending x [] s = (tt, tt)
dedup_from-IsAscending x (y ∷ ys) s =
    if_cases IsAscending (str_eq x y) _ _
      (λ same.
        dedup_from-IsAscending x ys
          (subst (λ z. IsSorted (z ∷ ys)) (sym ((eq_iff x y).0 same)) s.1))
      (λ differs.
        (dedup_from-Before x y ys (differs-lt x y s.0 differs), dedup_from-IsAscending y ys s.1))

dedup-IsAscending : (xs : List String) → IsSorted xs → IsAscending (dedup xs)
unfolding dedup
dedup-IsAscending [] s = tt
dedup-IsAscending (x ∷ xs) s = dedup_from-IsAscending x xs s

contains-sort_insert :
    (id x : String) (ys : List String)
    → contains id (sort_insert x ys) ≡ (str_eq x id || contains id ys)
unfolding sort_insert
contains-sort_insert id x [] = refl
contains-sort_insert id x (y ∷ ys) = ground (arith, contains-sort_insert id x ys)

contains-sort : (id : String) (xs : List String) → contains id (sort xs) ≡ contains id xs
unfolding sort
contains-sort id [] = refl
contains-sort id (x ∷ xs) = ground (arith, contains-sort_insert id x (sort xs), contains-sort id xs)

contains-dedup_from :
    (id x : String) (ys : List String)
    → contains id (dedup_from x ys) ≡ (str_eq x id || contains id ys)
unfolding dedup_from
contains-dedup_from id x [] = refl
contains-dedup_from id x (y ∷ ys) =
    ground (arith, contains-dedup_from id x ys, contains-dedup_from id y ys, eq_iff x y)

contains-dedup : (id : String) (xs : List String) → contains id (dedup xs) ≡ contains id xs
unfolding dedup
contains-dedup id [] = refl
contains-dedup id (x ∷ xs) = contains-dedup_from id x xs

-- The identifiers that `lock_ids_in_order` locks stand in strictly ascending order, so none of them
-- twice and for every caller in the same order, and they are those that it was given.
pub dedup-sort :
    (ids : List String)
    → IsAscending (dedup (sort ids))
      × ((id : String) → contains id (dedup (sort ids)) ≡ contains id ids)
dedup-sort ids = (
  dedup-IsAscending (sort ids) (sort-IsSorted ids),
  λ id. contains-dedup id (sort ids) ∙ contains-sort id ids,
)
