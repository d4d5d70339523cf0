-- ===== src/Prelude/Sorting.antt =====
-- `ORDER BY`: insertion sort by a Boolean order, and what its result is worth.
use mathlib.Core.List.{Memᴰ}
use media_sync.Prelude.Tests.{if◌then◌else◌, Bool-cases}
use media_sync.Prelude.Lists.{All, All-imp, length, mem-cons_map}
use Prim.Native.Nat.{suc}
use mathlib.Core.Path.{◌≡◌, refl}
use mathlib.Core.Logic.{inl, inr}
use mathlib.Core.Bool.{Bool, true, false}
use mathlib.Core.List.{List, [], ◌∷◌}
use native.Mathlib.Omega.{arith}

-- What a strict order has to satisfy for its sorting to be the database's.
pub record IsOrder {ℓ} {A : Type ℓ} (before : A → A → Bool) : Type ℓ where
  pub asymmetric : (a b : A) → before a b ≡ true → before b a ≡ false
  pub negative : (a b c : A) → before a b ≡ false → before b c ≡ false → before a c ≡ false

-- Nothing that stands later comes before.
abbrev pub IsSorted {ℓ} : {A : Type ℓ} → (A → A → Bool) → List A → Type 0
IsSorted before [] = Unit
IsSorted before (x ∷ xs) = All (λ y. before y x ≡ false) xs × IsSorted before xs

mem-swap {ℓ} : {A : Type ℓ} {a x y : A} {xs : List A} → Memᴰ a (x ∷ y ∷ xs) → Memᴰ a (y ∷ x ∷ xs)
mem-swap (Memᴰ.head e) = Memᴰ.tail (Memᴰ.head e)
mem-swap (Memᴰ.tail (Memᴰ.head e)) = Memᴰ.head e
mem-swap (Memᴰ.tail (Memᴰ.tail m)) = Memᴰ.tail (Memᴰ.tail m)

module _ {ℓ} {A : Type ℓ} (before : A → A → Bool) where
  unfoldable pub insert_sorted : A → List A → List A
  insert_sorted x [] = x ∷ []
  insert_sorted x (y ∷ ys) = if before y x then y ∷ insert_sorted x ys else x ∷ y ∷ ys

  unfoldable pub sort : List A → List A
  sort [] = []
  sort (x ∷ xs) = insert_sorted x (sort xs)

  insert_sorted-All :
      (P : A → Type 0) (x : A) (ys : List A) → P x → All P ys → All P (insert_sorted x ys)
  unfolding insert_sorted
  insert_sorted-All P x [] p h = (p, tt)
  insert_sorted-All P x (y ∷ ys) p h = elim (Bool-cases (before y x)) [
    | inl e ↦ rw e (h.0, insert_sorted-All P x ys p h.1)
    | inr e ↦ rw e (p, h)
  ]

  pub sort-All : (P : A → Type 0) (xs : List A) → All P xs → All P (sort xs)
  unfolding sort
  sort-All P [] h = tt
  sort-All P (x ∷ xs) h = insert_sorted-All P x (sort xs) h.0 (sort-All P xs h.1)

  All-insert_sorted :
      (P : A → Type 0) (x : A) (ys : List A) → All P (insert_sorted x ys) → P x × All P ys
  unfolding insert_sorted
  All-insert_sorted P x [] h = h
  All-insert_sorted P x (y ∷ ys) h = elim (Bool-cases (before y x)) [
    | inl e ↦
        let h' = (rw e at h) in
        let (here, rest) = All-insert_sorted P x ys h'.1 in (here, (h'.0, rest))
    | inr e ↦ rw e at h
  ]

  pub All-sort : (P : A → Type 0) (xs : List A) → All P (sort xs) → All P xs
  unfolding sort
  All-sort P [] h = tt
  All-sort P (x ∷ xs) h =
      let (here, rest) = All-insert_sorted P x (sort xs) h in (here, All-sort P xs rest)

  length-insert_sorted : (x : A) (ys : List A) → length (insert_sorted x ys) ≡ suc (length ys)
  unfolding insert_sorted
  length-insert_sorted x [] = refl
  length-insert_sorted x (y ∷ ys) = ground (arith, length-insert_sorted x ys)

  pub length-sort : (xs : List A) → length (sort xs) ≡ length xs
  unfolding sort
  length-sort [] = refl
  length-sort (x ∷ xs) = ground (arith, length-sort xs, length-insert_sorted x (sort xs))

  pub sort-nil : (xs : List A) → sort xs ≡ [] → xs ≡ []
  sort-nil [] h = refl
  sort-nil (x ∷ xs) h = ground (arith, length-sort (x ∷ xs))

  pub sort-singleton : (xs : List A) (a : A) → sort xs ≡ a ∷ [] → xs ≡ a ∷ []
  unfolding sort insert_sorted
  sort-singleton [] a h = h
  sort-singleton (x ∷ []) a h = h
  sort-singleton (x ∷ y ∷ ys) a h = ground (arith, length-sort (x ∷ y ∷ ys))

  mem-insert_sorted : (a x : A) (ys : List A) → Memᴰ a (insert_sorted x ys) → Memᴰ a (x ∷ ys)
  unfolding insert_sorted
  mem-insert_sorted a x [] m = m
  mem-insert_sorted a x (y ∷ ys) m = elim (Bool-cases (before y x)) [
    | inl e ↦ mem-swap (mem-cons_map (mem-insert_sorted a x ys) (rw e at m))
    | inr e ↦ rw e at m
  ]

  pub mem-sort : (a : A) (xs : List A) → Memᴰ a (sort xs) → Memᴰ a xs
  unfolding sort
  mem-sort a [] m = m
  mem-sort a (x ∷ xs) m = mem-cons_map (mem-sort a xs) (mem-insert_sorted a x (sort xs) m)

module _ {ℓ} {A : Type ℓ} (before : A → A → Bool) (order : IsOrder before) where
  insert_sorted-IsSorted :
      (x : A) (ys : List A) → IsSorted before ys → IsSorted before (insert_sorted before x ys)
  unfolding insert_sorted
  insert_sorted-IsSorted x [] h = (tt, tt)
  insert_sorted-IsSorted x (y ∷ ys) h = elim (Bool-cases (before y x)) [
    | inl e ↦ rw e (
      insert_sorted-All before (λ z. before z y ≡ false) x ys (order.asymmetric y x e) h.0,
      insert_sorted-IsSorted x ys h.1,
    )
    | inr e ↦ rw e ((e, All-imp ys (λ z k. order.negative z y x k e) h.0), h)
  ]

  -- `ORDER BY` gives the rows in order.
  pub sort-IsSorted : (xs : List A) → IsSorted before (sort before xs)
  unfolding sort
  sort-IsSorted [] = tt
  sort-IsSorted (x ∷ xs) = insert_sorted-IsSorted x (sort before xs) (sort-IsSorted xs)
