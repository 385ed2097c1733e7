-- ===== src/Prelude/Maps.antt =====
-- A Go map as an association list with each key at most once, and the laws of its operations.
use Prim.Native.Nat.{suc, ◌≤◌}
use mathlib.Core.Path.{◌≡◌, refl, subst₂}
use mathlib.Core.Option.{Option, none, some}
use mathlib.Core.List.{List, [], ◌∷◌}
use native.Mathlib.Omega.{arith}
use dbbat.Prelude.Tests.{if◌then◌else◌, is_some, Bool-cases}
use mathlib.Core.Logic.{inl, inr}
use mathlib.Core.Bool.{Bool}
use dbbat.Prelude.Lists.{length, keep, All}
use dbbat.Prelude.Keys.{Eq, ◌=?◌}

module _ {ℓ κ} {K : Type ℓ} {V : Type κ} ⦃e : Eq K⦄ where
  -- `m[k]`
  unfoldable pub lookup : K → List (K × V) → Option V
  lookup k [] = none
  lookup k ((j, v) ∷ m) = if j =? k then some v else lookup k m

  -- `m[k] = v`
  unfoldable pub insert : K → V → List (K × V) → List (K × V)
  insert k v [] = (k, v) ∷ []
  insert k v ((j, w) ∷ m) = if j =? k then (k, v) ∷ m else (j, w) ∷ insert k v m

  -- `delete(m, k)`
  unfoldable pub delete : K → List (K × V) → List (K × V)
  delete k [] = []
  delete k ((j, w) ∷ m) = if j =? k then delete k m else (j, w) ∷ delete k m

  pub lookup-insert :
      (k j : K) (v : V) (m : List (K × V))
      → lookup j (insert k v m) ≡ (if k =? j then some v else lookup j m)
  unfolding lookup insert
  lookup-insert k j v [] = refl
  lookup-insert k j v ((i, w) ∷ m) =
      ground (arith, e.beq_iff k j, e.beq_iff i k, e.beq_iff i j, lookup-insert k j v m)

  pub lookup-insert_self : (k : K) (v : V) (m : List (K × V)) → lookup k (insert k v m) ≡ some v
  lookup-insert_self k v m = rw (lookup-insert k k v m, (e.beq_iff k k).1 refl)

  pub lookup-delete :
      (k j : K) (m : List (K × V)) → lookup j (delete k m) ≡ (if k =? j then none else lookup j m)
  unfolding lookup delete
  lookup-delete k j [] = ground arith
  lookup-delete k j ((i, w) ∷ m) =
      ground (arith, e.beq_iff k j, e.beq_iff i k, e.beq_iff i j, lookup-delete k j m)

  pub length-insert :
      (k : K) (v : V) (m : List (K × V))
      → length (insert k v m) ≡ (if is_some (lookup k m) then length m else suc (length m))
  unfolding lookup insert
  length-insert k v [] = refl
  length-insert k v ((i, w) ∷ m) = ground (arith, length-insert k v m)

  pub length-delete-le : (k : K) (m : List (K × V)) → length (delete k m) ≤ length m
  unfolding delete
  length-delete-le k [] = omega arith
  length-delete-le k ((i, w) ∷ m) = ground (arith, length-delete-le k m)

  -- Deleting a key that is there makes the map shorter.
  pub length-delete_of_some :
      (k : K) (m : List (K × V)) (v : V)
      → lookup k m ≡ some v
      → suc (length (delete k m)) ≤ length m
  unfolding lookup delete
  length-delete_of_some k [] v h = absurd (ground arith)
  length-delete_of_some k ((i, w) ∷ m) v h =
      ground (arith, length-delete_of_some k m v, length-delete-le k m)

  -- No key stands twice, as in a Go map.
  abbrev pub Unique : List (K × V) → Type κ
  Unique [] = Unit {κ}
  Unique ((k, v) ∷ m) = (lookup k m ≡ none) × Unique m

  pub insert-Unique : (k : K) (v : V) (m : List (K × V)) → Unique m → Unique (insert k v m)
  unfolding insert
  insert-Unique k v [] u = (unfold lookup in refl, tt)
  insert-Unique k v ((j, w) ∷ m) (n, u) = elim (Bool-cases (e.beq j k)) [
    | inl same ↦ rw same (rw (← (e.beq_iff j k).0 same) n, u)
    | inr other ↦ rw other (
        (
          ground (arith, lookup-insert k j v m, e.beq_iff k j, e.beq_iff j k),
          insert-Unique k v m u,
        ))
  ]

  pub delete-Unique : (k : K) (m : List (K × V)) → Unique m → Unique (delete k m)
  unfolding delete
  delete-Unique k [] u = tt
  delete-Unique k ((j, w) ∷ m) (n, u) = elim (Bool-cases (e.beq j k)) [
    | inl same ↦ rw same (delete-Unique k m u)
    | inr other ↦ rw other ((ground (arith, lookup-delete k j m), delete-Unique k m u))
  ]

  -- Deleting the entries whose value fails a test, as a loop over the map does.
  lookup-keep-none :
      (p : V → Bool) (k : K) (m : List (K × V))
      → lookup k m ≡ none
      → lookup k (keep (λ x. p x.1) m) ≡ none
  unfolding lookup keep
  lookup-keep-none p k [] h = refl
  lookup-keep-none p k ((j, w) ∷ m) h = ground (arith, lookup-keep-none p k m)

  pub lookup-keep :
      (p : V → Bool) (k : K) (m : List (K × V))
      → Unique m
      → lookup k (keep (λ x. p x.1) m)
        ≡ elim (lookup k m) [ none ↦ none | some v ↦ if p v then some v else none ]
  unfolding lookup keep
  lookup-keep p k [] u = refl
  lookup-keep p k ((j, w) ∷ m) (n, u) = elim (Bool-cases (e.beq j k)) [
    | inl same ↦
        ground (arith, same, (e.beq_iff j k).0 same, lookup-keep-none p j m n, lookup-keep p k m u)
    | inr other ↦ ground (arith, other, lookup-keep p k m u)
  ]

  pub keep-Unique : (p : V → Bool) (m : List (K × V)) → Unique m → Unique (keep (λ x. p x.1) m)
  unfolding keep
  keep-Unique p [] u = tt
  keep-Unique p ((j, w) ∷ m) (n, u) = elim (Bool-cases (p w)) [
    | inl e ↦ rw e (lookup-keep-none p j m n, keep-Unique p m u)
    | inr e ↦ rw e (keep-Unique p m u)
  ]

  -- What holds of every entry.
  module _ {μ} (P : K × V → Type μ) where
    pub All-insert : (k : K) (v : V) (m : List (K × V)) → P (k, v) → All P m → All P (insert k v m)
    unfolding insert
    All-insert k v [] p h = (p, tt)
    All-insert k v ((j, w) ∷ m) p (h, hs) = elim (Bool-cases (e.beq j k)) [
      | inl same ↦ rw same (p, hs)
      | inr other ↦ rw other (h, All-insert k v m p hs)
    ]

    pub All-delete : (k : K) (m : List (K × V)) → All P m → All P (delete k m)
    unfolding delete
    All-delete k [] h = tt
    All-delete k ((j, w) ∷ m) (h, hs) = elim (Bool-cases (e.beq j k)) [
      | inl same ↦ rw same (All-delete k m hs)
      | inr other ↦ rw other (h, All-delete k m hs)
    ]

    pub All-lookup : (k : K) (v : V) (m : List (K × V)) → lookup k m ≡ some v → All P m → P (k, v)
    unfolding lookup
    All-lookup k v [] found h = absurd (ground arith)
    All-lookup k v ((j, w) ∷ m) found (h, hs) = elim (Bool-cases (e.beq j k)) [
      | inl same ↦ subst₂ (λ i u. P (i, u)) ((e.beq_iff j k).0 same) (ground (arith, same)) h
      | inr other ↦ All-lookup k v m (ground (arith, other)) hs
    ]
