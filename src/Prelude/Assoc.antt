-- ===== src/Prelude/Assoc.antt =====
-- A map from numbers as an association list, for Rust's `HashMap<u8, V>`.
use Prim.Native.Nat.{ℕ}
use mathlib.Core.Path.{◌≡◌, refl}
use mathlib.Core.Option.{Option, none, some}
use mathlib.Core.List.{List, [], ◌∷◌}
use native.Mathlib.Omega.{arith}
use mathlib.Core.Logic.{inl, inr}
use web3_pi_ups_service.Prelude.Tests.{◌==◌, if◌then◌else◌, Bool-cases}
use web3_pi_ups_service.Prelude.Lists.{All, OnSome}

module _ {ℓ} {V : Type ℓ} where
  abbrev pub lookup : ℕ → List (ℕ × V) → Option V
  lookup key [] = none
  lookup key (entry ∷ entries) = if entry.0 == key then some entry.1 else lookup key entries

  -- `HashMap::insert`: the entry of the key is replaced where it stands.
  abbrev pub insert : ℕ → V → List (ℕ × V) → List (ℕ × V)
  insert key value [] = (key, value) ∷ []
  insert key value (entry ∷ entries) =
      let rest = insert key value entries in
      if entry.0 == key then (key, value) ∷ entries else entry ∷ rest

  pub lookup-insert :
      (key other : ℕ) (value : V) (entries : List (ℕ × V))
      → lookup other (insert key value entries)
        ≡ (if key == other then some value else lookup other entries)
  lookup-insert key other value [] = refl
  lookup-insert key other value (entry ∷ entries) =
      ground (arith, lookup-insert key other value entries)

  -- A predicate on all entries, and on the value that is looked up.
  pub All-insert {κ} :
      (P : ℕ × V → Type κ) (key : ℕ) (value : V) (entries : List (ℕ × V))
      → P (key, value)
      → All P entries
      → All P (insert key value entries)
  All-insert P key value [] p h = (p, tt)
  All-insert P key value (entry ∷ entries) p h = elim (Bool-cases (entry.0 == key)) [
    | inl same ↦ rw same (p, h.1)
    | inr other ↦ rw other (h.0, All-insert P key value entries p h.1)
  ]

  pub All-lookup {κ} :
      (P : V → Type κ) (key : ℕ) (entries : List (ℕ × V))
      → All (λ e. P e.1) entries
      → OnSome P (lookup key entries)
  All-lookup P key [] h = tt
  All-lookup P key (entry ∷ entries) h = elim (Bool-cases (entry.0 == key)) [
    | inl same ↦ rw same h.0
    | inr other ↦ rw other (All-lookup P key entries h.1)
  ]
