-- ===== src/Prelude/Keys.antt =====
-- Keys with a Boolean equality, as instances for the maps.
use Prim.Native.Nat.{ℕ}
use Prim.Native.String.{String}
use mathlib.Core.Path.{◌≡◌}
use mathlib.Core.Logic.{◌↔◌, ◌≢◌}
use mathlib.Core.Bool.{Bool, true, false, ◌&&◌}
use mathlib.Core.List.{List, [], ◌∷◌}
use text.Mathlib.Text.{◌==◌ as string_beq}
use text.Mathlib.TextEquality.{eq_iff}
use native.Mathlib.Omega.{arith}
use dbbat.Prelude.Tests.{◌==◌ as nat_beq, ==_iff}

-- What a map needs of its keys.
pub record Eq {ℓ} (K : Type ℓ) : Type ℓ where
  pub beq : K → K → Bool
  pub beq_iff : (j k : K) → (beq j k ≡ true) ↔ (j ≡ k)

infix 50 ◌=?◌
abbrev pub ◌=?◌ {ℓ} : {K : Type ℓ} ⦃interface : Eq K⦄ → K → K → Bool
◌=?◌ ⦃interface⦄ = interface.beq

instance abbrev pub string_eq : Eq String
string_eq = record { beq = string_beq; beq_iff = eq_iff }

instance abbrev pub nat_eq : Eq ℕ
nat_eq = record { beq = nat_beq; beq_iff = ==_iff }

pub ne_of_test {ℓ} : {K : Type ℓ} ⦃e : Eq K⦄ (j k : K) → (j =? k) ≡ false → j ≢ k
ne_of_test ⦃e⦄ j k h same = ground (arith, h, (e.beq_iff j k).1 same)

abbrev nats_beq : List ℕ → List ℕ → Bool
nats_beq [] [] = true
nats_beq [] (k ∷ ks) = false
nats_beq (j ∷ js) [] = false
nats_beq (j ∷ js) (k ∷ ks) = nat_beq j k && nats_beq js ks

pub nats_beq_iff : (js ks : List ℕ) → (nats_beq js ks ≡ true) ↔ (js ≡ ks)
nats_beq_iff [] [] = ground arith
nats_beq_iff [] (k ∷ ks) = ground arith
nats_beq_iff (j ∷ js) [] = ground arith
nats_beq_iff (j ∷ js) (k ∷ ks) = ground (arith, ==_iff j k, nats_beq_iff js ks)

instance abbrev pub nats_eq : Eq (List ℕ)
nats_eq = record { beq = nats_beq; beq_iff = nats_beq_iff }
