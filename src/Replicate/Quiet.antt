-- ===== src/Replicate/Quiet.antt =====
-- Steps of replicate.c that make no system call themselves, one rule for each way to build a step.
pub mod Steps
pub mod Operations
use ioapps.Base.{
  ℕ, ◌≡◌, refl, sym, ap, ◌∙◌, if◌then◌else◌, Bool, true, false, List, Option, none, some,
}
use ioapps.Base.Int.{ℤ}
use ioapps.Base.Run.{Run, ok, abort, ok-injective, >>=-eq-ok}
use ioapps.Base.Run
use ioapps.Fdmap.{FdMap, FdItem, FdUsage, ProcessHashItem}
use ioapps.Fdmap.Clone.{load}
use ioapps.HashTable.{HashTable}
use ioapps.Replicate.World.{
  World, M, ret, after, ◌>>=◌, crash, lift, gets, load_map, store_map, free_map, new_map, get_table,
  set_table, set_usage, set_processes, simulate, Call,
}

-- Wherever the step goes through, the calls are those of before.
pub record Quiet {S A : Type 0} (m : M S A) : Type 0 where
  pub at : (w w' : World S) (a : A) → m w ≡ ok (a, w') → w'.calls ≡ w.calls

-- The two parts of a result.
result_calls :
    {S A : Type 0} (a b : A) (w w' : World S)
    → ◌≡◌ {A = Run (A × World S)} (ok (a, w)) (ok (b, w'))
    → w'.calls ≡ w.calls
result_calls a b w w' e = ap (λ p. p.1.calls) (sym (ok-injective e))

module _ {S A : Type 0} where
  pub Quiet-ret : (a : A) → Quiet {S = S} (ret a)
  unfolding ret
  Quiet-ret a = record { at = λ w w' b e. result_calls a b w w' e }

  pub Quiet-crash : Quiet {S = S} {A = A} crash
  unfolding crash
  Quiet-crash = record { at = λ w w' b e. cc }

  pub Quiet-lift : (r : Run A) → Quiet {S = S} (lift r)
  unfolding lift
  Quiet-lift abort = record { at = λ w w' b e. cc }
  Quiet-lift (ok a) = record { at = λ w w' b e. result_calls a b w w' e }

  pub Quiet-gets : (f : World S → A) → Quiet (gets f)
  unfolding gets
  Quiet-gets f = record { at = λ w w' b e. result_calls (f w) b w w' e }

  pub Quiet-if : (b : Bool) {m n : M S A} → Quiet m → Quiet n → Quiet (if b then m else n)
  Quiet-if true km kn = km
  Quiet-if false km kn = kn

  -- A branch that is not taken may call the system.
  pub Quiet-not : (b : Bool) (m n : M S A) → b ≡ false → Quiet n → Quiet (if b then m else n)
  Quiet-not true m n off kn = cc
  Quiet-not false m n off kn = kn

module _ {S A B : Type 0} where
  after-ok :
      (r : Run (A × World S)) (f : A → M S B) (b : B) (w' : World S)
      → after f r ≡ ok (b, w')
      → (a : A) × (u : World S) × (r ≡ ok (a, u)) × (f a u ≡ ok (b, w'))
  after-ok abort f b w' e = cc
  after-ok (ok (a, u)) f b w' e = (a, u, refl, e)

  pub Quiet-bind : {m : M S A} {f : A → M S B} → Quiet m → ((a : A) → Quiet (f a)) → Quiet (m >>= f)
  unfolding ◌>>=◌
  Quiet-bind {m} {f} km kf = record {
    at = λ w w' b e.
        let (a, u, first, second) = after-ok (m w) f b w' e in
        (kf a).at u w' b second ∙ km.at w u a first;
  }

  pub Quiet-Option :
      (f : Option A → M S B)
      → Quiet (f none)
      → ((a : A) → Quiet (f (some a)))
      → (o : Option A) → Quiet (f o)
  Quiet-Option f n s none = n
  Quiet-Option f n s (some a) = s a

module _ {S : Type 0} where
  pub Quiet-store_map : (p : ℕ) (m : FdMap) → Quiet {S = S} (store_map p m)
  unfolding store_map
  Quiet-store_map p m = record { at = λ w w' b e. result_calls tt b _ w' e }

  pub Quiet-free_map : (p : ℕ) → Quiet {S = S} (free_map p)
  unfolding free_map
  Quiet-free_map p = record { at = λ w w' b e. result_calls tt b _ w' e }

  pub Quiet-new_map : (m : FdMap) → Quiet {S = S} (new_map m)
  unfolding new_map
  Quiet-new_map m = record { at = λ w w' b e. result_calls _ b _ w' e }

  pub Quiet-load_map : (p : ℕ) → Quiet {S = S} (load_map p)
  unfolding load_map
  Quiet-load_map p = record { at = λ w w' b e. (Quiet-lift (load w.maps p)).at w w' b e }

  pub Quiet-get_table : (i : ℕ) → Quiet {S = S} (get_table i)
  unfolding get_table
  Quiet-get_table i = record { at = λ w w' b e. result_calls _ b _ w' e }

  pub Quiet-set_table : (i : ℕ) (t : HashTable FdItem) → Quiet {S = S} (set_table i t)
  unfolding set_table
  Quiet-set_table i t = record { at = λ w w' b e. result_calls tt b _ w' e }

  pub Quiet-set_usage : (t : HashTable FdUsage) → Quiet {S = S} (set_usage t)
  unfolding set_usage
  Quiet-set_usage t = record { at = λ w w' b e. result_calls tt b _ w' e }

  pub Quiet-set_processes : (t : HashTable ProcessHashItem) → Quiet {S = S} (set_processes t)
  unfolding set_processes
  Quiet-set_processes t = record { at = λ w w' b e. result_calls tt b _ w' e }

  pub Quiet-simulate : (f : S → Run S) → Quiet (simulate f)
  unfolding simulate
  Quiet-simulate f = record {
    at = λ w w' b e.
        let (s, ran, rest) = >>=-eq-ok (f w.sim_state) _ e in result_calls tt b _ w' rest;
  }

-- The rules for the steps that are no choice.
pub ruleset quiet_rules = (
  Quiet-ret, Quiet-crash, Quiet-lift, Quiet-gets, Quiet-bind, Quiet-if, Quiet-store_map,
  Quiet-free_map, Quiet-new_map, Quiet-load_map, Quiet-get_table, Quiet-set_table, Quiet-set_usage,
  Quiet-set_processes, Quiet-simulate,
)
