-- ===== src/Binary/Reads.antt =====
-- What every reader of a trace respects on any bytes, well formed or not.
pub mod Records
use ioapps.Base.{
  ℕ, zero, suc, ◌+◌, ◌*◌, ◌^◌, ◌<◌, ◌≤◌, ◌≡◌, refl, sym, ◌⊎◌, inl, inr, fun_ext, List, [], ◌∷◌,
  ◌++◌, append_assoc, append-nil, All, length, take, Bool, true, false, if◌then◌else◌, drop,
  length-append, length-drop, take-append_le, drop-append_le, arith,
}
use mathlib.Core.Path.{subst}
use ioapps.Binary.Stream.{
  Reader, Outcome, got, failed, fault, pure, continue, ◌>>=◌, read_int32, read_int64, read_name,
  c_string, max_string,
}

-- A result in `P` and a rest that is no longer than the file. More bytes behind the file join the
-- rest of a success, and do not mend an overrun.
pub record Reads {A : Type 0} (r : Reader A) (P : A → Type 0) : Type 0 where
  pub value : (bytes : List ℕ) (a : A) (rest : List ℕ) → r bytes ≡ got (a, rest) → P a
  pub shorter :
      (bytes : List ℕ) (a : A) (rest : List ℕ)
      → r bytes ≡ got (a, rest)
      → length rest ≤ length bytes
  pub extends :
      (bytes more : List ℕ) (a : A) (rest : List ℕ)
      → r bytes ≡ got (a, rest)
      → r (bytes ++ more) ≡ got (a, rest ++ more)
  pub overruns : (bytes more : List ℕ) → r bytes ≡ fault → r (bytes ++ more) ≡ fault

abbrev pub Any : {A : Type 0} → A → Type 0
Any a = Unit {0}

-- A block that succeeded or overran, taken apart.
module _ {A B : Type 0} (f : A → Reader B) where
  pub continue-eq-got :
      (o : Outcome (A × List ℕ)) {b : B} {rest : List ℕ}
      → continue f o ≡ got (b, rest)
      → (a : A) × (mid : List ℕ) × (o ≡ got (a, mid)) × (f a mid ≡ got (b, rest))
  continue-eq-got (got (a, mid)) e = (a, mid, refl, e)
  continue-eq-got failed e = cc
  continue-eq-got fault e = cc

  pub continue-eq-fault :
      (o : Outcome (A × List ℕ))
      → continue f o ≡ fault
      → (o ≡ fault) ⊎ ((a : A) × (mid : List ℕ) × (o ≡ got (a, mid)) × (f a mid ≡ fault))
  continue-eq-fault (got (a, mid)) e = inr (a, mid, refl, e)
  continue-eq-fault failed e = cc
  continue-eq-fault fault e = inl refl

module _ {A B : Type 0} where
  pub Reads-bind :
      {P : A → Type 0} {Q : B → Type 0} {m : Reader A} {f : A → Reader B}
      → Reads m P
      → ((a : A) → P a → Reads (f a) Q)
      → Reads (m >>= f) Q
  Reads-bind {m} {f} hm hf = record {
    value = λ bytes b rest e.
        let (a, mid, first, second) = continue-eq-got f (m bytes) e in
        (hf a (hm.value bytes a mid first)).value mid b rest second;
    shorter = λ bytes b rest e.
        let (a, mid, first, second) = continue-eq-got f (m bytes) e in
        let inner = (hf a (hm.value bytes a mid first)).shorter mid b rest second in
        omega (arith, hm.shorter bytes a mid first);
    extends = λ bytes more b rest e.
        let (a, mid, first, second) = continue-eq-got f (m bytes) e in
        rw (hm.extends bytes more a mid first)
          ((hf a (hm.value bytes a mid first)).extends mid more b rest second);
    overruns = λ bytes more e. elim (continue-eq-fault f (m bytes) e) [
      | inl first ↦ rw (hm.overruns bytes more first)
      | inr (a, mid, first, second) ↦
          rw (hm.extends bytes more a mid first)
            ((hf a (hm.value bytes a mid first)).overruns mid more second)
    ];
  }

pub Reads-pure : {A : Type 0} {P : A → Type 0} {a : A} → P a → Reads (pure a) P
Reads-pure {P} p = record {
  value = λ bytes b rest e. subst P (cc) p;
  shorter = λ bytes b rest e. ground arith;
  extends = λ bytes more b rest e. ground arith;
  overruns = λ bytes more e. cc;
}

int32_shorter :
    (bytes : List ℕ) (a : ℕ) (rest : List ℕ)
    → read_int32 bytes ≡ got (a, rest)
    → length rest ≤ length bytes
unfolding read_int32
int32_shorter (a ∷ b ∷ c ∷ d ∷ r) v rest e = ground arith
int32_shorter _ v rest e = cc

int32_extends :
    (bytes more : List ℕ) (a : ℕ) (rest : List ℕ)
    → read_int32 bytes ≡ got (a, rest)
    → read_int32 (bytes ++ more) ≡ got (a, rest ++ more)
unfolding read_int32
int32_extends (a ∷ b ∷ c ∷ d ∷ r) more v rest e = ground arith
int32_extends _ more v rest e = cc

int32_overruns :
    (bytes more : List ℕ) → read_int32 bytes ≡ fault → read_int32 (bytes ++ more) ≡ fault
unfolding read_int32
int32_overruns (a ∷ b ∷ c ∷ d ∷ r) more e = cc
int32_overruns _ more e = cc

pub Reads-int32 : Reads read_int32 Any
Reads-int32 = record {
  value = λ bytes a rest e. tt;
  shorter = int32_shorter;
  extends = int32_extends;
  overruns = int32_overruns;
}

-- `read_int64` is two halves.
abbrev halves : Reader ℕ
halves = do lo ← read_int32; hi ← read_int32; pure (lo + 2 ^ 32 * hi)

halves_lem : (bytes : List ℕ) → read_int64 bytes ≡ halves bytes
unfolding read_int64 read_int32
halves_lem (a ∷ b ∷ c ∷ d ∷ e ∷ f ∷ g ∷ h ∷ r) = refl
halves_lem _ = refl

pub Reads-int64 : Reads read_int64 Any
Reads-int64 =
    subst (λ r. Reads r Any) (sym (fun_ext halves_lem))
      (Reads-bind Reads-int32 (λ lo _. Reads-bind Reads-int32 (λ hi _. Reads-pure tt)))

pub Reads-name : (len : ℕ) → Reads (read_name len) Any
unfolding read_name
Reads-name len = record {
  value = λ bytes a rest e. tt;
  shorter = λ bytes a rest e. ground (arith, length-drop len bytes);
  extends = λ bytes more a rest e. ground (
    arith,
    length-append bytes more,
    take-append_le len bytes more,
    drop-append_le len bytes more,
  );
  overruns = λ bytes more e. ground (arith, length-append bytes more);
}

pub Reads-failed : {A : Type 0} {P : A → Type 0} → Reads {A = A} (λ bytes. failed) P
Reads-failed = record {
  value = λ bytes b rest e. absurd (cc);
  shorter = λ bytes b rest e. absurd (cc);
  extends = λ bytes more b rest e. absurd (cc);
  overruns = λ bytes more e. absurd (cc);
}

pub Reads-if :
    {A : Type 0} {P : A → Type 0} (b : Bool) {r r' : Reader A}
    → Reads r P
    → Reads r' P
    → Reads (if b then r else r') P
Reads-if true h k = h
Reads-if false h k = k
