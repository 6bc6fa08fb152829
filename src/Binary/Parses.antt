-- ===== src/Binary/Parses.antt =====
-- What a reader makes of the bytes that the format prescribes, whatever follows them.
pub mod Records
use ioapps.Base.{
  ℕ, zero, suc, ◌+◌, ◌*◌, ◌^◌, ◌<◌, ◌≡◌, refl, sym, ap, List, [], ◌∷◌, ◌++◌, append_assoc,
  append-nil, All, length, take-length, drop-length, length-append, arith,
}
use ioapps.Binary.Format.{IsInt32, IsInt64, IsName, IsInfo, info_bytes}
use ioapps.Binary.Read.{bin_read_info}
use ioapps.Binary.Stream.{
  Reader, got, pure, ◌>>=◌, read_int32, read_int64, read_name, c_string, int32, int64, max_string,
}
use ioapps.Trace.{OpInfo}

-- `r` takes exactly `bytes` off the front of the file and returns `a`.
pub record Parses {A : Type 0} (r : Reader A) (bytes : List ℕ) (a : A) : Type 0 where
  pub run : (rest : List ℕ) → r (bytes ++ rest) ≡ got (a, rest)

module _ {A B : Type 0} where
  pub Parses-bind :
      {m : Reader A} (f : A → Reader B) {xs ys : List ℕ} {a : A} {b : B}
      → Parses m xs a
      → Parses (f a) ys b
      → Parses (m >>= f) (xs ++ ys) b
  Parses-bind f {xs} {ys} p q = record {
    run = λ rest. rw (append_assoc xs ys rest, p.run (ys ++ rest)) (q.run rest);
  }

  -- The last reader of a block, whose value is only packed.
  pub Parses-map :
      {m : Reader A} (g : A → B) {xs : List ℕ} {a : A}
      → Parses m xs a
      → Parses (m >>= λ x. pure (g x)) xs (g a)
  Parses-map g p = record { run = λ rest. rw (p.run rest) }

pub Parses-int32 : {v : ℕ} → IsInt32 v → Parses read_int32 (int32 v) v
unfolding read_int32 int32
Parses-int32 {v} h = record { run = λ rest. ap (λ w. got (w, rest)) (omega arith) }

pub Parses-int64 : {v : ℕ} → IsInt64 v → Parses read_int64 (int64 v) v
unfolding read_int64 int32 int64
Parses-int64 {v} h = record { run = λ rest. ap (λ w. got (w, rest)) (omega arith) }

c_string-name : (name : List ℕ) → All (λ c. 0 < c) name → c_string name ≡ name
unfolding c_string
c_string-name [] h = refl
c_string-name (zero ∷ cs) h = absurd (omega (arith, h.0))
c_string-name (suc c ∷ cs) h = ap (λ t. suc c ∷ t) (c_string-name cs h.1)

pub Parses-name : {name : List ℕ} → IsName name → Parses (read_name (length name)) name name
unfolding read_name
Parses-name {name} h = record {
  run = λ rest. ground (
    arith,
    length-append name rest,
    take-length name rest,
    drop-length name rest,
    c_string-name name h.0,
  );
}

pub Parses-info : {i : OpInfo} → IsInfo i → Parses bin_read_info (info_bytes i) i
unfolding bin_read_info
Parses-info h = Parses-bind _ (Parses-int32 h.pid) (
    Parses-bind _ (Parses-int32 h.dur)
      (Parses-bind _ (Parses-int32 h.tv_sec) (Parses-map _ (Parses-int32 h.tv_usec))))
