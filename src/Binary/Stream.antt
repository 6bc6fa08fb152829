-- ===== src/Binary/Stream.antt =====
-- The file streams of in_binary.c and its macros that read and write one field.
-- A file is its bytes. Reading may succeed, end with -1, or overrun the name buffer; writing goes to
-- a stream that accepts so many bytes more, and a short write ends with -1.
use ioapps.Base.{
  ℕ, zero, suc, ◌+◌, ◌-◌, ◌*◌, ◌/◌, ◌%◌, ◌^◌, List, [], ◌∷◌, ◌++◌, length, take, drop, ltb, leb,
  ◌==◌, ◌&&◌, if◌then◌else◌, min,
}

-- `fault`: the stack buffer `buff` of a name was overrun.
pub data Outcome (A : Type 0) : Type 0 where
  got : A → Outcome A
  failed : Outcome A
  fault : Outcome A

abbrev pub Reader : Type 0 → Type 0
Reader A = List ℕ → Outcome (A × List ℕ)

abbrev pub pure : {A : Type 0} → A → Reader A
pure a bytes = got (a, bytes)

abbrev pub continue : {A B : Type 0} → (A → Reader B) → Outcome (A × List ℕ) → Outcome (B × List ℕ)
continue f (got (a, bytes)) = f a bytes
continue f failed = failed
continue f fault = fault

infixl 5 ◌>>=◌
abbrev pub ◌>>=◌ : {A B : Type 0} → Reader A → (A → Reader B) → Reader B
◌>>=◌ m f bytes = continue f (m bytes)

-- `le32toh` and `le64toh` of the bytes in the order of the file.
abbrev little32 : ℕ → ℕ → ℕ → ℕ → ℕ
little32 a b c d = a + 256 * b + 65536 * c + 16777216 * d

-- `read_int32(var)`
unfoldable pub read_int32 : Reader ℕ
read_int32 (a ∷ b ∷ c ∷ d ∷ rest) = got (little32 a b c d, rest)
read_int32 _ = failed

-- `read_int64(var)`
unfoldable pub read_int64 : Reader ℕ
read_int64 (a ∷ b ∷ c ∷ d ∷ e ∷ f ∷ g ∷ h ∷ rest) =
    got (little32 a b c d + 2 ^ 32 * little32 e f g h, rest)
read_int64 _ = failed

-- MAX_STRING of common.h, the size of `buff` and of each `name`.
abbrev pub max_string : ℕ
max_string = 512

-- The C string at the start of some bytes.
unfoldable pub c_string : List ℕ → List ℕ
c_string [] = []
c_string (zero ∷ bytes) = []
c_string (suc c ∷ bytes) = suc c ∷ c_string bytes

-- The conversion of an int32_t to size_t, which takes -1 to 2 ^ 64 - 1.
abbrev size_of_int32 : ℕ → ℕ
size_of_int32 len = if ltb len (2 ^ 31) then len else len + (2 ^ 64 - 2 ^ 32)

-- `fread(buff, sizeof(char), len, f)`, the test of its result, `buff[len] = 0` and the `strncpy`.
unfoldable pub read_name : ℕ → Reader (List ℕ)
read_name len bytes =
    let count = min (size_of_int32 len) (length bytes) in
    if ltb max_string count
    then fault
    else if count == len && ltb len (2 ^ 31)
    then (if leb max_string len then fault else got (c_string (take len bytes), drop len bytes))
    else failed

-- A stream that is written: the bytes that it accepted, in their order, and how many more it accepts
-- before a write is short. A stream has a buffer, so this is not the room of the device: the accepted
-- bytes are the file where the device takes them all when the buffer is flushed.
pub record Out : Type 0 where
  pub bytes : List ℕ
  pub room : ℕ

pub data Written : Type 0 where
  done : Out → Written
  failed : Out → Written
  fault : Written

abbrev pub Writer : Type 0
Writer = Out → Written

abbrev pub resume : Writer → Written → Written
resume k (done out) = k out
resume k (failed out) = failed out
resume k fault = fault

infixr 5 ◌>>◌
abbrev pub ◌>>◌ : Writer → Writer → Writer
◌>>◌ m k out = resume k (m out)

-- `fwrite` of all of `block` or, where the stream does not accept it, of what it accepts.
unfoldable pub fwrite : List ℕ → Writer
fwrite block out =
    if leb (length block) out.room
    then done (record { bytes = out.bytes ++ block; room = out.room - length block })
    else failed (record { bytes = out.bytes ++ take out.room block; room = 0 })

-- The bytes of `htole32(v)` and `htole64(v)`.
unfoldable pub int32 : ℕ → List ℕ
int32 v = (v % 256) ∷ (v / 256 % 256) ∷ (v / 65536 % 256) ∷ (v / 16777216 % 256) ∷ []

unfoldable pub int64 : ℕ → List ℕ
int64 v = int32 (v % 2 ^ 32) ++ int32 (v / 2 ^ 32)

abbrev pub write_char : ℕ → Writer
write_char c = fwrite (c ∷ [])

abbrev pub write_int32 : ℕ → Writer
write_int32 v = fwrite (int32 v)

abbrev pub write_int64 : ℕ → Writer
write_int64 v = fwrite (int64 v)

abbrev pub write_string : List ℕ → Writer
write_string name = fwrite name
