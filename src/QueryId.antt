-- ===== src/QueryId.antt =====
-- The query ids: `pwh_hash_djb2` of src/common.h, `pwh_compute_query_id` of src/compatibility.c and
-- `get_query_id` of src/pg_what_is_happening.c.
use Prim.Native.Nat.{bit_xor}
use pg_what_is_happening.Base.{
  ℕ, ◌+◌, ◌*◌, ◌/◌, ◌%◌, ◌^◌, ◌<◌, ◌≡◌, refl, ◌∙◌, Option, none, some, [], ◌∷◌, arith, ◌==◌,
  if◌then◌else◌, Bytes,
}

abbrev pub u64_mod : ℕ
u64_mod = 2 ^ 64

pub hash_djb2 : ℕ → Bytes → ℕ
hash_djb2 hash [] = hash
hash_djb2 hash (c ∷ str) = hash_djb2 ((hash * 33 + c) % u64_mod) str

hash_text : Option Bytes → ℕ
unfolding hash_djb2
hash_text none = 5381
hash_text (some []) = 5381
hash_text (some (c ∷ text)) = hash_djb2 5381 (c ∷ text)

-- `now` is `GetCurrentTimestamp()`, as a `u64`.
pub compute_query_id : Option Bytes → ℕ → ℕ → ℕ
unfolding hash_text
compute_query_id source_text now my_proc_pid =
    bit_xor (bit_xor (hash_text source_text) (now / 2 ^ 16)) my_proc_pid

-- `query_id` is the one of the planned statement.
unfoldable pub get_query_id : ℕ → Option Bytes → ℕ → ℕ → ℕ
unfolding compute_query_id
get_query_id query_id source_text now my_proc_pid =
    if query_id == 0 then compute_query_id source_text now my_proc_pid else query_id

-- The hash without wrap-around.
abbrev pub polynomial : ℕ → Bytes → ℕ
polynomial hash [] = hash
polynomial hash (c ∷ str) = polynomial (hash * 33 + c) str

polynomial-mod :
    (a b : ℕ) (str : Bytes)
    → a % u64_mod ≡ b % u64_mod
    → polynomial a str % u64_mod ≡ polynomial b str % u64_mod
polynomial-mod a b [] e = e
polynomial-mod a b (c ∷ str) e = polynomial-mod (a * 33 + c) (b * 33 + c) str (omega arith)

hash_djb2-mod :
    (hash : ℕ) (str : Bytes) → hash_djb2 hash str % u64_mod ≡ polynomial hash str % u64_mod
unfolding hash_djb2
hash_djb2-mod hash [] = refl
hash_djb2-mod hash (c ∷ str) =
    hash_djb2-mod ((hash * 33 + c) % u64_mod) str
    ∙ polynomial-mod ((hash * 33 + c) % u64_mod) (hash * 33 + c) str (omega arith)

hash_djb2-lt : (hash : ℕ) (str : Bytes) → hash < u64_mod → hash_djb2 hash str < u64_mod
unfolding hash_djb2
hash_djb2-lt hash [] h = h
hash_djb2-lt hash (c ∷ str) h = hash_djb2-lt ((hash * 33 + c) % u64_mod) str (omega arith)

-- From a seed of 64 bits, the loop that wraps around at every step computes the polynomial
-- h * 33 + c, taken over the bytes with no wrap-around, modulo 2 ^ 64.
pub hash_djb2-polynomial :
    (seed : ℕ) (str : Bytes) → seed < u64_mod → hash_djb2 seed str ≡ polynomial seed str % u64_mod
hash_djb2-polynomial seed str h = omega (arith, hash_djb2-mod seed str, hash_djb2-lt seed str h)
