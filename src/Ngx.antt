-- ===== src/Ngx.antt =====
-- The functions of nginx itself that the module calls, as interfaces. None of them is part of this
-- repository, so each is a field of a record that the definitions take as a section parameter.
use ngx_cache_purge.Prelude.{
  ℕ, zero, suc, ◌/◌, ◌%◌, ◌<◌, ◌≡◌, List, [], ◌∷◌, ◌++◌, map, Option, some, u64, Bool, true, false,
  ◌==◌, if◌then◌else◌,
}

-- `ngx_tolower`, `ngx_hextoi` on one character, and `ngx_sprintf` with `%016xL`.
pub record Text : Type 0 where
  pub tolower : ℕ → ℕ
  pub hextoi : ℕ → Option ℕ
  pub print_hex : ℕ → List ℕ

-- The lowest `n` digits of a number in base 16, the highest first.
abbrev pub digits16 : ℕ → ℕ → List ℕ
digits16 zero g = []
digits16 (suc n) g = digits16 n (g / 16) ++ g % 16 ∷ []

-- What is documented of the number formats: `%016xL` prints sixteen hexadecimal digits, and
-- `ngx_hextoi` reads each of them back.
pub record TextLaws (t : Text) : Type 0 where
  pub digit : ℕ → ℕ
  pub print_hex_digits : (g : ℕ) → g < u64 → t.print_hex g ≡ map digit (digits16 16 g)
  pub hextoi-digit : (d : ℕ) → d < 16 → t.hextoi (digit d) ≡ some d

-- `ngx_slab_calloc_locked` and `ngx_slab_free_locked` on a pool in state `S`. An allocation of
-- a size gives the address of zeroed memory, or nothing when the pool is full.
pub record Slab (S : Type 0) : Type 0 where
  pub calloc : ℕ → S → Option (ℕ × S)
  pub free : ℕ → S → S

-- The return codes of nginx that the module uses.
pub data Rc : Type 0 where
  ok error again busy done declined abort : Rc

pub Rc-discrete : Discrete Rc
Rc-discrete = hlevel

abbrev pub is_ok : Rc → Bool
is_ok ok = true
is_ok _ = false

abbrev pub is_again : Rc → Bool
is_again again = true
is_again _ = false

-- What is documented of the slab: it hands out memory that is not in use, and frees what it is
-- told to. `held` tells the addresses in use.
pub record SlabLaws {S : Type 0} (slab : Slab S) : Type 0 where
  pub held : S → ℕ → Bool
  pub calloc_fresh :
      (n : ℕ) (s : S) (a : ℕ) (s' : S) → slab.calloc n s ≡ some (a, s') → held s a ≡ false
  pub held-calloc :
      (n : ℕ) (s : S) (a : ℕ) (s' : S) (b : ℕ)
      → slab.calloc n s ≡ some (a, s')
      → held s' b ≡ (if b == a then true else held s b)
  pub held-free :
      (a : ℕ) (s : S) (b : ℕ) → held (slab.free a s) b ≡ (if b == a then false else held s b)
