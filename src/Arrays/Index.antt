-- ===== src/Arrays/Index.antt =====
-- The indexes that internal/resourceindex/index.go accepts.
use p4runtime_go_controller.Common.{
  ℕ, zero, suc, ◌<◌, ◌≡◌, ◌↔◌, ◌⊎◌, inl, inr, refl, Bool, true, false, List, [], ◌∷◌, arith,
}
use p4runtime_go_controller.Common.Int.{ℤ, pos, negsuc}
use p4runtime_go_controller.Common.Errors.{ok}
use p4runtime_go_controller.Arrays.{validate}

-- An index into an array: of the array where its index type has no name, any where it has one.
pub data IsIndex : ℤ → ℤ → List ℕ → Type 0 where
  in_array : {i n : ℕ} → i < n → IsIndex (pos i) (pos n) []
  named : {i t : ℕ} {size : ℤ} {ts : List ℕ} → IsIndex (pos i) size (t ∷ ts)

validate-IsIndex :
    (index size : ℤ) (index_type : List ℕ)
    → validate index size index_type false ≡ ok tt
    → IsIndex index size index_type
unfolding validate
validate-IsIndex (negsuc i) size ts h = ground arith
validate-IsIndex (pos i) size (t ∷ ts) h = named
validate-IsIndex (pos i) (negsuc n) [] h = ground arith
validate-IsIndex (pos i) (pos n) [] h = in_array (ground arith)

IsIndex-validate :
    {index size : ℤ} {index_type : List ℕ} (allow_all : Bool)
    → IsIndex index size index_type
    → validate index size index_type allow_all ≡ ok tt
unfolding validate
IsIndex-validate allow_all (in_array lt) = ground arith
IsIndex-validate allow_all named = ground arith

-- A read accepts -1 besides the indexes that a write accepts.
validate-all :
    (index size : ℤ) (index_type : List ℕ)
    → validate index size index_type true ≡ ok tt
    → (index ≡ negsuc 0) ⊎ IsIndex index size index_type
unfolding validate
validate-all (negsuc zero) size ts h = inl refl
validate-all (negsuc (suc i)) size ts h = ground arith
validate-all (pos i) size ts h = inr (validate-IsIndex (pos i) size ts (ground arith))

all-validate :
    (index size : ℤ) (index_type : List ℕ)
    → (index ≡ negsuc 0) ⊎ IsIndex index size index_type
    → validate index size index_type true ≡ ok tt
unfolding validate
all-validate index size ts (inl e) = ground arith
all-validate index size ts (inr x) = IsIndex-validate true x

-- For a write an index is accepted just when it lies in the array, or is not negative and its type
-- has a name. For a read -1 is accepted besides these, and nothing else.
pub validate-exact :
    (index size : ℤ) (index_type : List ℕ)
    → ((validate index size index_type false ≡ ok tt) ↔ IsIndex index size index_type)
      × ((validate index size index_type true ≡ ok tt)
          ↔ ((index ≡ negsuc 0) ⊎ IsIndex index size index_type))
validate-exact index size index_type = (
  (validate-IsIndex index size index_type, IsIndex-validate false),
  (validate-all index size index_type, all-validate index size index_type),
)
