-- ===== src/Rules/Contract/Digits.antt =====
-- decimalDigits of type_contract.go.
use Prim.Native.Char.{code}
use Prim.Native.String.{String, [], ◌∷◌, len}
use rootline.Base.{ℕ, Bool, true, false, ◌&&◌, leb, nat_eq, if◌then◌else◌}
use rootline.Base.Int.{ℤ, pos, negsuc}

-- Every character is one of 0 to 9.
unfoldable pub all_digits : String → Bool
all_digits [] = true
all_digits (c ∷ s) =
    let rest = all_digits s in if leb 48 (code c) && leb (code c) 57 then rest else false

-- len(s) == want
unfoldable pub has_length : ℕ → ℤ → Bool
has_length n (pos want) = nat_eq n want
has_length n (negsuc want) = false

-- decimalDigits
unfoldable pub decimal_digits : String → ℤ → Bool
decimal_digits s want = has_length (len s) want && all_digits s
