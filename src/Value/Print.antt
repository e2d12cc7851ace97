-- ===== src/Value/Print.antt =====
-- fmt.Sprintf("%v", v) on the values of the program.
use Prim.Native.Nat.{◌/◌, ◌%◌}
use Prim.Native.String.{◌++◌}
use rootline.Base.{ℕ, zero, suc, ◌+◌, String, Bool, true, false, ltb, if◌then◌else◌, List, [], ◌∷◌}
use rootline.Base.Sort.{sort}
use rootline.Base.Text.{str_le}
use rootline.Base.Int.{ℤ, pos, negsuc}
use rootline.Value.{
  Value, Items, Fields, null, str, bool, int, float, time, seq, mapping, other, nil, cons, end,
  field,
}

digit : ℕ → String
digit zero = "0"
digit (suc zero) = "1"
digit (suc (suc zero)) = "2"
digit (suc (suc (suc zero))) = "3"
digit (suc (suc (suc (suc zero)))) = "4"
digit (suc (suc (suc (suc (suc zero))))) = "5"
digit (suc (suc (suc (suc (suc (suc zero)))))) = "6"
digit (suc (suc (suc (suc (suc (suc (suc zero))))))) = "7"
digit (suc (suc (suc (suc (suc (suc (suc (suc zero)))))))) = "8"
digit _ = "9"

-- Decimal digits; a number has fewer digits than its size plus one.
decimal : ℕ → ℕ → String
decimal zero n = ""
decimal (suc f) n =
    let rest = decimal f (n / 10) in if ltb n 10 then digit n else rest ++ digit (n % 10)

pub print_nat : ℕ → String
unfolding decimal digit
print_nat n = decimal (suc n) n

unfoldable pub print_int : ℤ → String
print_int (pos n) = print_nat n
print_int (negsuc n) = "-" ++ print_nat (n + 1)

-- k:v, with a blank between two entries
join_entries : List (String × String) → String
join_entries [] = ""
join_entries ((k, v) ∷ []) = k ++ ":" ++ v
join_entries ((k, v) ∷ e ∷ rest) = k ++ ":" ++ v ++ " " ++ join_entries (e ∷ rest)

key_le : (String × String) → (String × String) → Bool
key_le e f = str_le e.0 f.0

unfoldable mutual
  unfolding print_int join_entries key_le sort

  pub print : Value → String
  print null = "<nil>"
  print (str s) = s
  print (bool true) = "true"
  print (bool false) = "false"
  print (int i) = print_int i
  print (float s) = s
  print (time s) = s
  print (seq xs) = "[" ++ print_items xs ++ "]"
  print (mapping m) = "map[" ++ join_entries (sort key_le (print_fields m)) ++ "]"
  print (other t s) = s

  pub print_items : Items → String
  print_items nil = ""
  print_items (cons x nil) = print x
  print_items (cons x (cons y ys)) = print x ++ " " ++ print_items (cons y ys)

  -- fmt prints the entries of a map in the order of their keys.
  pub print_fields : Fields → List (String × String)
  print_fields end = []
  print_fields (field k v m) = (k, print v) ∷ print_fields m
