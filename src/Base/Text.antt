-- ===== src/Base/Text.antt =====
-- Python's texts: `str(n)`, `s.split("/")`, `s.replace(ab, r)` and `s[1:]`.
use Prim.Native.Nat.{ℕ, zero, suc, ◌/◌, ◌%◌}
use Prim.Native.Char.{Char, code}
use Prim.Native.String
use Prim.Native.String.{String, [], ◌∷◌}
use mathlib.Core.Bool.{Bool, true, false, ◌||◌, ◌&&◌, not}
use mathlib.Core.List.{List}
use rednexus_ai.Base.Tests.{eqb, ltb, if◌then◌else◌}

digit : ℕ → String
digit zero = "0"
digit (suc zero) = "1"
digit (suc (suc zero)) = "2"
digit (suc (suc (suc zero))) = "3"
digit (suc (suc (suc (suc zero)))) = "4"
digit (suc (suc (suc (suc (suc zero))))) = "5"
digit (suc (suc (suc (suc (suc (suc zero)))))) = "6"
digit (suc (suc (suc (suc (suc (suc (suc zero))))))) = "7"
digit (suc (suc (suc (suc (suc (suc (suc (suc zero)))))))) = "8"
digit _ = "9"

-- A number has no more digits than its value plus one, which is the fuel.
show_from : ℕ → ℕ → String
show_from zero n = digit n
show_from (suc fuel) n =
    let rest = show_from fuel (n / 10) in
    if ltb n 10 then digit n else String.◌++◌ rest (digit (n % 10))

-- `str(n)`.
unfoldable pub show : ℕ → String
unfolding digit show_from
show n = show_from n n

-- `s.split("/")`.
first_part : Char → List String → List String
first_part c List.[] = List.◌∷◌ (c ∷ []) List.[]
first_part c (List.◌∷◌ p ps) = List.◌∷◌ (c ∷ p) ps

unfoldable pub split_slash : String → List String
unfolding first_part
split_slash [] = List.◌∷◌ [] List.[]
split_slash (c ∷ s) =
    let parts = split_slash s in if eqb (code c) b'/' then List.◌∷◌ [] parts else first_part c parts

-- `s.replace(ab, r)` for a text `ab` of two characters: from the left, without overlap.
unfoldable pub replace_pair : ℕ → ℕ → Char → String → String
replace_pair a b r [] = []
replace_pair a b r (c ∷ []) = c ∷ []
replace_pair a b r (c ∷ d ∷ s) =
    let taken = r ∷ replace_pair a b r s in
    let kept = c ∷ replace_pair a b r (d ∷ s) in
    if eqb (code c) a && eqb (code d) b then taken else kept

-- `s[1:]`.
unfoldable pub drop_first : String → String
drop_first [] = []
drop_first (c ∷ s) = s

-- `s.startswith(prefix)`, with the prefix first.
unfoldable pub starts_with : String → String → Bool
starts_with [] s = true
starts_with (c ∷ p) [] = false
starts_with (c ∷ p) (d ∷ s) = let rest = starts_with p s in eqb (code c) (code d) && rest

-- `part in s`, with the part first.
unfoldable pub contains : String → String → Bool
contains part [] = starts_with part []
contains part (c ∷ s) = let rest = contains part s in starts_with part (c ∷ s) || rest

reverse_onto : String → String → String
reverse_onto done [] = done
reverse_onto done (c ∷ s) = reverse_onto (c ∷ done) s

drop_slashes : String → String
drop_slashes [] = []
drop_slashes (c ∷ s) = let rest = drop_slashes s in if eqb (code c) b'/' then rest else c ∷ s

-- `s.rstrip("/").endswith(suffix)`, with the suffix written backwards.
unfoldable pub ends_with_rev : String → String → Bool
unfolding reverse_onto drop_slashes
ends_with_rev suffix s = starts_with suffix (drop_slashes (reverse_onto [] s))

-- `len(s)`.
unfoldable pub text_length : String → ℕ
text_length [] = 0
text_length (c ∷ s) = suc (text_length s)

between : ℕ → ℕ → Char → Bool
between low high c = not (ltb (code c) low) && not (ltb high (code c))

-- `[a-zA-Z0-9_.@-]`.
account_char : Char → Bool
account_char c =
    between b'a' b'z' c
    || between b'A' b'Z' c
    || between b'0' b'9' c
    || eqb (code c) b'_'
    || eqb (code c) b'.'
    || eqb (code c) b'@'
    || eqb (code c) b'-'

-- Every character is one of an account's name.
unfoldable pub account_chars : String → Bool
unfolding account_char between
account_chars [] = true
account_chars (c ∷ s) = let rest = account_chars s in account_char c && rest
