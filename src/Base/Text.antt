-- ===== src/Base/Text.antt =====
-- What the operator uses of Go's package strings.
use Prim.Native.Char.{code}
use apheleia.Base.{
  ℕ, String, ◌<>◌, Bool, true, false, List, [], ◌∷◌, ◌&&◌, nat_eq, leb, ◌+◌, if◌then◌else◌,
}

-- The least code point that a letter folds to, where that is an ASCII letter: besides the capital
-- letters these are the long s and the sign for kelvin.
abbrev fold : ℕ → ℕ
fold c =
    if leb 65 c && leb c 90
    then c + 32
    else if nat_eq c 0x17f
    then 115
    else if nat_eq c 0x212a
    then 107
    else c

-- strings.EqualFold, where one of the texts is ASCII, as at every call in the operator.
unfoldable pub equal_fold : String → String → Bool
equal_fold String.[] String.[] = true
equal_fold (String.◌∷◌ a s) (String.◌∷◌ b t) =
    nat_eq (fold (code a)) (fold (code b)) && equal_fold s t
equal_fold _ _ = false

-- strings.Join
unfoldable pub join : List String → String → String
join [] separator = ""
join (s ∷ []) separator = s
join (s ∷ t ∷ rest) separator = s <> (separator <> join (t ∷ rest) separator)
