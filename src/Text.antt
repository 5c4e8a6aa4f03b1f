-- ===== src/Text.antt =====
-- Texts as lists of code units, with the operations of JavaScript strings that the code uses on
-- paths, domains and names.
use Prim.Native.String.{String}
use Prim.Native.Char.{code}
use army_of_god.Prelude.{
  ℕ, ◌≡◌, refl, ◌↔◌, Bool, true, false, ◌&&◌, ◌||◌, List, [], ◌∷◌, ◌++◌, arith, Eq, nat_beq,
  nat_beq_iff, ltb, leb, elem, if◌then◌else◌, nat_eq,
}

abbrev pub Text : Type 0
Text = List ℕ

-- The code units of a literal.
abbrev pub codes : String → Text
codes String.[] = []
codes (String.◌∷◌ c s) = code c ∷ codes s

abbrev pub text_beq : Text → Text → Bool
text_beq [] [] = true
text_beq (a ∷ xs) (b ∷ ys) = nat_beq a b && text_beq xs ys
text_beq _ _ = false

pub text_beq_iff : (xs ys : Text) → (text_beq xs ys ≡ true) ↔ (xs ≡ ys)
text_beq_iff [] [] = ground arith
text_beq_iff [] (b ∷ ys) = ground arith
text_beq_iff (a ∷ xs) [] = ground arith
text_beq_iff (a ∷ xs) (b ∷ ys) = ground (arith, text_beq_iff xs ys, nat_beq_iff a b)

instance abbrev pub text_eq : Eq Text
text_eq = record {
  test = text_beq;
  sound = λ s t. (text_beq_iff s t).0;
  on_equal = λ s. (text_beq_iff s s).1 refl;
}

abbrev pub slash : ℕ
slash = b'/'

-- `s.startsWith(prefix)`, the prefix first.
unfoldable pub starts_with : Text → Text → Bool
starts_with [] s = true
starts_with (p ∷ ps) [] = false
starts_with (p ∷ ps) (c ∷ s) = nat_beq p c && starts_with ps s

-- The white space and line ends that `trim` and `\s` take.
abbrev spaces : Text
spaces =
    9 ∷ 10 ∷ 11 ∷ 12 ∷ 13 ∷ 32 ∷ 160 ∷ 0x1680 ∷ 0x2028 ∷ 0x2029 ∷ 0x202f ∷ 0x205f ∷ 0x3000 ∷ 0xfeff
    ∷ []

pub is_space : ℕ → Bool
is_space c = elem c spaces || (leb 0x2000 c && leb c 0x200a)

pub trim_start : Text → Text
unfolding is_space
trim_start [] = []
trim_start (c ∷ s) = let rest = trim_start s in if is_space c then rest else c ∷ s

pub trim_end : Text → Text
unfolding is_space
trim_end [] = []
trim_end (c ∷ s) =
    let rest = trim_end s in
    elim rest [ [] ↦ if is_space c then [] else c ∷ [] | d ∷ t ↦ c ∷ d ∷ t ]

-- `s.trim()`
unfoldable pub trim : Text → Text
unfolding trim_start trim_end
trim s = trim_end (trim_start s)

-- `s.split("/")`, from the segment read so far.
pub split_from : Text → Text → List Text
split_from segment [] = segment ∷ []
split_from segment (c ∷ s) =
    let next = segment ∷ split_from [] s in
    let longer = split_from (segment ++ c ∷ []) s in if nat_beq c slash then next else longer

unfoldable pub split_slash : Text → List Text
unfolding split_from
split_slash s = split_from [] s

-- `segments.join("/")`
unfoldable pub join_slash : List Text → Text
join_slash [] = []
join_slash (s ∷ []) = s
join_slash (s ∷ t ∷ ss) = s ++ (slash ∷ join_slash (t ∷ ss))

-- The order of `Array.prototype.sort` on strings: by code units.
unfoldable pub text_le : Text → Text → Bool
text_le [] t = true
text_le (a ∷ s) [] = false
text_le (a ∷ s) (b ∷ t) = ltb a b || (nat_beq a b && text_le s t)
