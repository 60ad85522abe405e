-- ===== src/Text/Trim.antt =====
-- `strings.TrimSpace` and `unicode.IsSpace`.
use Prim.Native.String.{[], ◌∷◌}
use text.Mathlib.TextLemmas.{nil≢cons, tail-eq_of_cons-eq}
use etcd_studio.Base.{
  ℕ, Char, code, String, Bool, ◌&&◌, ◌||◌, ◌≡◌, refl, arith, leb, eqb, inl, inr, if◌then◌else◌,
  Bool-cases,
}

-- The code points with the property White_Space.
unfoldable pub is_space_code : ℕ → Bool
is_space_code c =
    (leb 9 c && leb c 13)
    || eqb c 32
    || eqb c 0x85
    || eqb c 0xA0
    || eqb c 0x1680
    || (leb 0x2000 c && leb c 0x200a)
    || eqb c 0x2028
    || eqb c 0x2029
    || eqb c 0x202f
    || eqb c 0x205f
    || eqb c 0x3000

unfoldable pub is_space : Char → Bool
unfolding is_space_code
is_space c = is_space_code (code c)

unfoldable pub trim_left : String → String
trim_left [] = []
trim_left (c ∷ s) = if is_space c then trim_left s else c ∷ s

-- One step of trimming from the right, on the trimmed rest.
abbrev put_back : Char → String → String
put_back c [] = if is_space c then [] else c ∷ []
put_back c (d ∷ s) = c ∷ d ∷ s

unfoldable pub trim_right : String → String
trim_right [] = []
trim_right (c ∷ s) = put_back c (trim_right s)

unfoldable pub trim_space : String → String
unfolding trim_left trim_right
trim_space s = trim_left (trim_right s)

trim_left-trim_left : (s : String) → trim_left (trim_left s) ≡ trim_left s
unfolding trim_left
trim_left-trim_left [] = refl
trim_left-trim_left (c ∷ s) = ground (arith, trim_left-trim_left s)

trim_right-put_back :
    (c : Char) (s : String) → trim_right s ≡ s → trim_right (put_back c s) ≡ put_back c s
unfolding trim_right
trim_right-put_back c [] h = elim (Bool-cases (is_space c)) [
  | inl p ↦ rw p refl
  | inr p ↦ rw p (rw p refl)
]
trim_right-put_back c (d ∷ s) h = rw h

trim_right-trim_right : (s : String) → trim_right (trim_right s) ≡ trim_right s
unfolding trim_right
trim_right-trim_right [] = refl
trim_right-trim_right (c ∷ s) = trim_right-put_back c (trim_right s) (trim_right-trim_right s)

put_back-rest : (c : Char) (r s : String) → put_back c r ≡ c ∷ s → r ≡ s
put_back-rest c [] [] h = refl
put_back-rest c [] (e ∷ s) h = elim (Bool-cases (is_space c)) [
  | inl p ↦ absurd (nil≢cons (rw p at h))
  | inr p ↦ absurd (nil≢cons (tail-eq_of_cons-eq (rw p at h)))
]
put_back-rest c (d ∷ r) s h = cc

trim_right-trim_left : (s : String) → trim_right s ≡ s → trim_right (trim_left s) ≡ trim_left s
unfolding trim_left trim_right
trim_right-trim_left [] h = refl
trim_right-trim_left (c ∷ s) h =
    ground (arith, trim_right-trim_left s, put_back-rest c (trim_right s) s)

-- Trimming twice is trimming once.
pub trim_space-trim_space : (s : String) → trim_space (trim_space s) ≡ trim_space s
unfolding trim_space
trim_space-trim_space s =
    rw (trim_right-trim_left (trim_right s) (trim_right-trim_right s))
      (trim_left-trim_left (trim_right s))

trim_space_test : trim_space " \t a b\n" ≡ "a b"
unfolding trim_space is_space
trim_space_test = refl
