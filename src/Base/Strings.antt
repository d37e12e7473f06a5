-- ===== src/Base/Strings.antt =====
-- Go's strings as lists of bytes, with the functions of package strings that the source calls.
-- `to_lower` is strings.ToLower on ASCII; the names of this program are ASCII once normalised.
use Prim.Native.Char.{code}
use Prim.Native.Nat.{ℕ, ◌+◌, ◌-◌}
use Prim.Native.String.{String}
use mathlib.Core.Bool.{Bool, true, false, ◌&&◌, ◌||◌}
use mathlib.Core.List.{List, [], ◌∷◌, ◌++◌, map}
use mathlib.Core.Logic.{◌↔◌, inl, inr}
use mathlib.Core.Path.{◌≡◌, refl, ap, sym, ◌∙◌}
use native.Mathlib.Decide.{ℕ_discrete}
use native.Mathlib.Omega.{arith}
use go_certs_manager.Base.Lists.{
  length, take, drop, length-append, take-length-append, drop-length-append, take-append-drop,
}
use go_certs_manager.Base.Tests.{Bool-cases, leb, ◌==◌, if◌then◌else◌}

abbrev pub Text : Type 0
Text = List ℕ

-- A literal of the source.
abbrev pub codes : String → Text
codes String.[] = []
codes (String.◌∷◌ c s) = code c ∷ codes s

unfoldable pub text_dec : Discrete Text
unfolding ℕ_discrete
text_dec = hlevel ℕ_discrete

-- `s == t` on strings.
abbrev pub text_eq : Text → Text → Bool
text_eq s t = elim (text_dec s t) [ yes _ ↦ true | no _ ↦ false ]

pub text_eq_iff : (s t : Text) → (text_eq s t ≡ true) ↔ (s ≡ t)
text_eq_iff s t = (λ h. ground arith, λ h. ground arith)

pub text_eq_refl : (s : Text) → text_eq s s ≡ true
text_eq_refl s = (text_eq_iff s s).1 refl

pub text_eq_flip : (s t : Text) → text_eq s t ≡ false → text_eq t s ≡ false
text_eq_flip s t h = elim (Bool-cases (text_eq t s)) [
  | inl e ↦ let d = (text_eq_iff s t).1 (sym ((text_eq_iff t s).0 e)) in absurd (ground arith)
  | inr e ↦ e
]

unfoldable pub lower_byte : ℕ → ℕ
lower_byte c = if leb b'A' c && leb c b'Z' then c + 32 else c

pub lower_byte_idem : (c : ℕ) → lower_byte (lower_byte c) ≡ lower_byte c
unfolding lower_byte
lower_byte_idem c = ground arith

unfoldable pub to_lower : Text → Text
unfolding lower_byte
to_lower = map lower_byte

pub to_lower_idem : (s : Text) → to_lower (to_lower s) ≡ to_lower s
unfolding to_lower
to_lower_idem [] = refl
to_lower_idem (c ∷ s) = cc (lower_byte_idem c, to_lower_idem s)

pub to_lower-append : (s t : Text) → to_lower (s ++ t) ≡ to_lower s ++ to_lower t
unfolding to_lower
to_lower-append [] t = refl
to_lower-append (c ∷ s) t = ap (◌∷◌ (lower_byte c)) (to_lower-append s t)

-- strings.TrimSpace, on ASCII.
unfoldable is_space : ℕ → Bool
is_space c = leb 9 c && leb c 13 || (c == 32)

unfoldable trim_left : Text → Text
unfolding is_space
trim_left [] = []
trim_left (c ∷ s) = if is_space c then trim_left s else c ∷ s

unfoldable trim_right : Text → Text
unfolding is_space
trim_right [] = []
trim_right (c ∷ s) = elim (trim_right s) [
  | [] ↦ if is_space c then [] else c ∷ []
  | d ∷ t ↦ c ∷ d ∷ t
]

unfoldable pub trim_space : Text → Text
unfolding trim_left trim_right
trim_space s = trim_right (trim_left s)

-- strings.HasPrefix and strings.TrimPrefix
unfoldable pub has_prefix : Text → Text → Bool
has_prefix s [] = true
has_prefix [] (d ∷ t) = false
has_prefix (c ∷ s) (d ∷ t) = if c == d then has_prefix s t else false

unfoldable pub trim_prefix : Text → Text → Text
unfolding has_prefix
trim_prefix s prefix = if has_prefix s prefix then drop (length prefix) s else s

-- strings.HasSuffix
unfoldable pub has_suffix : Text → Text → Bool
has_suffix s suffix =
    leb (length suffix) (length s) && text_eq (drop (length s - length suffix) s) suffix

-- strings.TrimSuffix
unfoldable pub trim_suffix : Text → Text → Text
trim_suffix s suffix = if has_suffix s suffix then take (length s - length suffix) s else s

pub trim_suffix_absent : (s t : Text) → has_suffix s t ≡ false → trim_suffix s t ≡ s
unfolding trim_suffix
trim_suffix_absent s t h = rw h

suffix_start : (s t : Text) → length (s ++ t) - length t ≡ length s
suffix_start s t = omega (arith, length-append s t)

pub has_suffix-append : (s t : Text) → has_suffix (s ++ t) t ≡ true
unfolding has_suffix
has_suffix-append s t =
    rw (suffix_start s t, drop-length-append s t) (ground (arith, length-append s t))

pub trim_suffix-append : (s t : Text) → trim_suffix (s ++ t) t ≡ s
unfolding trim_suffix
trim_suffix-append s t = rw (has_suffix-append s t, suffix_start s t) (take-length-append s t)

tail_eq : (s t : Text) → has_suffix s t ≡ true → drop (length s - length t) s ≡ t
unfolding has_suffix
tail_eq s t h = ground arith

-- What a suffix test says: the text is the trimmed text with the suffix behind it.
pub append-trim_suffix : (s t : Text) → has_suffix s t ≡ true → trim_suffix s t ++ t ≡ s
unfolding trim_suffix
append-trim_suffix s t h = rw h (ap (◌++◌ (take n s)) (sym (tail_eq s t h)) ∙ take-append-drop n s)
  where
    n : ℕ
    n = length s - length t
