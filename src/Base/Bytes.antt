-- ===== src/Base/Bytes.antt =====
-- C strings as lists of bytes, without the terminating NUL: tests, equality, literals.
use Prim.Native.Char.{code}
use Prim.Native.String.{String}
use fskit.Base.{
  ℕ, ◌≡◌, ◌≢◌, refl, sym, subst, Bool, true, false, ◌&&◌, not, List, [], ◌∷◌, arith, ◌==◌, eq_refl,
  get_or, and-true,
}

abbrev pub Str : Type 0
Str = List ℕ

abbrev pub slash : ℕ
slash = b'/'

-- The bytes of an ASCII literal.
abbrev pub codes : String → Str
codes String.[] = []
codes (String.◌∷◌ c s) = code c ∷ codes s

-- `s[i]`, with the NUL behind the last byte.
abbrev pub at : Str → ℕ → ℕ
at s i = get_or s i 0

-- strcmp(s, t) == 0
abbrev pub str_eq : Str → Str → Bool
str_eq [] [] = true
str_eq [] (d ∷ t) = false
str_eq (c ∷ s) [] = false
str_eq (c ∷ s) (d ∷ t) = (c == d) && str_eq s t

pub str_eq_sound : (s t : Str) → str_eq s t ≡ true → s ≡ t
str_eq_sound [] [] h = refl
str_eq_sound [] (d ∷ t) h = cc
str_eq_sound (c ∷ s) [] h = cc
str_eq_sound (c ∷ s) (d ∷ t) h =
    let p = and-true (c == d) (str_eq s t) h in ground (arith, p, str_eq_sound s t)

pub str_eq_refl : (s : Str) → str_eq s s ≡ true
str_eq_refl [] = refl
str_eq_refl (c ∷ s) = rw (eq_refl c) (str_eq_refl s)

pub str_eq_sym : (s t : Str) → str_eq s t ≡ str_eq t s
str_eq_sym [] [] = refl
str_eq_sym [] (d ∷ t) = refl
str_eq_sym (c ∷ s) [] = refl
str_eq_sym (c ∷ s) (d ∷ t) = rw (str_eq_sym s t) (ground arith)

pub str_ne : (s t : Str) → str_eq s t ≡ false → s ≢ t
str_ne s t h e = cc (str_eq_refl s, subst (λ u. str_eq s u ≡ false) (sym e) h)

abbrev pub dot : Str
dot = codes "."

abbrev pub dotdot : Str
dotdot = codes ".."

-- The first byte, and the last.
abbrev pub starts_slash : Str → Bool
starts_slash s = at s 0 == slash

-- No byte of the text is a slash.
abbrev pub no_slash : Str → Bool
no_slash [] = true
no_slash (c ∷ s) = not (c == slash) && no_slash s

abbrev pub is_empty : Str → Bool
is_empty [] = true
is_empty (_ ∷ _) = false
