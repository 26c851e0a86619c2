-- ===== src/Base/WhiteSpace.antt =====
-- `trim`, and the white space of `\s`.
use Prim.Native.Nat.{ℕ}
use mathlib.Core.Path.{◌≡◌, refl, ap}
use mathlib.Core.Bool.{Bool, false, ◌||◌, ◌&&◌}
use mathlib.Core.List.{[], ◌∷◌, ◌++◌}
use script_jail.Base.Tests.{leb, ◌==◌, if◌then◌else◌}
use script_jail.Base.Texts.{Text}

-- White space and line ends, as `trim` takes them.
unfoldable pub is_white_space : ℕ → Bool
is_white_space c =
    (leb 9 c && leb c 13)
    || c == 32
    || c == 160
    || c == 5760
    || (leb 8192 c && leb c 8202)
    || c == 8232
    || c == 8233
    || c == 8239
    || c == 8287
    || c == 12288
    || c == 65279

unfoldable pub trim_start : Text → Text
unfolding is_white_space
trim_start [] = []
trim_start (a ∷ s) = let rest = trim_start s in if is_white_space a then rest else a ∷ s

-- A unit behind which only white space stands goes with it.
abbrev cons_trimmed : ℕ → Text → Text
cons_trimmed a [] = if is_white_space a then [] else a ∷ []
cons_trimmed a (b ∷ s) = a ∷ b ∷ s

unfoldable pub trim_end : Text → Text
unfolding is_white_space
trim_end [] = []
trim_end (a ∷ s) = cons_trimmed a (trim_end s)

unfoldable pub trim : Text → Text
unfolding trim_start trim_end
trim s = trim_end (trim_start s)

-- The last unit, if there is one, is no white space.
abbrev pub EndsInk : Text → Type 0
EndsInk [] = Unit
EndsInk (c ∷ []) = is_white_space c ≡ false
EndsInk (c ∷ d ∷ s) = EndsInk (d ∷ s)

pub EndsInk-append : (a : Text) (c : ℕ) (s : Text) → EndsInk (c ∷ s) → EndsInk (a ++ c ∷ s)
EndsInk-append [] c s h = h
EndsInk-append (x ∷ []) c s h = h
EndsInk-append (x ∷ y ∷ a) c s h = EndsInk-append (y ∷ a) c s h

trim_end-EndsInk : (s : Text) → EndsInk s → trim_end s ≡ s
unfolding trim_end
trim_end-EndsInk [] _ = refl
trim_end-EndsInk (c ∷ []) h = rw h refl
trim_end-EndsInk (c ∷ d ∷ s) h = ap (cons_trimmed c) (trim_end-EndsInk (d ∷ s) h)

-- What begins and ends with ink is not trimmed.
pub trim-EndsInk :
    (c : ℕ) (s : Text) → is_white_space c ≡ false → EndsInk (c ∷ s) → trim (c ∷ s) ≡ c ∷ s
unfolding trim trim_start
trim-EndsInk c s h e = rw h (trim_end-EndsInk (c ∷ s) e)
