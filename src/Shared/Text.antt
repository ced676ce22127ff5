-- ===== src/Shared/Text.antt =====
-- The text operations of the source: trimming, ASCII letter case, splitting and suffixes, over
-- code points. Letter case outside ASCII is left alone.
use Prim.Native.Nat.{ℕ}
use Prim.Native.Char.{Char, code}
use Prim.Native.String.{String, [], ◌∷◌, ◌++◌ as concat}
use mathlib.Core.Logic.{◌≢◌, inl, inr}
use text.Mathlib.Text.{starts_with}
use text.Mathlib.TextEquality.{starts_with_iff, eq_iff}
use mathlib.Core.Bool.{Bool, true, false, ◌&&◌, ◌||◌}
use mathlib.Core.Path.{◌≡◌, refl, sym, ap, ◌∙◌}
use mathlib.Core.List.{List, [], ◌∷◌}
use native.Mathlib.Omega.{arith}
use text.Mathlib.TextLemmas.{nil-append, cons-append}
use wordclaw.Shared.Tests.{leb, nat_beq, if◌then◌else◌, ◌==◌, string_eq, Bool-cases}

-- White space of `String.prototype.trim`.
unfoldable pub is_space : ℕ → Bool
is_space c =
    (leb 9 c && leb c 13)
    || nat_beq c 32
    || nat_beq c 160
    || nat_beq c 0x1680
    || (leb 0x2000 c && leb c 0x200a)
    || nat_beq c 0x2028
    || nat_beq c 0x2029
    || nat_beq c 0x202f
    || nat_beq c 0x205f
    || nat_beq c 0x3000
    || nat_beq c 0xfeff

trim_start : String → String
unfolding is_space
trim_start [] = []
trim_start (c ∷ s) = let rest = trim_start s in if is_space (code c) then rest else c ∷ s

-- A character in front of a text that is trimmed at its end.
cons_unless_blank : Char → String → String
unfolding is_space
cons_unless_blank c [] = if is_space (code c) then [] else c ∷ []
cons_unless_blank c (d ∷ s) = c ∷ d ∷ s

trim_end : String → String
unfolding cons_unless_blank
trim_end [] = []
trim_end (c ∷ s) = cons_unless_blank c (trim_end s)

unfoldable pub trim : String → String
unfolding trim_start trim_end
trim s = trim_end (trim_start s)

unfoldable pub non_empty : String → Bool
non_empty [] = false
non_empty (c ∷ s) = true

-- `s.trim().length > 0`.
unfoldable pub non_blank : String → Bool
unfolding trim non_empty
non_blank s = non_empty (trim s)

unfoldable pub ends_with : String → String → Bool
ends_with [] t = [] == t
ends_with (c ∷ s) t = (c ∷ s) == t || ends_with s t

-- No character of the text is white space.
abbrev pub NoBlanks : String → Type 0
NoBlanks [] = Unit
NoBlanks (c ∷ s) = (is_space (code c) ≡ false) × NoBlanks s

trim_end_of_NoBlanks : (s : String) → NoBlanks s → trim_end s ≡ s
unfolding trim_end
trim_end_of_NoBlanks [] h = refl
trim_end_of_NoBlanks (c ∷ s) h = rw (trim_end_of_NoBlanks s h.1) (keeps s h.0)
  where
    keeps : (t : String) → is_space (code c) ≡ false → cons_unless_blank c t ≡ c ∷ t
    keeps [] e = unfold cons_unless_blank is_space in ground arith
    keeps (d ∷ t) e = unfold cons_unless_blank in refl

-- Trimming changes no text without white space.
pub trim_of_NoBlanks : (s : String) → NoBlanks s → trim s ≡ s
trim_of_NoBlanks [] h = unfold trim in refl
trim_of_NoBlanks (c ∷ s) h = unfold trim in rw (h.0, trim_start) (trim_end_of_NoBlanks (c ∷ s) h)

pub NoBlanks-append : (s t : String) → NoBlanks s → NoBlanks t → NoBlanks (concat s t)
NoBlanks-append [] t h k = rw nil-append k
NoBlanks-append (c ∷ s) t h k = rw cons-append (h.0, NoBlanks-append s t h.1 k)

-- The letter case of ASCII, by two texts read in step.
shift_in : String → String → Char → Char
shift_in [] to c = c
shift_in (a ∷ from) [] c = c
shift_in (a ∷ from) (b ∷ to) c =
    let rest = shift_in from to c in if nat_beq (code a) (code c) then b else rest

map_text : (Char → Char) → String → String
map_text f [] = []
map_text f (c ∷ s) = f c ∷ map_text f s

unfoldable pub to_upper : String → String
unfolding shift_in map_text
to_upper = map_text (shift_in "abcdefghijklmnopqrstuvwxyz" "ABCDEFGHIJKLMNOPQRSTUVWXYZ")

unfoldable pub to_lower : String → String
unfolding shift_in map_text
to_lower = map_text (shift_in "ABCDEFGHIJKLMNOPQRSTUVWXYZ" "abcdefghijklmnopqrstuvwxyz")

-- A character in front of the first piece of a split.
extend : Char → List String → List String
extend c [] = (c ∷ []) ∷ []
extend c (piece ∷ pieces) = (c ∷ piece) ∷ pieces

-- `s.split(separator)` at one ASCII character: never an empty list.
unfoldable pub split : ℕ → String → List String
unfolding extend
split sep [] = [] ∷ []
split sep (c ∷ s) =
    let pieces = split sep s in if nat_beq (code c) sep then [] ∷ pieces else extend c pieces

-- `s.split(separator).map((x) => x.trim()).filter(Boolean)`.
unfoldable pub trimmed_pieces : List String → List String
unfolding trim non_empty
trimmed_pieces [] = []
trimmed_pieces (s ∷ pieces) =
    let rest = trimmed_pieces pieces in if non_empty (trim s) then trim s ∷ rest else rest

unfoldable pub split_trimmed : ℕ → String → List String
unfolding split trimmed_pieces
split_trimmed sep s = trimmed_pieces (split sep s)

trims : trim " a b  " ≡ "a b"
unfolding trim
trims = refl

upper : to_upper "get-X" ≡ "GET-X"
unfolding to_upper
upper = refl

splits : split_trimmed b'|' "a| b ||" ≡ "a" ∷ "b" ∷ []
unfolding split_trimmed
splits = refl

-- `s.slice(prefix.length)`.
unfoldable pub drop_text : String → String → String
drop_text [] s = s
drop_text (c ∷ p) [] = []
drop_text (c ∷ p) (d ∷ s) = drop_text p s

pub drop_text-concat : (p s : String) → drop_text p (concat p s) ≡ s
unfolding drop_text
drop_text-concat [] s = nil-append s
drop_text-concat (c ∷ p) s = rw cons-append (drop_text-concat p s)

head_code : String → ℕ
head_code [] = 0
head_code (c ∷ s) = code c

-- A text does not start with a text of another first character.
pub starts_with_ne_head :
    (c d : Char) (p s t : String) → code c ≢ code d → starts_with (concat (c ∷ p) s) (d ∷ t) ≡ false
unfolding head_code
starts_with_ne_head c d p s t h = elim (Bool-cases (starts_with (concat (c ∷ p) s) (d ∷ t))) [
  | inl e ↦
      let (u, q) = (starts_with_iff (concat (c ∷ p) s) (d ∷ t)).0 e in
      absurd (h (ap head_code (sym (cons-append c p s) ∙ sym q ∙ cons-append d t u)))
  | inr e ↦ e
]

-- Texts of which one has a prefix and the other has not differ.
pub ne_of_prefix :
    (s t p : String) → starts_with s p ≡ true → starts_with t p ≡ false → (s == t) ≡ false
ne_of_prefix s t p h k = elim (Bool-cases (s == t)) [
  | inl e ↦ absurd (apart (sym h ∙ ap (λ v. starts_with v p) ((eq_iff s t).0 e) ∙ k))
  | inr e ↦ e
]
  where
    apart : true ≡ false → ⊥
    apart e = cc
