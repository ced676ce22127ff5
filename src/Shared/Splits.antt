-- ===== src/Shared/Splits.antt =====
-- `split` on texts that are joined by the separator.
use Prim.Native.Nat.{ℕ}
use Prim.Native.Char.{Char, code}
use Prim.Native.String.{String, [] as nil_text, ◌∷◌ as cons_text, ◌++◌ as concat}
use text.Mathlib.TextLemmas.{nil-append, cons-append}
use mathlib.Core.Bool.{true, false}
use mathlib.Core.Path.{◌≡◌, refl}
use mathlib.Core.List.{[], ◌∷◌}
use wordclaw.Shared.Tests.{nat_beq}
use wordclaw.Shared.Text.{split}

-- The character does not stand in the text.
abbrev pub Lacks : ℕ → String → Type 0
Lacks sep nil_text = Unit
Lacks sep (cons_text c s) = (nat_beq (code c) sep ≡ false) × Lacks sep s

pub split-Lacks : (sep : ℕ) (s : String) → Lacks sep s → split sep s ≡ s ∷ []
unfolding split
split-Lacks sep nil_text h = refl
split-Lacks sep (cons_text c s) (h, hs) = rw h (rw (split-Lacks sep s hs) refl)

pub split-concat :
    (d : Char) (s t : String)
    → Lacks (code d) s
    → nat_beq (code d) (code d) ≡ true
    → split (code d) (concat s (cons_text d t)) ≡ s ∷ split (code d) t
unfolding split
split-concat d nil_text t h e = rw nil-append (rw e refl)
split-concat d (cons_text c s) t (h, hs) e =
    rw cons-append (rw h (rw (split-concat d s t hs e) refl))
