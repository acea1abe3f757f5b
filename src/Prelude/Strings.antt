-- ===== src/Prelude/Strings.antt =====
-- strings.TrimSpace with its result, and sort.Strings.
use Prim.Native.Char.{code}
use Prim.Native.String.{String}
use mathlib.Core.Path.{◌≡◌, refl}
use mathlib.Core.Logic.{◌⊎◌, ◌↔◌, inl, inr}
use mathlib.Core.Bool.{Bool, true, false, ◌&&◌, ◌||◌}
use mathlib.Core.List.{List, [], ◌∷◌}
use native.Mathlib.Omega.{arith}
use ocpphal_go.Prelude.Tests.{ltb, eqb, if◌then◌else◌, Bool-cases}
use ocpphal_go.Prelude.Text.{is_space}

unfoldable pub trim_left : String → String
unfolding is_space
trim_left String.[] = String.[]
trim_left (String.◌∷◌ c s) = if is_space (code c) then trim_left s else String.◌∷◌ c s

-- A space goes when nothing is left behind it.
unfoldable pub put_before : Bool → String → String → String
put_before true String.[] whole = String.[]
put_before _ _ whole = whole

unfoldable pub trim_right : String → String
unfolding is_space put_before
trim_right String.[] = String.[]
trim_right (String.◌∷◌ c s) =
    let rest = trim_right s in put_before (is_space (code c)) rest (String.◌∷◌ c rest)

unfoldable pub trim_space : String → String
unfolding trim_left trim_right
trim_space s = trim_right (trim_left s)

-- a <= b
unfoldable pub text_leb : String → String → Bool
text_leb String.[] t = true
text_leb (String.◌∷◌ c s) String.[] = false
text_leb (String.◌∷◌ c s) (String.◌∷◌ d t) =
    ltb (code c) (code d) || eqb (code c) (code d) && text_leb s t

insert : String → List String → List String
unfolding text_leb
insert s [] = s ∷ []
insert s (t ∷ ts) = if text_leb s t then s ∷ t ∷ ts else t ∷ insert s ts

unfoldable pub sort_strings : List String → List String
unfolding insert
sort_strings [] = []
sort_strings (s ∷ ss) = insert s (sort_strings ss)

text_leb_total : (s t : String) → text_leb s t ≡ false → text_leb t s ≡ true
unfolding text_leb
text_leb_total String.[] t h = cc
text_leb_total (String.◌∷◌ c s) String.[] h = refl
text_leb_total (String.◌∷◌ c s) (String.◌∷◌ d t) h = ground (arith, text_leb_total s t)

-- `s` is not after the first of the texts.
abbrev Leads : String → List String → Type 0
Leads s [] = Unit
Leads s (t ∷ ts) = text_leb s t ≡ true

-- Each text is not after the next one.
abbrev pub Sorted : List String → Type 0
Sorted [] = Unit
Sorted (s ∷ ss) = Leads s ss × Sorted ss

Leads-insert :
    (t s : String) (ts : List String) → Leads t ts → text_leb t s ≡ true → Leads t (insert s ts)
unfolding insert
Leads-insert t s [] h e = e
Leads-insert t s (u ∷ ts) h e = elim (Bool-cases (text_leb s u)) [ inl q ↦ rw q e | inr q ↦ rw q h ]

insert-Sorted : (s : String) (ts : List String) → Sorted ts → Sorted (insert s ts)
unfolding insert
insert-Sorted s [] h = (tt, tt)
insert-Sorted s (t ∷ ts) h = elim (Bool-cases (text_leb s t)) [
  | inl e ↦ rw e (e, h)
  | inr e ↦ rw e (Leads-insert t s ts h.0 (text_leb_total s t e), insert-Sorted s ts h.1)
]

pub sort-Sorted : (ts : List String) → Sorted (sort_strings ts)
unfolding sort_strings
sort-Sorted [] = tt
sort-Sorted (s ∷ ss) = insert-Sorted s (sort_strings ss) (sort-Sorted ss)

-- A text is in a list.
abbrev pub Within : String → List String → Type 0
Within s [] = ⊥
Within s (t ∷ ts) = (t ≡ s) ⊎ Within s ts

Within-insert : (s t : String) (ts : List String) → Within s (insert t ts) ↔ Within s (t ∷ ts)
unfolding insert
Within-insert s t [] = ground arith
Within-insert s t (u ∷ ts) = ground (arith, Within-insert s t ts)

-- Sorting keeps the texts.
pub Within-sort : (s : String) (ts : List String) → Within s (sort_strings ts) ↔ Within s ts
unfolding sort_strings
Within-sort s [] = ground arith
Within-sort s (t ∷ ts) = ground (arith, Within-sort s ts, Within-insert s t (sort_strings ts))
