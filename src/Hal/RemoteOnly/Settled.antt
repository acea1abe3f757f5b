-- ===== src/Hal/RemoteOnly/Settled.antt =====
-- EnforceRemoteOnlyMode: what the changes make of a charger that carries them out.
use ocpphal_go.Prelude.{
  ◌≡◌, inl, inr, refl, ◌∙◌, Bool-cases, arith, String, Option, none, some, List, [], ◌∷◌, get, put,
  get-put_self, get-put_ne, sym, subst, ap, ◌≢◌, Distinct, Entries, ◌==◌, String_key, trim_space,
  if◌then◌else◌,
}
use ocpphal_go.Hal.RemoteOnly.{Settings, add_change, changes}

-- A charger that carries out the changes.
unfoldable pub carry_out : List (String × String) → Settings → Settings
carry_out [] m = m
carry_out ((key, want) ∷ rest) m = carry_out rest (put key want m)

-- What a key ends with: the wanted value where it is reported with another one.
abbrev pub settled : Option String → Option String → Option String
settled none got = got
settled (some want) none = none
settled (some want) (some got) = if trim_space got == want then some got else some want

-- The same for a map that the changes are carried out on, when they were found on another.
abbrev after : Option String → Option String → Option String → Option String
after none got old = old
after (some want) none old = old
after (some want) (some got) old = if trim_space got == want then old else some want

abbrev Quiet : Option String → String → Type 0
Quiet none want = Unit
Quiet (some got) want = trim_space got ≡ want

-- What the change for one key makes of a map.
abbrev moved : Option String → String → String → Settings → Settings
moved none key want m = m
moved (some got) key want m = if trim_space got == want then m else put key want m

carry_out-add_change :
    (o : Option String) (key want : String) (later : List (String × String)) (m : Settings)
    → carry_out (add_change o key want later) m ≡ carry_out later (moved o key want m)
unfolding carry_out
carry_out-add_change none key want later m = refl
carry_out-add_change (some got) key want later m = ground arith

moved_self :
    (o : Option String) (key want : String) (m : Settings)
    → get key (moved o key want m) ≡ after (some want) o (get key m)
moved_self none key want m = refl
moved_self (some got) key want m = ground (arith, get-put_self key want m)

moved_other :
    (o : Option String) (key want k : String) (m : Settings)
    → key ≢ k
    → get k (moved o key want m) ≡ get k m
moved_other none key want k m n = refl
moved_other (some got) key want k m n = ground (arith, get-put_ne key k want m n)

get-carry_out :
    (ss : Settings) (current m : Settings) (k : String)
    → Distinct ss
    → get k (carry_out (changes ss current) m) ≡ after (get k ss) (get k current) (get k m)
unfolding changes carry_out get
get-carry_out [] current m k d = refl
get-carry_out ((key, want) ∷ ss) current m k d =
    let m' = moved (get key current) key want m in
    ap (get k) (carry_out-add_change (get key current) key want (changes ss current) m)
    ∙ get-carry_out ss current m' k d.1
    ∙ grind (
      arith,
      d.0,
      moved_self (get key current) key want m,
      moved_other (get key current) key want k m,
    )

after_same : (o got : Option String) → after o got got ≡ settled o got
after_same none got = refl
after_same (some want) none = refl
after_same (some want) (some got) = refl

-- Each entry of a map with distinct keys is what its key has.
pub own :
    (ss whole : Settings)
    → ((k want : String) → get k ss ≡ some want → get k whole ≡ some want)
    → Distinct ss
    → Entries (λ k want. get k whole ≡ some want) ss
unfolding get
own [] whole f d = tt
own ((key, want) ∷ ss) whole f d =
    (f key want (ground arith), own ss whole (λ k w h. f k w (grind (arith, h, d.0))) d.1)

pub Entries-zip :
    {P Q R : String → String → Type 0} (ss : Settings)
    → ((k want : String) → P k want → Q k want → R k want)
    → Entries P ss
    → Entries Q ss
    → Entries R ss
Entries-zip [] f p q = tt
Entries-zip ((key, want) ∷ ss) f p q = (f key want p.0 q.0, Entries-zip ss f p.1 q.1)

Quiet-settled :
    (want : String) (got : Option String)
    → trim_space want ≡ want
    → Quiet (settled (some want) got) want
Quiet-settled want none t = tt
Quiet-settled want (some got) t = elim (Bool-cases (trim_space got == want)) [
  | inl q ↦ rw q (grind (arith, q))
  | inr q ↦ rw q t
]

-- Nothing is left to change where each setting is not reported or has its value.
changes_none :
    (ss current : Settings)
    → Entries (λ k want. Quiet (get k current) want) ss
    → changes ss current ≡ []
unfolding changes
changes_none [] current h = refl
changes_none ((key, want) ∷ ss) current h = ground (arith, changes_none ss current h.1, h.0)

-- On a charger that reports its configuration truly and carries out what it is told, with the settings
-- that are wanted under distinct keys and without spaces around them, every key ends with the wanted
-- value if it was reported with another one, and else as it was, reported or not; and then nothing is
-- left to change.
pub changes-Settled :
    (ss current : Settings)
    → Distinct ss
    → Entries (λ k want. trim_space want ≡ want) ss
    → let final = carry_out (changes ss current) current in
      ((k : String) → get k final ≡ settled (get k ss) (get k current)) × (changes ss final ≡ [])
changes-Settled ss current d t = (each, changes_none ss final quiet)
  where
    final : Settings
    final = carry_out (changes ss current) current

    each : (k : String) → get k final ≡ settled (get k ss) (get k current)
    each k = get-carry_out ss current current k d ∙ after_same (get k ss) (get k current)

    quiet : Entries (λ k want. Quiet (get k final) want) ss
    quiet =
        Entries-zip ss
          (λ k want h q.
            subst (λ o. Quiet o want) (sym (each k ∙ ap (λ o. settled o (get k current)) h))
              (Quiet-settled want (get k current) q))
          (own ss ss (λ k want h. h) d) t
