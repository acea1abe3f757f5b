-- ===== src/Simulator/Configured.antt =====
-- EnforceRemoteOnlyMode of internal/ocpp16hal/remote_only.go against the simulated charger of
-- cmd/cpconsole: what it reads there, and what its changes make of the charger's configuration.
use ocpphal_go.Prelude.{
  ◌≡◌, refl, ap, ◌∙◌, arith, String, Bool, true, false, ◌||◌, Option, none, some, List, [], ◌∷◌,
  get, put, get-put, is_some, Distinct, Entries, ◌==◌, String_key, trim_space, if◌then◌else◌,
}
use ocpphal_go.Store.Types.{ok}
use ocpphal_go.Hal.Extra.{ConfigurationKey}
use ocpphal_go.Hal.RemoteOnly.{Settings, add_change, changes, current_of, names, wanted}
use ocpphal_go.Hal.RemoteOnly.Settled.{carry_out, settled, own, Entries-zip, changes-Settled}
use ocpphal_go.Simulator.{
  Simulator, known_entry, known_of, on_get_configuration, on_change_configuration,
  on_change_configurations,
}

abbrev listed : String → List String → Bool
listed k [] = false
listed k (key ∷ keys) = key == k || listed k keys

abbrev or_else : Option String → Option String → Option String
or_else none old = old
or_else (some v) old = some v

-- What one entry makes of `current`.
abbrev put_some : String → Option String → Settings → Settings
put_some key none m = m
put_some key (some v) m = put key v m

current_of-known_entry :
    (key : String) (o : Option String) (rest : List ConfigurationKey) (m : Settings)
    → current_of (known_entry key o rest) m ≡ current_of rest (put_some key o m)
unfolding current_of
current_of-known_entry key none rest m = refl
current_of-known_entry key (some v) rest m = refl

get-put_some :
    (key k : String) (o : Option String) (m : Settings)
    → get k (put_some key o m) ≡ (if key == k then or_else o (get k m) else get k m)
get-put_some key k none m = ground arith
get-put_some key k (some v) m = ground (arith, get-put key k v m)

or_else_twice : (o old : Option String) → or_else o (or_else o old) ≡ or_else o old
or_else_twice none old = refl
or_else_twice (some v) old = refl

-- What is read back of the keys that were asked for.
get-current_of :
    (keys : List String) (configuration m : Settings) (k : String)
    → get k (current_of (known_of keys configuration) m)
      ≡ (if listed k keys then or_else (get k configuration) (get k m) else get k m)
unfolding known_of current_of
get-current_of [] configuration m k = refl
get-current_of (key ∷ keys) configuration m k =
    let o = get key configuration in
    ap (get k) (current_of-known_entry key o (known_of keys configuration) m)
    ∙ get-current_of keys configuration (put_some key o m) k
    ∙ grind (arith, get-put_some key k o m, or_else_twice (get k configuration) (get k m))

-- Only the wanted keys of the charger's configuration matter.
changes_same :
    (ss c c' : Settings) → Entries (λ k _. get k c ≡ get k c') ss → changes ss c ≡ changes ss c'
unfolding changes
changes_same [] c c' h = refl
changes_same ((key, want) ∷ ss) c c' h =
    ap (λ o. add_change o key want (changes ss c)) h.0
    ∙ ap (add_change (get key c') key want) (changes_same ss c c' h.1)

on_change_configurations-carry_out :
    {F : Type 0} (s : Simulator F) (sent : List (String × String))
    → (on_change_configurations s sent).configuration ≡ carry_out sent s.configuration
unfolding on_change_configurations carry_out
on_change_configurations-carry_out s [] = refl
on_change_configurations-carry_out s ((key, value) ∷ rest) =
    on_change_configurations-carry_out (on_change_configuration s key value) rest

listed-names : (ss : Settings) (k : String) → listed k (names ss) ≡ is_some (get k ss)
unfolding get
listed-names [] k = refl
listed-names ((key, want) ∷ ss) k = ground (arith, listed-names ss k)

or_else-none : (o : Option String) → or_else o none ≡ o
or_else-none none = refl
or_else-none (some v) = refl

-- A setting's key is read back as the charger has it.
read_back :
    (ss configuration : Settings) (k want : String)
    → get k ss ≡ some want
    → get k (current_of (known_of (names ss) configuration) []) ≡ get k configuration
unfolding get
read_back ss configuration k want h =
    let asked : listed k (names ss) ≡ true = listed-names ss k ∙ ap is_some h in
    get-current_of (names ss) configuration [] k
    ∙ ap (λ b. if b then or_else (get k configuration) none else none) asked
    ∙ or_else-none (get k configuration)

-- The changes that are sent are those for the charger's own configuration.
wanted_lem :
    {F : Type 0} (s : Simulator F) (setting : String × String) (ss : Settings)
    → Distinct (setting ∷ ss)
    → wanted (setting ∷ ss) (ok (on_get_configuration s (names (setting ∷ ss))))
      ≡ changes (setting ∷ ss) s.configuration
unfolding on_get_configuration
wanted_lem s setting ss d =
    let all = setting ∷ ss in
    let current = current_of (known_of (names all) s.configuration) [] in
    let each = own all all (λ k want h. h) d in
    changes_same all current s.configuration
      (Entries-zip all (λ k want h _. read_back all s.configuration k want h) each each)

-- When the service makes the simulated charger remote-only, for one or more settings under distinct keys
-- and without spaces around their values, it reads the charger's configuration, and the charger carries out
-- the changes that it sends: then every key has the wanted value if it had another one, and else what it
-- had, and keys that the charger did not have stay missing; and another round would send no change.
pub wanted-Settled :
    {F : Type 0} (s : Simulator F) (setting : String × String) (ss : Settings)
    → Distinct (setting ∷ ss)
    → Entries (λ k want. trim_space want ≡ want) (setting ∷ ss)
    → let all = setting ∷ ss in
      let sent = wanted all (ok (on_get_configuration s (names all))) in
      let s' = on_change_configurations s sent in
      ((k : String) → get k s'.configuration ≡ settled (get k all) (get k s.configuration))
      × (wanted all (ok (on_get_configuration s' (names all))) ≡ [])
wanted-Settled s setting ss d t =
    let all = setting ∷ ss in
    let sent = wanted all (ok (on_get_configuration s (names all))) in
    let final = carry_out (changes all s.configuration) s.configuration in
    let s' = on_change_configurations s sent in
    let same : s'.configuration ≡ final =
      on_change_configurations-carry_out s sent
      ∙ ap (λ x. carry_out x s.configuration) (wanted_lem s setting ss d) in
    let (each, quiet) = changes-Settled all s.configuration d t in
    (λ k. ap (get k) same ∙ each k, wanted_lem s' setting ss d ∙ ap (changes all) same ∙ quiet)
