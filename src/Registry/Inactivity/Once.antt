-- ===== src/Registry/Inactivity/Once.antt =====
-- CheckInactivity of inactivity.go on a silent charger, and again after it.
use ocpphal_go.Prelude.{
  ℕ, ◌-◌, ◌≡◌, ◌≢◌, sym, ap, ◌⊎◌, ◌∙◌, inl, inr, refl, String, true, false, some, arith, Float, get,
  put, get-put_self, get-put_ne, String_key, ◌==◌, String_discrete, Option-cases, Bool-cases, eqb,
}
use ocpphal_go.Registry.{ChargerState, Registry}
use ocpphal_go.Registry.Inactivity.{check_found, check_inactivity, no_change, is_silent}

unmarked : (t : String) → (t == "marked_offline") ≡ false → t ≢ "marked_offline"
unmarked t h = ground (arith, h)

module _ {F : Type 0} ⦃f : Float F⦄ where
  abbrev pub offline : ChargerState F → ChargerState F
  offline cp = record cp { online = false; status = "Offline" }

  first_check :
      (r : Registry F) (c : String) (limit now : ℕ) (cp : ChargerState F)
      → get c r ≡ some cp
      → eqb cp.last_message_time 0 ≡ false
      → cp.online ≡ true
      → is_silent cp limit now ≡ true
      → check_inactivity r c limit now ≡ (
        record (no_change c limit now cp) {
          inactive = true;
          online = "Offline";
          status = "Offline";
          action = "marked_offline";
        },
        put c (offline cp) r,
      )
  unfolding check_inactivity check_found
  first_check r c limit now cp e z o l = rw (e, check_inactivity, z, o, l) refl

  second_check :
      (r : Registry F) (c : String) (limit now : ℕ) (cp : ChargerState F)
      → get c r ≡ some cp
      → eqb cp.last_message_time 0 ≡ false
      → cp.online ≡ false
      → is_silent cp limit now ≡ true
      → check_inactivity r c limit now ≡ (
        record (no_change c limit now cp) {
          inactive = true;
          online = "Offline";
          action = "already_offline";
        },
        r,
      )
  unfolding check_inactivity check_found
  second_check r c limit now cp e z o l = rw (e, check_inactivity, z, o, l) refl

  again :
      (r : Registry F) (c : String) (limit now : ℕ) (cp : ChargerState F)
      → eqb cp.last_message_time 0 ≡ false
      → is_silent cp limit now ≡ true
      → check_inactivity (put c (offline cp) r) c limit now ≡ (
        record (no_change c limit now (offline cp)) {
          inactive = true;
          online = "Offline";
          action = "already_offline";
        },
        put c (offline cp) r,
      )
  again r c limit now cp z l =
      second_check (put c (offline cp) r) c limit now (offline cp) (get-put_self c (offline cp) r) z
        refl l

  -- The charger is known, has sent a message, is online, and has been silent for the limit.
  abbrev pub IsDue : Registry F → String → ℕ → ℕ → Type 0
  IsDue r c limit now =
      (cp : ChargerState F) × (get c r ≡ some cp)
      × (cp.last_message_time ≢ 0)
      × (cp.online ≡ true)
      × (f.fle (f.seconds limit) (f.seconds (now - cp.last_message_time)) ≡ true)

  due_check :
      (r : Registry F) (c : String) (limit now : ℕ)
      → IsDue r c limit now
      → (cp : ChargerState F) × (get c r ≡ some cp)
        × (eqb cp.last_message_time 0 ≡ false)
        × (cp.online ≡ true)
        × (is_silent cp limit now ≡ true)
  due_check r c limit now (cp, e, m, o, l) =
      let z : eqb cp.last_message_time 0 ≡ false = ground (arith, m) in
      (cp, e, z, o, rw (z, is_silent) l)

  check-IsDue :
      (r : Registry F) (c : String) (limit now : ℕ) (cp : ChargerState F)
      → get c r ≡ some cp
      → eqb cp.last_message_time 0 ≡ false
      → cp.online ≡ true
      → is_silent cp limit now ≡ true
      → IsDue r c limit now
  check-IsDue r c limit now cp e z o l = (cp, e, ground (arith, z), o, rw (z, is_silent) at l)

  none_due :
      (r : Registry F) (c : String) (limit now : ℕ)
      → ((check_inactivity r c limit now).1 ≡ r)
          × ((check_inactivity r c limit now).0.action ≢ "marked_offline")
        ⊎ ((cp : ChargerState F) × (get c r ≡ some cp)
            × (eqb cp.last_message_time 0 ≡ false)
            × (cp.online ≡ true)
            × (is_silent cp limit now ≡ true))
  unfolding check_inactivity check_found no_change String_discrete
  none_due r c limit now = elim (Option-cases (get c r)) [
    | inl e ↦ inl (rw (e, check_inactivity) (refl, unmarked "charger_not_found" refl))
    | inr (cp, e) ↦ elim (Bool-cases (eqb cp.last_message_time 0)) [
      | inl z ↦ inl (rw (e, check_inactivity, z) (refl, unmarked "no_messages" refl))
      | inr z ↦ elim (Bool-cases cp.online) [
        | inl o ↦ elim (Bool-cases (is_silent cp limit now)) [
          | inl l ↦ inr (cp, e, z, o, l)
          | inr l ↦ inl (rw (e, check_inactivity, z, o, l) (refl, unmarked "no_change" refl))
        ]
        | inr o ↦ elim (Bool-cases (is_silent cp limit now)) [
          | inl l ↦ inl (rw (e, check_inactivity, z, o, l) (refl, unmarked "already_offline" refl))
          | inr l ↦ inl (rw (e, check_inactivity, z, o, l) (refl, unmarked "no_change" refl))
        ]
      ]
    ]
  ]

  -- CheckInactivity takes a charger offline exactly when it is known, has sent a message, is online, and
  -- has been silent for the limit or longer. Then it reports so, the registry has the charger offline
  -- and otherwise as it was, no other charger has changed, and a second check at the same moment reports
  -- a charger that is offline already and changes nothing. Else it reports no such thing, and the
  -- registry is unchanged.
  pub marked_once :
      (r : Registry F) (c : String) (limit now : ℕ)
      → let (result, s) = check_inactivity r c limit now in
        (IsDue r c limit now
          × (result.action ≡ "marked_offline")
          × (result.inactive ≡ true)
          × ((cp : ChargerState F) × (get c r ≡ some cp)
              × (get c s ≡ some (record cp { online = false; status = "Offline" })))
          × ((d : String) → d ≢ c → get d s ≡ get d r)
          × ((check_inactivity s c limit now).0.action ≡ "already_offline")
          × ((check_inactivity s c limit now).1 ≡ s))
        ⊎ (¬ IsDue r c limit now × (result.action ≢ "marked_offline") × (s ≡ r))
  marked_once r c limit now = elim (none_due r c limit now) [
    | inl (same, other) ↦ inr (
      λ d.
          let (cp, e, z, o, l) = due_check r c limit now d in
          other (ap (λ x. x.0.action) (first_check r c limit now cp e z o l)),
      other,
      same,
    )
    | inr (cp, e, z, o, l) ↦
        let first = first_check r c limit now cp e z o l in
        inl (
          check-IsDue r c limit now cp e z o l,
          ap (λ x. x.0.action) first,
          ap (λ x. x.0.inactive) first,
          (cp, e, ap (λ x. get c x.1) first ∙ get-put_self c (offline cp) r),
          λ d n. ap (λ x. get d x.1) first ∙ get-put_ne c d (offline cp) r (λ q. n (sym q)),
          ap (λ x. (check_inactivity x.1 c limit now).0.action) first
              ∙ ap (λ x. x.0.action) (again r c limit now cp z l),
          ap (λ x. (check_inactivity x.1 c limit now).1) first
              ∙ ap (λ x. x.1) (again r c limit now cp z l)
              ∙ sym (ap (λ x. x.1) first),
        )
  ]
