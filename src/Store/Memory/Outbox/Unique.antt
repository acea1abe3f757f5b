-- ===== src/Store/Memory/Outbox/Unique.antt =====
-- The outbox holds one callback for each dedupe key, under numbers that were given in order.
use ocpphal_go.Prelude.{
  ℕ, zero, suc, ◌+◌, ◌≤◌, ◌<◌, ◌≡◌, refl, String, true, false, none, some, arith, [], ◌∷◌, GoMap,
  get, put, Entries, put-Entries, get-Entries, Distinct, put-Distinct, Option-cases, Bool-cases,
  inl, inr, ◌==◌, if◌then◌else◌, ℕ_key, String_key,
}
use ocpphal_go.Store.Types.{Time, EnqueueCallbackInput}
use ocpphal_go.Store.Memory.{MemoryStore, MemoryCallback, processing}
use ocpphal_go.Store.Memory.Outbox.{
  has_key, claim, is_due, new_callback, enqueue_callback, claim_due_callbacks, change,
  mark_callback_sent, mark_callback_retry, mark_callback_fatal, marshal,
}

abbrev pub Outbox : Type 0
Outbox = GoMap ℕ MemoryCallback

abbrev pub Unique : Outbox → Type 0
Unique [] = Unit {0}
Unique ((_, item) ∷ items) = (has_key item.dedupe_key items ≡ false) × Unique items

abbrev pub IsNumbered : ℕ → ℕ → MemoryCallback → Type 0
IsNumbered last k item = (item.id ≡ k) × (k ≤ last)

pub record IsConsistent (last : ℕ) (m : Outbox) : Type 0 where
  pub distinct : Distinct m
  pub numbered : Entries (IsNumbered last) m
  pub unique : Unique m

-- A new entry is found under its own dedupe key, besides those that were found before.
has_key-put_new :
    (key : String) (id : ℕ) (item : MemoryCallback) (m : Outbox)
    → get id m ≡ none
    → has_key key (put id item m) ≡ (if item.dedupe_key == key then true else has_key key m)
unfolding has_key get put
has_key-put_new key id item [] h = refl
has_key-put_new key id item ((j, x) ∷ m) h = ground (arith, has_key-put_new key id item m)

-- Writing an entry back with its dedupe key changes no answer.
has_key-put_same :
    (key : String) (id : ℕ) (item item' : MemoryCallback) (m : Outbox)
    → get id m ≡ some item
    → item'.dedupe_key ≡ item.dedupe_key
    → has_key key (put id item' m) ≡ has_key key m
unfolding has_key get put
has_key-put_same key id item item' [] h e = cc
has_key-put_same key id item item' ((j, x) ∷ m) h e =
    ground (arith, has_key-put_same key id item item' m)

Unique-put_new :
    (id : ℕ) (item : MemoryCallback) (m : Outbox)
    → get id m ≡ none
    → has_key item.dedupe_key m ≡ false
    → Unique m
    → Unique (put id item m)
unfolding has_key get put
Unique-put_new id item [] h n u = (refl, tt)
Unique-put_new id item ((j, x) ∷ m) h n u =
    ground (arith, Unique-put_new id item m, has_key-put_new x.dedupe_key id item m)

Unique-put_same :
    (id : ℕ) (item item' : MemoryCallback) (m : Outbox)
    → get id m ≡ some item
    → item'.dedupe_key ≡ item.dedupe_key
    → Unique m
    → Unique (put id item' m)
unfolding get put
Unique-put_same id item item' [] h e u = cc
Unique-put_same id item item' ((j, x) ∷ m) h e u =
    ground (arith, Unique-put_same id item item' m, has_key-put_same x.dedupe_key id item item' m)

above_none : (last k : ℕ) (m : Outbox) → Entries (IsNumbered last) m → last < k → get k m ≡ none
unfolding get
above_none last k [] h l = refl
above_none last k ((j, x) ∷ m) h l = ground (arith, above_none last k m h.1)

later-IsNumbered : (n : ℕ) (m : Outbox) → Entries (IsNumbered n) m → Entries (IsNumbered (n + 1)) m
later-IsNumbered n [] h = tt
later-IsNumbered n ((k, x) ∷ m) h = ((h.0.0, omega arith), later-IsNumbered n m h.1)

change-IsConsistent :
    (last id : ℕ) (item item' : MemoryCallback) (m : Outbox)
    → get id m ≡ some item
    → item'.dedupe_key ≡ item.dedupe_key
    → item'.id ≡ item.id
    → IsConsistent last m
    → IsConsistent last (put id item' m)
change-IsConsistent last id item item' m g e i c =
    let (same, bound) = get-Entries (IsNumbered last) id item m c.numbered g in
    record {
      distinct = put-Distinct id item' m c.distinct;
      numbered = put-Entries (IsNumbered last) id item' m (cc, bound) c.numbered;
      unique = Unique-put_same id item item' m g e c.unique;
    }

add-IsConsistent :
    (last : ℕ) (item : MemoryCallback) (m : Outbox)
    → item.id ≡ last + 1
    → has_key item.dedupe_key m ≡ false
    → IsConsistent last m
    → IsConsistent (last + 1) (put (last + 1) item m)
add-IsConsistent last item m i n c =
    let fresh = above_none last (last + 1) m c.numbered (omega arith) in
    record {
      distinct = put-Distinct (last + 1) item m c.distinct;
      numbered =
          put-Entries (IsNumbered (last + 1)) (last + 1) item m (i, omega arith)
            (later-IsNumbered last m c.numbered);
      unique = Unique-put_new (last + 1) item m fresh n c.unique;
    }

-- Claiming changes nothing but statuses.
has_key-claim :
    (key : String) (now n : ℕ) (m : Outbox) → has_key key (claim now n m).1 ≡ has_key key m
unfolding has_key claim
has_key-claim key now zero m = refl
has_key-claim key now (suc n) [] = refl
has_key-claim key now (suc n) ((j, x) ∷ m) =
    ground (arith, has_key-claim key now n m, has_key-claim key now (suc n) m)

get-claim-none : (k now n : ℕ) (m : Outbox) → get k m ≡ none → get k (claim now n m).1 ≡ none
unfolding get claim
get-claim-none k now zero m h = h
get-claim-none k now (suc n) [] h = refl
get-claim-none k now (suc n) ((j, x) ∷ m) h =
    ground (arith, get-claim-none k now n m, get-claim-none k now (suc n) m)

rest-IsConsistent :
    (last j : ℕ) (x : MemoryCallback) (m : Outbox)
    → IsConsistent last ((j, x) ∷ m)
    → IsConsistent last m
rest-IsConsistent last j x m c = record {
  distinct = c.distinct.1;
  numbered = c.numbered.1;
  unique = c.unique.1;
}

-- The first entry before and after, with the rest before and after.
head-IsConsistent :
    (last j : ℕ) (x x' : MemoryCallback) (m m' : Outbox)
    → x'.id ≡ x.id
    → x'.dedupe_key ≡ x.dedupe_key
    → (get j m ≡ none → get j m' ≡ none)
    → has_key x.dedupe_key m' ≡ has_key x.dedupe_key m
    → IsConsistent last ((j, x) ∷ m)
    → IsConsistent last m'
    → IsConsistent last ((j, x') ∷ m')
head-IsConsistent last j x x' m m' i k g h c c' = record {
  distinct = (g c.distinct.0, c'.distinct);
  numbered = ((cc (c.numbered.0.0), c.numbered.0.1), c'.numbered);
  unique = (cc (c.unique.0), c'.unique);
}

claim-IsConsistent :
    (last now n : ℕ) (m : Outbox) → IsConsistent last m → IsConsistent last (claim now n m).1
unfolding claim
claim-IsConsistent last now zero m c = c
claim-IsConsistent last now (suc n) [] c = c
claim-IsConsistent last now (suc n) ((j, x) ∷ m) c = elim (Bool-cases (is_due now x)) [
  | inl b ↦
      rw (b, claim)
        (head-IsConsistent last j x (record x { status = processing }) m (claim now n m).1 refl refl
          (get-claim-none j now n m) (has_key-claim x.dedupe_key now n m) c
          (claim-IsConsistent last now n m (rest-IsConsistent last j x m c)))
  | inr b ↦
      rw (b, claim)
        (head-IsConsistent last j x x m (claim now (suc n) m).1 refl refl
          (get-claim-none j now (suc n) m) (has_key-claim x.dedupe_key now (suc n) m) c
          (claim-IsConsistent last now (suc n) m (rest-IsConsistent last j x m c)))
]

module _ {F : Type 0} where
  abbrev pub IsValid : MemoryStore F → Type 0
  IsValid s = IsConsistent s.memory_outbox_id s.outbox

  pub enqueue-IsValid :
      (s : MemoryStore F) (now : Time) (input : EnqueueCallbackInput)
      → IsValid s
      → IsValid (enqueue_callback s now input).1
  unfolding enqueue_callback
  enqueue-IsValid s now input v = elim (Bool-cases (has_key input.dedupe_key s.outbox)) [
    | inl b ↦ rw (b, enqueue_callback) v
    | inr b ↦ elim (Option-cases (marshal input.payload)) [
      | inl e ↦ rw (b, e, enqueue_callback) v
      | inr (payload, e) ↦
          rw (b, e, enqueue_callback)
            (add-IsConsistent s.memory_outbox_id
              (new_callback (s.memory_outbox_id + 1) now payload input) s.outbox refl b v)
    ]
  ]

  pub claim_due-IsValid :
      (s : MemoryStore F) (now limit : ℕ) → IsValid s → IsValid (claim_due_callbacks s now limit).1
  unfolding claim_due_callbacks
  claim_due-IsValid s now limit v = claim-IsConsistent s.memory_outbox_id now limit s.outbox v

  change-IsValid :
      (s : MemoryStore F) (id : ℕ) (edit : MemoryCallback → MemoryCallback)
      → ((item : MemoryCallback) → (edit item).dedupe_key ≡ item.dedupe_key)
      → ((item : MemoryCallback) → (edit item).id ≡ item.id)
      → IsValid s
      → IsValid (change s id edit (get id s.outbox))
  change-IsValid s id edit k i v = elim (Option-cases (get id s.outbox)) [
    | inl e ↦ rw e v
    | inr (item, e) ↦
        rw e (
          change-IsConsistent s.memory_outbox_id id item (edit item) s.outbox e (k item) (i item) v)
  ]

  pub sent-IsValid : (s : MemoryStore F) (id : ℕ) → IsValid s → IsValid (mark_callback_sent s id)
  unfolding mark_callback_sent
  sent-IsValid s id v = change-IsValid s id _ (λ _. refl) (λ _. refl) v

  pub retry-IsValid :
      (s : MemoryStore F) (id n : ℕ) (at : Time) (e : String)
      → IsValid s
      → IsValid (mark_callback_retry s id n at e)
  unfolding mark_callback_retry
  retry-IsValid s id n at e v = change-IsValid s id _ (λ _. refl) (λ _. refl) v

  pub fatal-IsValid :
      (s : MemoryStore F) (id : ℕ) (e : String) → IsValid s → IsValid (mark_callback_fatal s id e)
  unfolding mark_callback_fatal
  fatal-IsValid s id e v = change-IsValid s id _ (λ _. refl) (λ _. refl) v
