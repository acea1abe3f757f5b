-- ===== src/Hooks/Worker/Outcome.antt =====
-- What becomes of a callback that the worker has taken, told by the answer of the CMS to its request
-- (processTask and postTask of internal/hooks/manager.go).
use ocpphal_go.Prelude.{
  ℕ, ◌+◌, ◌-◌, ◌*◌, ◌^◌, ◌≤◌, ◌<◌, ◌≡◌, ◌≢◌, ◌⊎◌, inl, inr, refl, String, true, Option, none, some,
  arith, ℤ, Float, get, leb, if◌then◌else◌, ◌==◌, String_key, ℕ_key, Option-cases, Bool-cases,
}
use ocpphal_go.Store.Types.{Time, Payload, CallbackTask}
use ocpphal_go.Store.Memory.{MemoryStore, MemoryCallback, pending, sent, fatal}
use ocpphal_go.Store.Interface.{memory_transaction_store}
use ocpphal_go.Hooks.Worker.{
  decimal, other, Body, not_json, object, bad_request, unreachable, unreadable, response, Posted,
  PostResult, normalize_start_callback_payload, parse_max_kwh_response, answered, responded,
  max_received, post_task, process_task, backoff, retry_base,
}
use ocpphal_go.Hooks.Worker.Marks.{IsMarked, StopperKeeps, process_task_marks}

-- The payload that is sent.
abbrev pub sent_payload : CallbackTask → Payload
sent_payload task =
    if task.kind == "start_transaction"
    then normalize_start_callback_payload task.payload
    else task.payload

-- The request could not be made.
abbrev pub IsBad : Posted → Type 0
IsBad (bad_request e) = Unit {0}
IsBad _ = ⊥

-- The wait before a callback's next attempt: 30 seconds for a start and 60 for any other callback,
-- twice as long after each attempt that was made before.
abbrev pub IsPause : CallbackTask → ℕ → Type 0
IsPause task pause =
    ((task.kind ≡ "start_transaction") × (pause ≡ 30000000000 * 2 ^ task.retries))
    ⊎ ((task.kind ≢ "start_transaction") × (pause ≡ 60000000000 * 2 ^ task.retries))

module _ (F : Type 0) ⦃f : Float F⦄ where
  -- A body with a finite number as its `max_kwh`.
  abbrev pub HasLimit : Body → Type 0
  HasLimit (object (some (decimal t))) = (v : F) × (f.parse t ≡ some v) × (f.is_finite v ≡ true)
  HasLimit _ = ⊥

  -- The CMS has taken the callback: it answered with a status below 400, and to a start with a limit.
  abbrev pub Accepts : CallbackTask → Posted → Type 0
  Accepts task (response status body) =
      (status < 400) × ((task.kind ≢ "start_transaction") ⊎ HasLimit body)
  Accepts task _ = ⊥

  -- The entry after an attempt that was answered so.
  abbrev pub IsSettled : Time → CallbackTask → Posted → MemoryCallback → Type 0
  IsSettled now task posted item =
      ((item.status ≡ sent) × Accepts task posted)
      ⊎ ((item.status ≡ fatal)
          × ¬ Accepts task posted
          × (IsBad posted ⊎ (task.max_retries ≤ task.retries + 1)))
      ⊎ ((item.status ≡ pending)
          × ¬ Accepts task posted
          × ¬ IsBad posted
          × (item.retries ≡ task.retries + 1)
          × (item.retries < task.max_retries)
          × ((pause : ℕ) × IsPause task pause × (item.next_retry_at ≡ now + pause)))

  -- What the result of a request says of its answer.
  abbrev Reports : CallbackTask → Posted → PostResult → Type 0
  Reports task posted r =
      (Accepts task posted × (r.fatal ≡ "") × (r.error ≡ none))
      ⊎ (¬ Accepts task posted × IsBad posted × (r.fatal ≢ ""))
      ⊎ (¬ Accepts task posted × ¬ IsBad posted × (r.fatal ≡ "") × (r.error ≢ none))

  body_limit :
      (body : Body)
      → (HasLimit body × (v : F) × (parse_max_kwh_response body ≡ some v))
        ⊎ (¬ HasLimit body × (parse_max_kwh_response ⦃f = f⦄ body ≡ none))
  unfolding parse_max_kwh_response
  body_limit not_json = inr (λ h. h, refl)
  body_limit (object none) = inr (λ h. h, refl)
  body_limit (object (some other)) = inr (λ h. h, refl)
  body_limit (object (some (decimal t))) = elim (Option-cases (f.parse t)) [
    | inl e ↦ inr (λ h. cc (h.1, e), rw (e, parse_max_kwh_response) refl)
    | inr (v, e) ↦ elim (Bool-cases (f.is_finite v)) [
      | inl b ↦ inl ((v, e, b), v, rw (e, parse_max_kwh_response, b) refl)
      | inr b ↦ inr (λ h. cc (h.1, h.2, e, b), rw (e, parse_max_kwh_response, b) refl)
    ]
  ]

module _ {F : Type 0} ⦃f : Float F⦄
    (limit_stopper : Option (MemoryStore F → String → ℤ → MemoryStore F))
    (post : String → Payload → Posted) (s : MemoryStore F) where
  received_some :
      (task : CallbackTask) (v : F)
      → let r = (max_received memory_transaction_store limit_stopper post s task (some v)).0 in
        (r.fatal ≡ "") × (r.error ≡ none)
  received_some task v = elim (Option-cases task.transaction_id) [
    | inl e ↦ rw e (refl, refl)
    | inr (tid, e) ↦ rw e (refl, refl)
  ]

  responded-Reports :
      (task : CallbackTask) (status : ℕ) (body : Body)
      → Reports F task
          (response status body)
          (responded memory_transaction_store limit_stopper post s task status body).0
  responded-Reports task status body = elim (Bool-cases (leb 400 status)) [
    | inl b ↦ rw b (inr (inr (λ h. absurd (ground (arith, b, h.0)), λ h. h, refl, λ h. cc)))
    | inr b ↦
        let low : status < 400 = ground (arith, b) in
        elim (Bool-cases (task.kind == "start_transaction")) [
          | inr k ↦
              let plain : task.kind ≢ "start_transaction" = ground (arith, k) in
              rw (b, k) (inl ((low, inl plain), refl, refl))
          | inl k ↦
              let start : task.kind ≡ "start_transaction" = ground (arith, k) in
              elim (body_limit F body) [
                | inl (l, v, e) ↦
                    rw (b, k, e) (let (z, w) = received_some task v in inl ((low, inr l), z, w))
                | inr (n, e) ↦
                    rw (b, k, e)
                      (inr (
                        inr
                          (λ h. elim h.1 [ inl p ↦ p start | inr l ↦ n l ], λ h. h, refl, λ h. cc)))
              ]
        ]
  ]

  answered-Reports :
      (task : CallbackTask) (p : Posted)
      → ((e : String) → p ≡ bad_request e → e ≢ "")
      → Reports F task p (answered memory_transaction_store limit_stopper post s task p).0
  answered-Reports task (bad_request e) says = inr (inl (λ h. h, tt, says e refl))
  answered-Reports task (unreachable e) says = inr (inr (λ h. h, λ h. h, refl, λ h. cc))
  answered-Reports task (unreadable e) says = inr (inr (λ h. h, λ h. h, refl, λ h. cc))
  answered-Reports task (response status body) says = responded-Reports task status body

pause_lem : (task : CallbackTask) → IsPause task (backoff task.kind (task.retries + 1))
unfolding backoff retry_base
pause_lem task =
    let less : task.retries + 1 - 1 ≡ task.retries = omega arith in
    elim (Bool-cases (task.kind == "start_transaction")) [
      | inl k ↦ inl (ground (arith, k), rw (backoff, retry_base, k, less) refl)
      | inr k ↦ inr (ground (arith, k), rw (backoff, retry_base, k, less) refl)
    ]

module _ (F : Type 0) ⦃f : Float F⦄ where
  marks-IsSettled :
      (now : Time) (task : CallbackTask) (p : Posted) (r : PostResult) (item : MemoryCallback)
      → Reports F task p r
      → IsMarked now task r item
      → IsSettled F now task p item
  marks-IsSettled now task p r item (inl (a, e, n)) (inl (m, e', n')) = inl (m, a)
  marks-IsSettled now task p r item (inl (a, e, n)) (inr (inl (m, inl w))) = absurd (w e)
  marks-IsSettled now task p r item (inl (a, e, n)) (inr (inl (m, inr (w, l)))) = absurd (w n)
  marks-IsSettled now task p r item (inl (a, e, n)) (inr (inr (m, c, l, t, e', n'))) = absurd (n' n)
  marks-IsSettled now task p r item (inr (inl (a, b, e))) (inl (m, e', n')) = absurd (e e')
  marks-IsSettled now task p r item (inr (inl (a, b, e))) (inr (inl (m, w))) =
      inr (inl (m, a, inl b))
  marks-IsSettled now task p r item (inr (inl (a, b, e))) (inr (inr (m, c, l, t, e', n'))) =
      absurd (e e')
  marks-IsSettled now task p r item (inr (inr (a, b, e, n))) (inl (m, e', n')) = absurd (n n')
  marks-IsSettled now task p r item (inr (inr (a, b, e, n))) (inr (inl (m, inl w))) = absurd (w e)
  marks-IsSettled now task p r item (inr (inr (a, b, e, n))) (inr (inl (m, inr (w, l)))) =
      inr (inl (m, a, inr l))
  marks-IsSettled now task p r item (inr (inr (a, b, e, n))) (inr (inr (m, c, l, t, e', n'))) =
      inr (inr (m, a, b, c, l, (backoff task.kind (task.retries + 1), pause_lem task, t)))

-- The error of a request that cannot be made has a text.
abbrev pub SaysWhy : (String → Payload → Posted) → Type 0
SaysWhy post =
    (url : String) (payload : Payload) (e : String) → post url payload ≡ bad_request e → e ≢ ""

module _ {F : Type 0} ⦃f : Float F⦄ (post : String → Payload → Posted) where
  -- One attempt to deliver a callback settles it by the answer of the CMS, over a MemoryStore that
  -- holds the callback. It is sent exactly when the answer's status is below 400 and, for a start, its
  -- body has a finite number as max_kwh. It is given up exactly when it is not sent and either the
  -- request could not be made or this was the last attempt. Else it waits for a later attempt, with one
  -- more retry counted, for 30 seconds times 2 to the number of retries before for a start, and for 60
  -- seconds times it for another kind. Its id and its number of attempts stay. The limit stopper leaves
  -- the callbacks alone, and the error of a request that cannot be made has a text.
  pub process_task_settles :
      (limit_stopper : Option (MemoryStore F → String → ℤ → MemoryStore F))
      → StopperKeeps limit_stopper
      → SaysWhy post
      → (s : MemoryStore F) (now : Time) (task : CallbackTask) (item : MemoryCallback)
      → get task.id s.outbox ≡ some item
      → (after : MemoryCallback) × (get task.id
            (process_task memory_transaction_store limit_stopper post s now task).outbox
          ≡ some after)
        × IsSettled F now task (post task.target_url (sent_payload task)) after
        × (after.id ≡ item.id)
        × (after.max_retries ≡ item.max_retries)
  process_task_settles limit_stopper keep says s now task item g =
      let (after, found, marked, same, most) =
        process_task_marks post limit_stopper keep s now task item g in
      let reported : Reports F task (post task.target_url (sent_payload task))
          (post_task memory_transaction_store limit_stopper post s task).0 =
        unfold post_task in
        answered-Reports limit_stopper post s task (post task.target_url (sent_payload task))
          (says task.target_url (sent_payload task)) in
      (after, found, marks-IsSettled F now task _ _ after reported marked, same, most)
