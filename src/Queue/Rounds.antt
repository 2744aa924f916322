-- ===== src/Queue/Rounds.antt =====
-- The entries of a range of tickets, and the rounds of `popAll` that take them.
use mathlib.Core.Path.{ap₂, subst}
use app_simple_log.Prelude.{
  ℕ, zero, suc, ◌+◌, ◌%◌, ◌≤◌, ◌<◌, ◌≡◌, refl, sym, ap, ◌∙◌, Option, none, some, List, [], ◌∷◌,
  ◌++◌, append_assoc, append-nil, length, set, size_mod, add_size-eq, window, window-congr,
  window_last, arith,
}
use app_simple_log.Queue.{Cell, AsyncQueue, take_slot, take_slots}
use app_simple_log.Queue.Inv.{
  slot, Slots, Slots-release, slot-set_self, slot-set_below, slot-set_above,
}

-- The entries among optional ones.
abbrev pub gather : {A : Type 0} → List (Option A) → List A
gather [] = []
gather (none ∷ os) = gather os
gather (some e ∷ os) = e ∷ gather os

gather-append : {A : Type 0} (xs ys : List (Option A)) → gather (xs ++ ys) ≡ gather xs ++ gather ys
gather-append [] ys = refl
gather-append (none ∷ xs) ys = gather-append xs ys
gather-append (some e ∷ xs) ys = ap (λ l. e ∷ l) (gather-append xs ys)

pub gather-some :
    {A : Type 0} (o : Option A) (os : List (Option A)) (e : A)
    → o ≡ some e
    → gather (o ∷ os) ≡ e ∷ gather os
gather-some none os e h = cc
gather-some (some x) os e h = cc

module _ {A : Type 0} where
  abbrev pub stored : ℕ → List (Cell A) → ℕ → Option A
  stored cap cells k = (slot cap cells k).storage

  -- The entries of tickets `h` to `h + n`.
  abbrev pub entries : ℕ → List (Cell A) → ℕ → ℕ → List A
  entries cap cells h n = gather (window (stored cap cells) h n)

  module _ (cap : ℕ) (cells : List (Cell A)) where
    pub length-entries :
        (h n : ℕ)
        → ((k : ℕ)
            → h ≤ k
            → k < h + n
            → (e : A) × (slot cap cells k ≡ record { seq = k + 1; storage = some e }))
        → length (entries cap cells h n) ≡ n
    length-entries h zero held = refl
    length-entries h (suc n) held =
        let (e, here) = held h (omega arith) (omega arith) in
        ap length (gather-some _ _ e (ap (λ (x : Cell A). x.storage) here))
        ∙ ap suc (length-entries (h + 1) n (λ k le lt. held k (omega arith) (omega arith)))

    pub entries-publish :
        (h n : ℕ) (e : A)
        → Slots cap cells h (h + n)
        → n < cap
        → entries cap
            (set cells ((h + n) % cap) (record { seq = h + n + 1; storage = some e }))
            h
            (suc n)
          ≡ entries cap cells h n ++ e ∷ []
    entries-publish h n e s room =
        ap gather (window_last written h n)
        ∙ ap₂ (λ w x. gather (w ++ x ∷ [])) (window-congr _ _ h n same) last
        ∙ gather-append (window (stored cap cells) h n) (some e ∷ [])
      where
        c : Cell A
        c = record { seq = h + n + 1; storage = some e }

        written : ℕ → Option A
        written = stored cap (set cells ((h + n) % cap) c)

        same : (i : ℕ) → i < n → written (h + i) ≡ stored cap cells (h + i)
        same i lt =
            ap (λ (x : Cell A). x.storage)
              (slot-set_below cap cells (h + n) (h + i) c (omega arith) (omega arith))

        last : written (h + n) ≡ some e
        last =
            ap (λ (x : Cell A). x.storage) (slot-set_self cap cells (h + n) c s.slots (omega arith))

    entries-release :
        (h n : ℕ) (c : Cell A)
        → n < cap
        → entries cap (set cells (h % cap) c) (h + 1) n ≡ entries cap cells (h + 1) n
    entries-release h n c room = ap gather (
        window-congr _ _ (h + 1) n (λ i lt.
          ap (λ (x : Cell A). x.storage)
            (slot-set_above cap cells h (h + 1 + i) c (omega arith) (omega arith))))

  -- A round of `popAll` takes the oldest ticket's entry.
  take_slot_lem :
      (q : AsyncQueue A) (h t : ℕ)
      → Slots q.capacity q.buffer h t
      → h < t
      → h + q.capacity < size_mod
      → (e : A) × (slot q.capacity q.buffer h ≡ record { seq = h + 1; storage = some e })
        × (take_slot q h
            ≡ some (
              e ∷ [],
              record q {
                buffer =
                    set q.buffer (h % q.capacity) (record { seq = h + q.capacity; storage = none });
              },
            ))
  unfolding take_slot
  take_slot_lem q h t s lt fits =
      let (e, here) = s.published h (omega arith) lt in (e, here, ground arith)

  -- The array after `n` rounds of `popAll` from ticket `h` on.
  pub released : ℕ → List (Cell A) → ℕ → ℕ → List (Cell A)
  released cap cells h zero = cells
  released cap cells h (suc n) =
      released cap (set cells (h % cap) (record { seq = h + cap; storage = none })) (h + 1) n

  pub released-Slots :
      (cap : ℕ) (cells : List (Cell A)) (h n t : ℕ)
      → Slots cap cells h t
      → h + n ≤ t
      → Slots cap (released cap cells h n) (h + n) t
  unfolding released
  released-Slots cap cells h zero t s le = subst (λ k. Slots cap cells k t) (omega arith) s
  released-Slots cap cells h (suc n) t s le =
      subst (λ k. Slots cap (released cap cells h (suc n)) k t) (omega arith)
        (released-Slots cap (set cells (h % cap) (record { seq = h + cap; storage = none })) (h + 1)
          n t (Slots-release cap cells h t s (omega arith)) (omega arith))

  -- The loop of `popAll` takes `n` tickets, and none of its waits is endless.
  pub take_slots_lem :
      (head i h n t : ℕ) (result : List A) (q : AsyncQueue A)
      → head + i ≡ h
      → Slots q.capacity q.buffer h t
      → h + n ≤ t
      → t + q.capacity < size_mod
      → take_slots head i n result q
        ≡ some (
          result ++ entries q.capacity q.buffer h n,
          record q { buffer = released q.capacity q.buffer h n },
        )
  unfolding take_slots released
  take_slots_lem head i h zero t result q at s le fits = rw append-nil
  take_slots_lem head i h (suc n) t result q at s le fits =
      let (e, here, step) = take_slot_lem q h t s (omega arith) (omega arith) in
      let c : Cell A = record { seq = h + q.capacity; storage = none } in
      let rest =
        take_slots_lem head (i + 1) (h + 1) n t (result ++ e ∷ [])
          (record q { buffer = set q.buffer (h % q.capacity) c }) (omega arith)
          (Slots-release q.capacity q.buffer h t s (omega arith)) (omega arith) fits in
      rw (add_size-eq head i (omega arith), at, step, take_slots)
        (rest
          ∙ ap some (
              ap₂ (λ l r. (l, r))
                (append_assoc result (e ∷ []) _
                  ∙ ap (λ l. result ++ l)
                      (ap (λ l. e ∷ l) (entries-release q.capacity q.buffer h n c (omega arith))
                        ∙ sym (gather-some _ _ e (ap (λ (x : Cell A). x.storage) here))))
                refl))
