-- ===== src/Queue/Threads/Preserve.antt =====
-- Every move of every thread keeps the invariant, as long as tickets do not wrap.
use mathlib.Core.Path.{subst}
use app_simple_log.Prelude.{
  ℕ, suc, ◌+◌, ◌≤◌, ◌<◌, ◌≡◌, inl, inr, refl, sym, ap, ◌∙◌, Bool, true, false, [], ◌++◌, some,
  size_mod, add_size, add_size-eq, window, update, arith,
}
use app_simple_log.Queue.Threads.{
  Shared, Pc, idle, pushing, saw_tail, reserving, waiting, filling, counting, popping, saw_head,
  draining, taking, freeing, advancing, uncounting, cell_at, moved, available, refuses, Move, push,
  load_tail, refuse, accept, reserve, retry, spin, enter, emplace, publish, count, pop, load_head,
  leave, begin, await, ready, take_entry, free_slot, finish, advance, uncount,
}
use app_simple_log.Queue.Threads.Inv.{ticket, consuming, Produces, Consumes, Inv}
use app_simple_log.Queue.Threads.Places.{ticket-range, local-Inv, size-Inv}
use app_simple_log.Queue.Threads.Producer.{reserve-Inv}
use app_simple_log.Queue.Threads.Filling.{emplace-Inv, publish-Inv}
use app_simple_log.Queue.Threads.Draining.{
  taken_out, take-Inv, given_back, free-Inv, advanced, advance-Inv,
}

module _ {A : Type 0} {m : Shared A} {pc : ℕ → Pc A} (inv : Inv m pc) (i : ℕ) where
  seat : (p : Pc A) → pc i ≡ p → i ≡ 0 → Consumes m p
  seat p here e0 = subst (Consumes m) (ap pc (sym e0) ∙ here) inv.consumes

  told : (p : Pc A) → pc i ≡ p → Produces m p
  told p here = subst (Produces m) here (inv.produces i)

  in_pop_all : (p : Pc A) → pc i ≡ p → consuming p ≡ true → i ≡ 0
  in_pop_all p here inside = inv.single i (ap consuming here ∙ inside)

  -- A ticket that the test lets through is less than a capacity ahead of the head.
  accepted : (t : ℕ) → t ≤ m.issued → refuses m t ≡ false → t < m.queue.head + m.queue.capacity
  accepted t le h = ground (arith, inv.fits, inv.order)

  -- A slot whose sequence number says so is published, and not only held.
  is_published :
      (k : ℕ)
      → m.taken ≤ k
      → k < m.issued
      → (cell_at m k).seq ≡ k + 1
      → cell_at m k ≡ record { seq = k + 1; storage = some (m.ledger k) }
  is_published k le lt seen = elim (inv.held k le lt) [
    | inl cell ↦ cell
    | inr (j, has) ↦ absurd (omega (arith, seen, (ticket-range m (pc j) k (inv.produces j) has).2))
  ]

  pub Move-Inv :
      {p p' : Pc A} {m' : Shared A} {pops : Bool}
      → Move pops m p m' p'
      → pc i ≡ p
      → (pops ≡ true → i ≡ 0)
      → m'.issued + m.queue.capacity < size_mod
      → Inv m' (update pc i p')
  Move-Inv (push e) here only fits =
      local-Inv inv i (pushing e) (sym (ap ticket here)) (λ wrong. cc) tt (seat idle here)
  Move-Inv (load_tail {e}) here only fits =
      local-Inv inv i (saw_tail e m.queue.tail) (sym (ap ticket here)) (λ wrong. cc)
        (omega (arith, inv.tail_is)) (seat (pushing e) here)
  Move-Inv (refuse {e} {t} full) here only fits =
      local-Inv inv i idle (sym (ap ticket here)) (λ wrong. cc) tt (seat (saw_tail e t) here)
  Move-Inv (accept {e} {t} room) here only fits =
      local-Inv inv i (reserving e t) (sym (ap ticket here)) (λ wrong. cc)
        (accepted t (told (saw_tail e t) here) room) (seat (saw_tail e t) here)
  Move-Inv (reserve {e} {t} won) here only fits = reserve-Inv inv i e t here won fits
  Move-Inv (retry {e} {t}) here only fits =
      local-Inv inv i (pushing e) (sym (ap ticket here)) (λ wrong. cc) tt
        (seat (reserving e t) here)
  Move-Inv (spin {e} {t} busy) here only fits =
      local-Inv inv i (waiting e t) (sym (ap ticket here)) (λ wrong. cc) (told (waiting e t) here)
        (seat (waiting e t) here)
  Move-Inv (enter {e} {t} free) here only fits =
      local-Inv inv i (filling e t) (sym (ap ticket here)) (λ wrong. cc) (told (waiting e t) here)
        (seat (waiting e t) here)
  Move-Inv (emplace {e} {t}) here only fits = emplace-Inv inv i e t here
  Move-Inv (publish {t}) here only fits = publish-Inv inv i t here
  Move-Inv count here only fits =
      size-Inv (local-Inv inv i idle (sym (ap ticket here)) (λ wrong. cc) tt (seat counting here)) _
  Move-Inv (pop allowed) here only fits =
      local-Inv inv i popping (sym (ap ticket here)) (λ e. only allowed) tt (seat idle here)
  Move-Inv load_head here only fits =
      let i0 = in_pop_all popping here refl in
      let (t_is, f_is) = seat popping here i0 in
      local-Inv inv i (saw_head m.queue.head) (sym (ap ticket here)) (λ e. i0) tt
        (λ e. (t_is, f_is, refl))
  Move-Inv (leave {h} nothing) here only fits =
      let i0 = in_pop_all (saw_head h) here refl in
      let (t_is, f_is, at_head) = seat (saw_head h) here i0 in
      local-Inv inv i idle (sym (ap ticket here)) (λ wrong. cc) tt (λ e. (t_is, f_is))
  Move-Inv (begin {h} something) here only fits =
      let i0 = in_pop_all (saw_head h) here refl in
      let (t_is, f_is, at_head) = seat (saw_head h) here i0 in
      let n : ℕ = available h m.queue.tail in
      let inside : h + n ≤ m.issued = ground (arith, inv.tail_is, inv.order, at_head) in
      local-Inv inv i (draining h n 0 []) (sym (ap ticket here)) (λ e. i0) tt
        (λ e. (omega arith, omega arith, (at_head, omega arith, inside, refl)))
  Move-Inv (await {h} {n} {j} {result} more busy) here only fits =
      let i0 = in_pop_all (draining h n j result) here refl in
      local-Inv inv i (draining h n j result) (sym (ap ticket here)) (λ e. i0) tt
        (seat (draining h n j result) here)
  Move-Inv (ready {h} {n} {j} {result} more seen) here only fits =
      let i0 = in_pop_all (draining h n j result) here refl in
      let (t_is, f_is, (at_head, within, inside, gathered)) =
        seat (draining h n j result) here i0 in
      let at_ticket : add_size h j ≡ h + j = add_size-eq h j (omega (arith, inv.fits)) in
      let full =
        is_published (h + j) (omega arith) (omega arith)
          (sym (ap (λ x. (cell_at m x).seq) at_ticket) ∙ seen ∙ omega (arith, inv.fits)) in
      local-Inv inv i (taking h n j result) (sym (ap ticket here)) (λ e. i0) tt
        (λ e. (t_is, f_is, (at_head, within, inside, gathered), more, full))
  Move-Inv (take_entry {h} {n} {j} {result}) here only fits =
      let i0 = in_pop_all (taking h n j result) here refl in
      let (t_is, f_is, (at_head, within, inside, gathered), more, cell) =
        seat (taking h n j result) here i0 in
      let at_ticket : add_size h j ≡ h + j = add_size-eq h j (omega (arith, inv.fits)) in
      subst
        (λ x.
          Inv (taken_out inv i x)
            (update pc i (freeing h n j (result ++ moved (cell_at m x).storage))))
        (sym at_ticket) (take-Inv inv i h n j result here)
  Move-Inv (free_slot {h} {n} {j} {result}) here only fits =
      let i0 = in_pop_all (freeing h n j result) here refl in
      let (t_is, f_is, (at_head, within, inside, gathered), more, cell) =
        seat (freeing h n j result) here i0 in
      let at_ticket : add_size h j ≡ h + j = add_size-eq h j (omega (arith, inv.fits)) in
      subst (λ x. Inv (given_back inv i x) (update pc i (draining h n (suc j) result)))
        (sym at_ticket) (free-Inv inv i h n j result here)
  Move-Inv (finish {h} {n} {j} {result} through) here only fits =
      let i0 = in_pop_all (draining h n j result) here refl in
      let (t_is, f_is, (at_head, within, inside, gathered)) =
        seat (draining h n j result) here i0 in
      let last : j ≡ n = omega arith in
      local-Inv inv i (advancing h n result) (sym (ap ticket here)) (λ e. i0) tt
        (λ e. (
          omega arith,
          omega arith,
          (at_head, omega arith, inside, gathered ∙ ap (window m.ledger h) last),
        ))
  Move-Inv (advance {h} {n} {result}) here only fits =
      let i0 = in_pop_all (advancing h n result) here refl in
      let (t_is, f_is, (at_head, within, inside, gathered)) = seat (advancing h n result) here i0 in
      subst (λ x. Inv (advanced inv i x result) (update pc i (uncounting n)))
        (sym (add_size-eq h n (omega (arith, inv.fits)))) (advance-Inv inv i h n result here)
  Move-Inv (uncount {n}) here only fits =
      let i0 = in_pop_all (uncounting n) here refl in
      size-Inv
        (local-Inv inv i idle (sym (ap ticket here)) (λ wrong. cc) tt (seat (uncounting n) here)) _
