-- ===== src/Scheduler/Aging/Bounds.antt =====
-- How far `applyAging` of Kernel/process/scheduler.c raises a process that waits.
use tp2_sistemas_operativos.Prelude.{
  ℕ, zero, suc, ◌+◌, ◌*◌, ◌/◌, ◌%◌, ◌^◌, ◌≤◌, ◌<◌, ◌≡◌, ◌≢◌, refl, sym, ap, ◌∙◌, arith, min, leb,
  ltb, ◌&&◌, if◌then◌else◌,
}
use tp2_sistemas_operativos.State.{Process}
use tp2_sistemas_operativos.Scheduler.Aging.{age, boost_level, boosted_priority}

-- The process once it has been aged `n` times.
abbrev pub aged : ℕ → Process → Process
aged zero p = p
aged (suc n) p = age (aged n p)

boost_level_lem : (n : ℕ) → n < 15 * 2 ^ 31 → boost_level n ≡ min 2 (n / 15)
unfolding boost_level
boost_level_lem n h = ground arith

boosted_priority_lem :
    (original level : ℕ)
    → original ≤ 5
    → level ≤ 2
    → boosted_priority original level ≡ min 5 (original + level)
unfolding boosted_priority
boosted_priority_lem o l h g = ground arith

-- One aging, of a process that `applyAging` does not skip.
age_priority :
    (q : Process)
    → q.pid ≢ 1
    → q.pid ≢ 2
    → (age q).priority ≡ (
        if leb 15 ((q.aging_counter + 1) % 2 ^ 64) && ltb q.priority 5
        then boosted_priority q.original_priority (boost_level ((q.aging_counter + 1) % 2 ^ 64))
        else q.priority)
unfolding age
age_priority q i s = ground arith

age_rest :
    (q : Process)
    → q.pid ≢ 1
    → q.pid ≢ 2
    → ((age q).aging_counter ≡ (q.aging_counter + 1) % 2 ^ 64)
      × ((age q).original_priority ≡ q.original_priority)
      × ((age q).pid ≡ q.pid)
unfolding age
age_rest q i s = (ground arith, ground arith, ground arith)

raised :
    (n original now : ℕ)
    → suc n < 15 * 2 ^ 31
    → original ≤ 5
    → now ≡ min 5 (original + min 2 (n / 15))
    → (if leb 15 (suc n) && ltb now 5 then boosted_priority original (boost_level (suc n)) else now)
      ≡ min 5 (original + min 2 (suc n / 15))
raised n original now h o e = rw boosted (ground arith)
  where
    boosted :
        boosted_priority original (boost_level (suc n)) ≡ min 5 (original + min 2 (suc n / 15))
    boosted =
        boosted_priority_lem original (boost_level (suc n)) o
          (omega (arith, boost_level_lem (suc n) h))
        ∙ ap (λ l. min 5 (original + l)) (boost_level_lem (suc n) h)

-- `q` is the process `p` once it has been aged `n` times.
pub record Waited (n : ℕ) (p q : Process) : Type 0 where
  pub counter : q.aging_counter ≡ n
  pub priority : q.priority ≡ min 5 (p.original_priority + min 2 (n / 15))
  pub original : q.original_priority ≡ p.original_priority
  pub pid : q.pid ≡ p.pid

-- A process with its counter at 0 and at its own priority, once it has been aged `n` times.
pub aged-Waited :
    (n : ℕ) (p : Process)
    → n < 15 * 2 ^ 31
    → p.aging_counter ≡ 0
    → p.priority ≡ p.original_priority
    → p.original_priority ≤ 5
    → p.pid ≢ 1
    → p.pid ≢ 2
    → Waited n p (aged n p)
aged-Waited zero p h c e o i s = record {
  counter = c;
  priority = omega (arith, e);
  original = refl;
  pid = refl;
}
aged-Waited (suc n) p h c e o i s =
    step n p (aged n p) h o i s (aged-Waited n p (omega arith) c e o i s)
  where
    step :
        (n : ℕ) (p q : Process)
        → suc n < 15 * 2 ^ 31
        → p.original_priority ≤ 5
        → p.pid ≢ 1
        → p.pid ≢ 2
        → Waited n p q
        → Waited (suc n) p (age q)
    step n p q h o i s w = record {
      counter = omega (arith, w.counter, rest.0);
      priority =
          age_priority q (λ e. i (sym w.pid ∙ e)) (λ e. s (sym w.pid ∙ e))
          ∙ rw (next, w.original) (raised n p.original_priority q.priority h o w.priority);
      original = rest.1 ∙ w.original;
      pid = rest.2 ∙ w.pid;
    }
      where
        next : (q.aging_counter + 1) % 2 ^ 64 ≡ suc n
        next = omega (arith, w.counter)

        rest :
            ((age q).aging_counter ≡ (q.aging_counter + 1) % 2 ^ 64)
            × ((age q).original_priority ≡ q.original_priority)
            × ((age q).pid ≡ q.pid)
        rest = age_rest q (λ e. i (sym w.pid ∙ e)) (λ e. s (sym w.pid ∙ e))
